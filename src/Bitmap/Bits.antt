-- ===== src/Bitmap/Bits.antt =====
-- fs/bitmap.c: setting and clearing a bit.
use linux.Common.{
  ℕ, zero, suc, ◌+◌, ◌-◌, ◌/◌, ◌%◌, ◌^◌, true, ◌==◌, fun_ext, ◌≡◌, ◌≢◌, sym, ap, ◌∙◌, arith,
  ℕ_discrete,
}
use linux.Common.Bits.{bit, double_pow}
use linux.Bitmap.{Words, bit_at, set_bit, clear_bit}

-- Adding a bit that is not there sets it.
bit-add_pow_self : (k w : ℕ) → bit k w ≡ 0 → bit k (w + 2 ^ k) ≡ 1
unfolding bit
bit-add_pow_self zero w h = omega arith
bit-add_pow_self (suc k) w h =
    let half : (w + 2 ^ suc k) / 2 ≡ w / 2 + 2 ^ k = omega (arith, double_pow k) in
    ap (bit k) half ∙ bit-add_pow_self k (w / 2) h

-- set_bit at a zero bit sets it.
pub set_bit_self : (nr : ℕ) (addr : Words) → bit_at nr addr ≡ 0 → bit_at nr (set_bit nr addr).1 ≡ 1
unfolding set_bit
set_bit_self nr addr h =
    let e : (bit_at nr addr == 0) ≡ true = ground arith in
    let at : (set_bit nr addr).1 (nr / 32) ≡ addr (nr / 32) + 2 ^ (nr % 32) = ground (arith, e) in
    ap (bit (nr % 32)) at ∙ bit-add_pow_self (nr % 32) (addr (nr / 32)) h

-- The word of a zero bit, after the bit has been set, and any other.
set_bit-word_self :
    (nr : ℕ) (addr : Words)
    → bit_at nr addr ≡ 0
    → (set_bit nr addr).1 (nr / 32) ≡ addr (nr / 32) + 2 ^ (nr % 32)
unfolding set_bit
set_bit-word_self nr addr h = ground arith

set_bit-word_ne : (nr w : ℕ) (addr : Words) → w ≢ nr / 32 → (set_bit nr addr).1 w ≡ addr w
unfolding set_bit
set_bit-word_ne nr w addr n = ground arith

clear_bit-word_self :
    (nr : ℕ) (addr : Words)
    → bit_at nr addr ≡ 1
    → (clear_bit nr addr).1 (nr / 32) ≡ addr (nr / 32) - 2 ^ (nr % 32)
unfolding clear_bit
clear_bit-word_self nr addr h = ground arith

clear_bit-word_ne : (nr w : ℕ) (addr : Words) → w ≢ nr / 32 → (clear_bit nr addr).1 w ≡ addr w
unfolding clear_bit
clear_bit-word_ne nr w addr n = ground arith

add_sub : (a b : ℕ) → a + b - b ≡ a
add_sub a b = omega arith

-- Clearing a bit that has been set gives the words back.
pub clear_bit-set_bit :
    (nr : ℕ) (addr : Words) → bit_at nr addr ≡ 0 → (clear_bit nr (set_bit nr addr).1).1 ≡ addr
clear_bit-set_bit nr addr h =
    let set_ = (set_bit nr addr).1 in
    fun_ext (λ w. elim (ℕ_discrete w (nr / 32)) [
      | yes e ↦
          ap (clear_bit nr set_).1 e
          ∙ clear_bit-word_self nr set_ (set_bit_self nr addr h)
          ∙ ap (λ x. x - 2 ^ (nr % 32)) (set_bit-word_self nr addr h)
          ∙ add_sub (addr (nr / 32)) (2 ^ (nr % 32))
          ∙ ap addr (sym e)
      | no n ↦ clear_bit-word_ne nr w set_ n ∙ set_bit-word_ne nr w addr n
    ])
