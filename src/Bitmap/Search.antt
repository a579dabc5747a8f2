-- ===== src/Bitmap/Search.antt =====
-- fs/bitmap.c: what the search for a zero bit finds.
use linux.Common.{
  ℕ, zero, suc, ◌+◌, ◌-◌, ◌*◌, ◌/◌, ◌%◌, ◌<◌, ◌≤◌, true, false, none, some, ◌==◌, ◌≡◌, refl, ap,
  ap₂, ◌∙◌, arith, ℕ_discrete, dec_lt, ◌⊎◌, inl, inr,
}
use linux.Common.Bits.{bit, bit-le-one}
use linux.Bitmap.{Words, bit_at, zero_bit, scan_words, find_first_zero}

-- The bits from `k` on: the first that is 0, or none of `n`.
zero_bit_lem :
    (n k w : ℕ)
    → ((zero_bit n k w ≡ none) × ((i : ℕ) → k ≤ i → i < k + n → bit i w ≡ 1))
      ⊎ ((j : ℕ) × (zero_bit n k w ≡ some j)
          × (k ≤ j)
          × (j < k + n)
          × (bit j w ≡ 0)
          × ((i : ℕ) → k ≤ i → i < j → bit i w ≡ 1))
unfolding zero_bit
zero_bit_lem zero k w = inl (refl, λ i l h. absurd (omega arith))
zero_bit_lem (suc n) k w = elim (ℕ_discrete (bit k w) 0) [
  | yes z ↦
      let e : (bit k w == 0) ≡ true = ground arith in
      inr (k, rw e refl, omega arith, omega arith, z, λ i l h. absurd (omega arith))
  | no z ↦
      let e : (bit k w == 0) ≡ false = ground arith in
      let one : (i : ℕ) → i ≡ k → bit i w ≡ 1 =
        λ i p. ap (λ x. bit x w) p ∙ omega (arith, bit-le-one k w) in
      elim (zero_bit_lem n (suc k) w) [
        | inl (f, ones) ↦ inl (
          rw e f,
          λ i l h. elim (ℕ_discrete i k) [
            | yes p ↦ one i p
            | no p ↦ ones i (omega arith) (omega arith)
          ],
        )
        | inr (j, f, l, h, z', ones) ↦ inr (
          j,
          rw e f,
          omega arith,
          omega arith,
          z',
          λ i m g. elim (ℕ_discrete i k) [ yes p ↦ one i p | no p ↦ ones i (omega arith) g ],
        )
      ]
]

-- A bit of word `i`.
in_word :
    (addr : Words) (i nr : ℕ)
    → i * 32 ≤ nr
    → nr < i * 32 + 32
    → bit_at nr addr ≡ bit (nr - i * 32) (addr i)
in_word addr i nr l h =
    let w : nr / 32 ≡ i = omega arith in
    let k : nr % 32 ≡ nr - i * 32 = omega arith in ap₂ (λ a b. bit a (addr b)) k w

-- A bit of word `i`, or of a later one.
all_bits :
    (i nr : ℕ) (addr : Words)
    → ((k : ℕ) → k < 32 → bit k (addr i) ≡ 1)
    → i * 32 ≤ nr
    → (i * 32 + 32 ≤ nr → bit_at nr addr ≡ 1)
    → bit_at nr addr ≡ 1
all_bits i nr addr word g later = elim (dec_lt nr (i * 32 + 32)) [
  | yes l ↦ in_word addr i nr g l ∙ word (nr - i * 32) (omega arith)
  | no l ↦ later (omega arith)
]

Scanned : ℕ → ℕ → Words → ℕ → Type 0
Scanned first last addr r =
    ((r ≡ last) × ((nr : ℕ) → first ≤ nr → nr < last → bit_at nr addr ≡ 1))
    ⊎ ((first ≤ r)
        × (r < last)
        × (bit_at r addr ≡ 0)
        × ((nr : ℕ) → first ≤ nr → nr < r → bit_at nr addr ≡ 1))

scan_words_lem :
    (n i : ℕ) (addr : Words) → Scanned (i * 32) (i * 32 + n * 32) addr (scan_words n i addr)
unfolding Scanned scan_words
scan_words_lem zero i addr = inl (omega arith, λ nr l h. absurd (omega arith))
scan_words_lem (suc n) i addr = elim (zero_bit_lem 32 0 (addr i)) [
  | inr (k, f, l, h, z, ones) ↦
      rw (f, scan_words)
        (inr (
          omega arith,
          omega arith,
          in_word addr i (i * 32 + k) (omega arith) (omega arith)
              ∙ ap (λ x. bit x (addr i)) (omega arith)
              ∙ z,
          λ nr g m.
              in_word addr i nr g (omega arith) ∙ ones (nr - i * 32) (omega arith) (omega arith),
        ))
  | inl (f, ones) ↦
      rw (f, scan_words)
        (elim (scan_words_lem n (suc i) addr) [
          | inl (e, all_) ↦ inl (
            omega (arith, e),
            λ nr g m.
                all_bits i nr addr (λ k l. ones k (omega arith) (omega arith)) g
                  (λ l. all_ nr (omega arith) (omega arith)),
          )
          | inr (l, h, z, all_) ↦ inr (
            omega arith,
            omega arith,
            z,
            λ nr g m.
                all_bits i nr addr (λ k l. ones k (omega arith) (omega arith)) g
                  (λ l. all_ nr (omega arith) m),
          )
        ])
]

-- find_first_zero gives the first zero bit of a block, or 8192 where all of its bits are 1.
pub find_first_zero_lem :
    (addr : Words)
    → ((find_first_zero addr ≡ 8192) × ((nr : ℕ) → nr < 8192 → bit_at nr addr ≡ 1))
      ⊎ ((find_first_zero addr < 8192)
          × (bit_at (find_first_zero addr) addr ≡ 0)
          × ((nr : ℕ) → nr < find_first_zero addr → bit_at nr addr ≡ 1))
unfolding find_first_zero Scanned
find_first_zero_lem addr = elim (scan_words_lem 256 0 addr) [
  | inl (e, ones) ↦ inl (e, λ nr l. ones nr (omega arith) l)
  | inr (l, h, z, ones) ↦ inr (h, z, λ nr m. ones nr (omega arith) m)
]
