-- ===== src/Sys/Rules.antt =====
-- How the calls on ids branch, and the ids that they compare.
use linux.Common.{
  ℕ, ◌%◌, ◌^◌, ◌<◌, Bool, true, false, ◌||◌, if◌then◌else◌, arith, ◌≡◌, refl, inl, inr, ◌⊎◌,
}
use linux.Common.Int.{ℤ, pos, negsuc, to_u32}
use linux.Sys.{is_id, short16}

module _ {ℓ} {A : Type ℓ} (P : A → Type 0) where
  pub guarded :
      (b ok : Bool) (x y z : A)
      → (ok ≡ true → P x)
      → P y
      → P z
      → P (if b then (if ok then x else y) else z)
  guarded true true x y z f q r = f refl
  guarded true false x y z f q r = q
  guarded false ok x y z f q r = r

  pub unprivileged :
      (s ok : Bool) (x y z : A)
      → s ≡ false
      → (ok ≡ true → P y)
      → P z
      → P (if s then x else if ok then y else z)
  unprivileged true ok x y z e f q = absurd (ground (arith, e))
  unprivileged false true x y z e f q = f refl
  unprivileged false false x y z e f q = q

pub either : (b c : Bool) → (b || c) ≡ true → (b ≡ true) ⊎ (c ≡ true)
either b c h = ground (arith, h)

pub one_of_three : (b c d : Bool) → (b || c || d) ≡ true → (b ≡ true) ⊎ ((c || d) ≡ true)
one_of_three b c d h = ground (arith, h)

-- An id that is compared with one of `f` is one of `f`.
pub same_id :
    (f : ℕ → Bool) (a : ℤ) (n : ℕ)
    → n < 2 ^ 16
    → f n ≡ true
    → is_id a n ≡ true
    → f (short16 a) ≡ true
unfolding short16 to_u32
same_id f (pos a) n h k e = let q : a % 2 ^ 32 % 2 ^ 16 ≡ n = ground (arith, e, h) in rw q k
same_id f (negsuc a) n h k e = absurd (ground (arith, e))

pub one_of_two :
    (f : ℕ → Bool) (a : ℤ) (m n : ℕ)
    → (is_id a m ≡ true → f (short16 a) ≡ true)
    → (is_id a n ≡ true → f (short16 a) ≡ true)
    → (is_id a m || is_id a n) ≡ true
    → f (short16 a) ≡ true
one_of_two f a m n rule rule' e = elim (either (is_id a m) (is_id a n) e) [
  | inl q ↦ rule q
  | inr q ↦ rule' q
]
