-- ===== src/Vsprintf/Decimal.antt =====
-- kernel/vsprintf.c: the digits that `number` writes, read back by `skip_atoi`.
use linux.Common.{
  ℕ, zero, suc, ◌+◌, ◌-◌, ◌*◌, ◌/◌, ◌%◌, ◌^◌, ◌≤◌, ◌<◌, max, true, false, some, List, [], ◌∷◌, ◌++◌,
  ◌==◌, ◌≡◌, refl, ap, ◌∙◌, length, replicate, arith, append-nil, append_assoc,
}
use linux.Common.Int.{ℤ, pos, negsuc, ◌-ℤ◌, pos_part, from_u32, to_u32, wrap32, wrap32-fits, ◌<ℤ◌}
use linux.Vsprintf.{
  is_digit, digits_from, skip_atoi, digits_of, tmp_of, pad, backwards, lay_out, number, sign_of,
  prefix, magnitude, digit,
}
use native.Mathlib.Nat.{pow-suc}
use linux.Common.{ℕ_discrete}
use linux.Vsprintf.Width.{at_least, no_pad, length-tmp_of}

-- A string that does not begin with a digit.
unfoldable pub NoDigit : List ℕ → Type 0
NoDigit [] = Unit
NoDigit (c ∷ s) = is_digit c ≡ false

-- Reading goes on with what has been read.
digits_from-digit :
    (i d : ℕ) (s : List ℕ)
    → d < 10
    → i * 10 + d < 2 ^ 32
    → digits_from i (digit false d ∷ s) ≡ digits_from (i * 10 + d) s
unfolding digits_from
digits_from-digit i d s h w =
    let e : (i * 10 + digit false d - 48) % 2 ^ 32 ≡ i * 10 + d = ground arith in
    let is_ : is_digit (digit false d) ≡ true = ground arith in rw (is_, e)

digits_from-stop : (i : ℕ) (s : List ℕ) → NoDigit s → digits_from i s ≡ (i, s)
unfolding digits_from NoDigit
digits_from-stop i [] h = refl
digits_from-stop i (c ∷ s) h = rw h

digits_from-zeros : (n : ℕ) (s : List ℕ) → digits_from 0 (replicate n 48 ++ s) ≡ digits_from 0 s
unfolding digits_from
digits_from-zeros zero s = refl
digits_from-zeros (suc n) s = digits_from-zeros n s

-- What `tmp` holds, written backwards, reads as the number.
digits_from-digits_of :
    (fuel num : ℕ) (s : List ℕ)
    → num < 2 ^ fuel
    → num < 2 ^ 32
    → digits_from 0 (backwards (digits_of fuel false 10 num) ++ s) ≡ digits_from num s
unfolding digits_of backwards
digits_from-digits_of zero num s h k = let e : num ≡ 0 = omega arith in rw e
digits_from-digits_of (suc fuel) num s h k =
    let d = digit false (num % 10) in
    let rest = backwards (digits_of fuel false 10 (num / 10)) in
    let less : num / 10 < 2 ^ fuel = omega (arith, pow-suc 2 fuel) in
    let value : num / 10 * 10 + num % 10 ≡ num = omega arith in
    elim (ℕ_discrete num 0) [
      | yes e ↦ rw e
      | no n ↦
          let is_zero : (num == 0) ≡ false = ground arith in
          rw is_zero (
            ap (digits_from 0) (append_assoc rest (d ∷ []) s)
            ∙ digits_from-digits_of fuel (num / 10) (d ∷ s) less (omega arith)
            ∙ digits_from-digit (num / 10) (num % 10) s (omega arith) (omega arith)
            ∙ ap (λ v. digits_from v s) value)
    ]

digits_from-tmp_of :
    (num : ℕ) (s : List ℕ)
    → num < 2 ^ 32
    → digits_from 0 (backwards (tmp_of false 10 num) ++ s) ≡ digits_from num s
unfolding tmp_of backwards
digits_from-tmp_of num s h = elim (ℕ_discrete num 0) [
  | yes e ↦ rw e (digits_from-zeros 1 s)
  | no n ↦
      let is_zero : (num == 0) ≡ false = ground arith in
      rw is_zero (digits_from-digits_of 32 num s h h)
]

less_than_none : (m : ℕ) → m < 2 ^ 31 → wrap32 (negsuc 0 -ℤ pos m) ≡ negsuc m
unfolding ◌-ℤ◌
less_than_none m h = ground (arith, wrap32-fits (negsuc m))

zeros_text : (i p : ℕ) → i ≤ p → (pad 48 (pos i) (pos p)).0 ≡ replicate (p - i) 48
unfolding pad ◌-ℤ◌
zeros_text i p h = ground arith

-- Without flags and without a width, the text is zeros and the number's digits.
plain_text :
    (num : ℕ) (precision : ℤ)
    → num < 2 ^ 31
    → pos_part precision < 2 ^ 31 - 3
    → (n : ℕ) × (number (pos num) 10 (negsuc 0) precision 0
        ≡ some (replicate n 48 ++ backwards (tmp_of false 10 num)))
unfolding number lay_out prefix sign_of magnitude to_u32
plain_text num precision h limit =
    let tmp = tmp_of false 10 num in
    let p = max (pos_part precision) (length tmp) in
    let digits = length-tmp_of false 10 num in
    let word : to_u32 (pos num) ≡ num = ground arith in
    (
      p - length tmp,
      rw
          (
            word,
            at_least precision (length tmp),
            less_than_none 0 (omega arith),
            less_than_none 0 (omega arith),
            less_than_none p (omega (arith, digits, limit)),
            no_pad 32 p (omega (arith, digits, limit)),
            no_pad 32 (suc p) (omega (arith, digits, limit)),
            no_pad 32 (suc (suc p)) (omega (arith, digits, limit)),
            zeros_text (length tmp) p (omega arith),
            append-nil,
          )
          refl,
    )

-- What `number` writes in base 10 for a number that is not negative, without flags and without a
-- field width but with any precision of an `int` but the three largest, `skip_atoi` reads back, up to
-- the text behind it.
pub skip_atoi-number :
    (num : ℕ) (precision : ℤ) (s : List ℕ)
    → num < 2 ^ 31
    → precision <ℤ pos (2 ^ 31 - 3)
    → NoDigit s
    → (text : List ℕ) × (number (pos num) 10 (negsuc 0) precision 0 ≡ some text)
      × (skip_atoi (text ++ s) ≡ (pos num, s))
unfolding skip_atoi from_u32
skip_atoi-number num precision s h limit stop =
    let t = plain_text num precision h (ground arith) in
    let zeros = replicate (t.0) 48 in
    let ds = backwards (tmp_of false 10 num) in
    let whole : digits_from 0 ((zeros ++ ds) ++ s) ≡ (num, s) =
      ap (digits_from 0) (append_assoc zeros ds s)
      ∙ digits_from-zeros (t.0) (ds ++ s)
      ∙ digits_from-tmp_of num s (omega arith)
      ∙ digits_from-stop num s stop in
    (zeros ++ ds, t.1, rw whole (ap (λ v. (v, s)) (ground arith)))
