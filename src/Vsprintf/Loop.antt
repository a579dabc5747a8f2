-- ===== src/Vsprintf/Loop.antt =====
-- kernel/vsprintf.c: the loop over the format string.
use mathlib.Core.Path.{subst}
use linux.Common.{
  ℕ, suc, ◌+◌, ◌-◌, ◌*◌, ◌%◌, ◌^◌, ◌≤◌, true, false, Option, none, some, List, [], ◌∷◌, ◌++◌, ◌==◌,
  ◌≡◌, refl, length, arith, bit_or, Option-cases, inl, inr,
}
use linux.Vsprintf.{digits_from, skip_atoi}
use linux.Vsprintf.Format.{
  Argument, word, take_word, peek, next, flag_of, process_flags, Reading, field_width, precision,
  qualifier, Written, convert, Conversion, conversion, converted, format_loop, vsprintf,
}

digits_from-shrinks : (i : ℕ) (s : List ℕ) → length (digits_from i s).1 ≤ length s
unfolding digits_from
digits_from-shrinks i [] = omega arith
digits_from-shrinks i (c ∷ s) = ground (arith, digits_from-shrinks ((i * 10 + c - 48) % 2 ^ 32) s)

process_flags-shrinks : (flags : ℕ) (fmt : List ℕ) → length (process_flags flags fmt).1 ≤ length fmt
unfolding process_flags
process_flags-shrinks flags [] = omega arith
process_flags-shrinks flags (c ∷ fmt) = elim (Option-cases (flag_of c)) [
  | inl e ↦ rw (e, length) (omega arith)
  | inr (f, e) ↦ rw (e, length) (omega (arith, process_flags-shrinks (bit_or flags f) fmt))
]

-- A step of the reading leaves no more of the format than it found.
Shrinks : List ℕ → Option Reading → Type 0
Shrinks fmt none = Unit
Shrinks fmt (some r) = length r.fmt ≤ length fmt

field_width-Shrinks :
    (flags : ℕ) (fmt : List ℕ) (args : List Argument) → Shrinks fmt (field_width flags fmt args)
unfolding Shrinks field_width skip_atoi
field_width-Shrinks flags fmt args = ground (arith, digits_from-shrinks 0 fmt)

next-shrinks : (fmt : List ℕ) → length (next fmt) ≤ length fmt
next-shrinks [] = omega arith
next-shrinks (c ∷ fmt) = omega arith

precision-Shrinks :
    (flags : ℕ) (fmt : List ℕ) (args : List Argument) → Shrinks fmt (precision flags fmt args)
unfolding Shrinks precision skip_atoi
precision-Shrinks flags fmt args =
    ground (arith, next-shrinks fmt, digits_from-shrinks 0 (next fmt))

qualifier-shrinks : (fmt : List ℕ) → length (qualifier fmt) ≤ length fmt
unfolding qualifier
qualifier-shrinks fmt = ground (arith, next-shrinks fmt)

-- What is left of the format behind a conversion.
FmtShrinks : List ℕ → Option Conversion → Type 0
FmtShrinks fmt none = Unit
FmtShrinks fmt (some v) = length v.fmt ≤ length fmt

conversion-FmtShrinks : (fmt : List ℕ) (args : List Argument) → FmtShrinks fmt (conversion fmt args)
unfolding FmtShrinks conversion Shrinks
conversion-FmtShrinks fmt args =
    let f = process_flags 0 fmt in
    elim (Option-cases (field_width f.0 f.1 args)) [
      | inl e ↦ rw e tt
      | inr (a, e) ↦
          let first : length a.fmt ≤ length f.1 =
            subst (Shrinks f.1) e (field_width-Shrinks f.0 f.1 args) in
          rw e (elim (Option-cases (precision a.flags a.fmt a.args)) [
            | inl e' ↦ rw e' tt
            | inr (b, e') ↦
                let second : length b.fmt ≤ length a.fmt =
                  subst (Shrinks a.fmt) e' (precision-Shrinks a.flags a.fmt a.args) in
                rw e' (
                  omega
                    (arith, first, second, process_flags-shrinks 0 fmt, qualifier-shrinks b.fmt))
          ])
    ]

unfoldable pub RestShrinks : List ℕ → Option (List ℕ × Written) → Type 0
RestShrinks fmt none = Unit
RestShrinks fmt (some (rest, w)) = length rest ≤ length fmt

pub converted-RestShrinks :
    (count : ℕ) (fmt : List ℕ) (args : List Argument) → RestShrinks fmt (converted count fmt args)
unfolding RestShrinks converted FmtShrinks
converted-RestShrinks count fmt args = elim (Option-cases (conversion fmt args)) [
  | inl e ↦ rw e tt
  | inr (v, e) ↦
      let whole : length v.fmt ≤ length fmt =
        subst (FmtShrinks fmt) e (conversion-FmtShrinks fmt args) in
      rw e (elim (Option-cases (convert count (peek v.fmt) v.flags v.width v.prec v.args)) [
        | inl e' ↦ rw e' tt
        | inr (w, e') ↦ rw e' (omega (arith, whole, next-shrinks v.fmt))
      ])
]

-- How the loop goes on, one character at a time.
pub format_loop-plain :
    (fuel c : ℕ) (fmt : List ℕ) (args : List Argument) (text : List ℕ) (stored : List (ℕ × ℕ))
    → (c == 37) ≡ false
    → format_loop (suc fuel) (c ∷ fmt) args text stored
      ≡ format_loop fuel fmt args (text ++ c ∷ []) stored
unfolding format_loop
format_loop-plain fuel c fmt args text stored h = rw (h, format_loop) refl

module _ (fuel c : ℕ) (fmt : List ℕ) (args : List Argument) (text : List ℕ)
    (stored : List (ℕ × ℕ)) where
  pub format_loop-converted :
      (rest : List ℕ) (w : Written)
      → (c == 37) ≡ true
      → converted (length text) fmt args ≡ some (rest, w)
      → format_loop (suc fuel) (c ∷ fmt) args text stored
        ≡ format_loop fuel rest w.args (text ++ w.text) (stored ++ w.stored)
  unfolding format_loop
  format_loop-converted rest w h e = ground arith

-- A `*` as the field width takes its argument, but is not passed over: the text gets the two
-- characters `%*`, the width is lost, and the rest of the conversion is copied as text.
pub vsprintf-star :
    (w : ℕ) (rest : List ℕ) (args : List Argument)
    → vsprintf (37 ∷ 42 ∷ rest) (word w ∷ args)
      ≡ format_loop (suc (suc (length rest))) rest args (37 ∷ 42 ∷ []) []
unfolding vsprintf format_loop converted conversion process_flags flag_of field_width take_word
    precision qualifier convert
vsprintf-star w rest args = ground arith
