-- ===== src/Vsprintf/Tests.antt =====
-- `vsprintf` and `number` at concrete arguments.
use linux.Common.{◌≡◌, refl, List, [], ◌∷◌, ◌++◌, ℕ, some, length, max, arith}
use linux.Common.Int.{pos, negsuc, pos_part, ◌-ℤ◌, wrap32, from_u32, to_u32}
use linux.Vsprintf.{
  digits_from, skip_atoi, digits_of, tmp_of, backwards, pad, sign_of, magnitude, prefix, lay_out,
  number,
}
use linux.Vsprintf.Format.{
  Argument, word, string, take_word, take_string, flag_of, process_flags, field_width, precision,
  qualifier, put_char, put_string, convert, conversion, converted, printed, format_loop, vsprintf,
}
use linux.Vsprintf.Width.{number-width}
use linux.Vsprintf.Decimal.{NoDigit, skip_atoi-number}

-- "%5d|%-4s|%#x" of -42, "ab" and 255.
vsprintf_runs :
    vsprintf
      (37 ∷ 53 ∷ 100 ∷ 124 ∷ 37 ∷ 45 ∷ 52 ∷ 115 ∷ 124 ∷ 37 ∷ 35 ∷ 120 ∷ [])
      (word 4294967254 ∷ string (97 ∷ 98 ∷ []) ∷ word 255 ∷ [])
    ≡ printed
        (32 ∷ 32 ∷ 45 ∷ 52 ∷ 50 ∷ 124 ∷ 97 ∷ 98 ∷ 32 ∷ 32 ∷ 124 ∷ 48 ∷ 120 ∷ 102 ∷ 102 ∷ [])
        []
unfolding digits_from skip_atoi digits_of tmp_of backwards pad sign_of magnitude prefix lay_out
    number take_word take_string flag_of process_flags field_width precision qualifier put_char
    put_string convert conversion converted format_loop vsprintf ◌-ℤ◌ wrap32 from_u32 to_u32
vsprintf_runs = refl

number-width_example :
    (text : List ℕ) × (bare : List ℕ) × (number (negsuc 41) 16 (pos 12) (pos 3) 35 ≡ some text)
    × (number (negsuc 41) 16 (negsuc 0) (pos 3) 35 ≡ some bare)
    × (length text ≡ max (pos_part (pos 12)) (length bare))
number-width_example =
    number-width (negsuc 41) 16 (pos 12) (pos 3) 35 (omega arith) (omega arith) (omega arith)
      (omega arith) (omega arith)

behind-NoDigit : NoDigit (44 ∷ 55 ∷ [])
unfolding NoDigit
behind-NoDigit = refl

skip_atoi-number_example :
    (text : List ℕ) × (number (pos 1991) 10 (negsuc 0) (pos 6) 0 ≡ some text)
    × (skip_atoi (text ++ 44 ∷ 55 ∷ []) ≡ (pos 1991, 44 ∷ 55 ∷ []))
skip_atoi-number_example =
    skip_atoi-number 1991 (pos 6) (44 ∷ 55 ∷ []) (omega arith) (omega arith) behind-NoDigit

-- "n=" and "%5d|".
abbrev text_before : List ℕ
text_before = 110 ∷ 61 ∷ []

abbrev format_behind : List ℕ
format_behind = 37 ∷ 53 ∷ 100 ∷ 124 ∷ []

abbrev words : List Argument
words =
    word 7
    ∷ word 8
    ∷ word 0
    ∷ word 0
    ∷ word 0
    ∷ word 0
    ∷ word 0
    ∷ word 0
    ∷ word 0
    ∷ word 0
    ∷ word 0
    ∷ word 0
    ∷ []
