-- ===== src/Vsprintf/Format.antt =====
-- kernel/vsprintf.c: `vsprintf`, the format string and its arguments.
use linux.Common.{
  ℕ, zero, suc, Bool, true, false, not, ◌&&◌, ◌||◌, Option, none, some, List, [], ◌∷◌, ◌++◌, ◌==◌,
  ◌!=◌, if◌then◌else◌, length, take, replicate, bit_or, ◌>>=◌, ◌%◌, ◌^◌,
}
use linux.Common.Int.{ℤ, pos, negsuc, ◌-ℤ◌, ltb_ℤ, wrap32, from_u32, pos_part}
use linux.Vsprintf.{
  is_digit, skip_atoi, number, pad, has, zeropad, sign, plus, space, left, special, small,
}

-- What `va_arg` takes: a word, or a pointer to a string without its final 0.
pub data Argument : Type 0 where
  word : ℕ → Argument
  string : List ℕ → Argument

unfoldable pub take_word : List Argument → Option (ℕ × List Argument)
take_word [] = none
take_word (word w ∷ args) = some (w, args)
take_word (string s ∷ args) = none

unfoldable pub take_string : List Argument → Option (List ℕ × List Argument)
take_string [] = none
take_string (word w ∷ args) = none
take_string (string s ∷ args) = some (s, args)

-- `*fmt`, 0 at the end.
abbrev pub peek : List ℕ → ℕ
peek [] = 0
peek (c ∷ fmt) = c

-- `++fmt`.
abbrev pub next : List ℕ → List ℕ
next [] = []
next (c ∷ fmt) = fmt

unfoldable pub flag_of : ℕ → Option ℕ
flag_of c =
    if c == 45
    then some left
    else if c == 43
    then some plus
    else if c == 32
    then some space
    else if c == 35
    then some special
    else if c == 48
    then some zeropad
    else none

unfoldable pub process_flags : ℕ → List ℕ → ℕ × List ℕ
process_flags flags [] = (flags, [])
process_flags flags (c ∷ fmt) = elim (flag_of c) [
  | none ↦ (flags, c ∷ fmt)
  | some f ↦ process_flags (bit_or flags f) fmt
]

-- A conversion as far as it has been read: the flags, the width or the precision, the format and
-- the arguments that are left.
pub record Reading : Type 0 where
  pub flags : ℕ
  pub amount : ℤ
  pub fmt : List ℕ
  pub args : List Argument

-- The field width. At a `*` the format is not moved on.
unfoldable pub field_width : ℕ → List ℕ → List Argument → Option Reading
field_width flags fmt args =
    if is_digit (peek fmt)
    then (let r = skip_atoi fmt in
        some (record { flags = flags; amount = r.0; fmt = r.1; args = args }))
    else if peek fmt == 42
    then (do
      a ← take_word args
      let width = from_u32 a.0
      some (
          if ltb_ℤ width (pos 0)
          then record {
            flags = bit_or flags left;
            amount = wrap32 (pos 0 -ℤ width);
            fmt = fmt;
            args = a.1;
          }
          else record { flags = flags; amount = width; fmt = fmt; args = a.1 }))
    else some (record { flags = flags; amount = negsuc 0; fmt = fmt; args = args })

abbrev pub not_negative : ℤ → ℤ
not_negative p = if ltb_ℤ p (pos 0) then pos 0 else p

unfoldable pub precision : ℕ → List ℕ → List Argument → Option Reading
precision flags fmt args =
    if peek fmt == 46
    then (let fmt' = next fmt in
        if is_digit (peek fmt')
        then (let r = skip_atoi fmt' in
            some (record { flags = flags; amount = not_negative r.0; fmt = r.1; args = args }))
        else if peek fmt' == 42
        then (do
          a ← take_word args
          some (record {
            flags = flags;
            amount = not_negative (from_u32 a.0);
            fmt = fmt';
            args = a.1;
          }))
        else some (record { flags = flags; amount = pos 0; fmt = fmt'; args = args }))
    else some (record { flags = flags; amount = negsuc 0; fmt = fmt; args = args })

-- `h`, `l` or `L`, which changes nothing else.
unfoldable pub qualifier : List ℕ → List ℕ
qualifier fmt = let c = peek fmt in if c == 104 || c == 108 || c == 76 then next fmt else fmt

-- `while (--field_width > 0) *str++ = ' ';`
unfoldable pub pad_char : ℤ → List ℕ × ℤ
pad_char width =
    let w = wrap32 (width -ℤ pos 1) in
    if ltb_ℤ (pos 0) w then (replicate (pos_part w) 32, pos 0) else ([], w)

-- `%c` and `%s`.
unfoldable pub put_char : ℕ → ℤ → ℕ → List ℕ
put_char flags width c =
    let before = if has flags left then ([], width) else pad_char width in
    before.0 ++ (c % 2 ^ 8) ∷ (pad_char before.1).0

unfoldable pub put_string : ℕ → ℤ → ℤ → List ℕ → List ℕ
put_string flags width prec s =
    let len =
      if ltb_ℤ prec (pos 0)
      then length s
      else if ltb_ℤ prec (pos (length s))
      then pos_part prec
      else length s in
    let before = if has flags left then ([], width) else pad 32 (pos len) width in
    before.0 ++ take len s ++ (pad 32 (pos len) before.1).0

-- What a conversion does: the bytes it writes, the pointers `%n` stores through with the count
-- stored, and the arguments left.
pub record Written : Type 0 where
  pub text : List ℕ
  pub stored : List (ℕ × ℕ)
  pub args : List Argument

abbrev pub put_number : ℕ → ℕ → ℤ → ℤ → List Argument → Option Written
put_number base flags width prec args = do
  a ← take_word args
  text ← number (from_u32 a.0) base width prec flags
  some (record { text = text; stored = []; args = a.1 })

abbrev pub pointer_width : ℤ → Bool
pointer_width width = not (ltb_ℤ width (negsuc 0)) && ltb_ℤ width (pos 0)

-- The conversion by its letter. `count` is `str - buf`.
unfoldable pub convert : ℕ → ℕ → ℕ → ℤ → ℤ → List Argument → Option Written
convert count c flags width prec args =
    if c == 99
    then (do
      a ← take_word args
      some (record { text = put_char flags width a.0; stored = []; args = a.1 }))
    else if c == 115
    then (do
      a ← take_string args
      some (record { text = put_string flags width prec a.0; stored = []; args = a.1 }))
    else if c == 111
    then put_number 8 flags width prec args
    else if c == 112
    then (if pointer_width width
        then put_number 16 (bit_or flags zeropad) (pos 8) prec args
        else put_number 16 flags width prec args)
    else if c == 120
    then put_number 16 (bit_or flags small) width prec args
    else if c == 88
    then put_number 16 flags width prec args
    else if c == 100 || c == 105
    then put_number 10 (bit_or flags sign) width prec args
    else if c == 117
    then put_number 10 flags width prec args
    else if c == 110
    then (do
      a ← take_word args
      some (record { text = []; stored = (a.0, count) ∷ []; args = a.1 }))
    else some (record {
      text = (if c != 37 then 37 ∷ [] else []) ++ (if c != 0 then c ∷ [] else []);
      stored = [];
      args = args;
    })

-- From behind the `%` to the conversion's letter.
pub record Conversion : Type 0 where
  pub flags : ℕ
  pub width : ℤ
  pub prec : ℤ
  pub fmt : List ℕ
  pub args : List Argument

unfoldable pub conversion : List ℕ → List Argument → Option Conversion
conversion fmt args = do
  let f = process_flags 0 fmt
  w ← field_width f.0 f.1 args
  p ← precision w.flags w.fmt w.args
  some (record {
    flags = p.flags;
    width = w.amount;
    prec = p.amount;
    fmt = qualifier p.fmt;
    args = p.args;
  })

-- How a call ends. The text is what stands before the final 0, so its length is what vsprintf
-- returns; `bad_argument` is an argument that the caller did not pass.
pub data Printed : Type 0 where
  printed : List ℕ → List (ℕ × ℕ) → Printed
  bad_argument : Printed
  no_fuel : Printed

-- One conversion at the count reached.
unfoldable pub converted : ℕ → List ℕ → List Argument → Option (List ℕ × Written)
converted count fmt args = do
  v ← conversion fmt args
  w ← convert count (peek v.fmt) v.flags v.width v.prec v.args
  some (next v.fmt, w)

unfoldable pub format_loop : ℕ → List ℕ → List Argument → List ℕ → List (ℕ × ℕ) → Printed
format_loop zero fmt args text stored = no_fuel
format_loop (suc fuel) [] args text stored = printed text stored
format_loop (suc fuel) (c ∷ fmt) args text stored =
    let plain = format_loop fuel fmt args (text ++ c ∷ []) stored in
    elim (c == 37) [
      | false ↦ plain
      | true ↦ elim (converted (length text) fmt args) [
        | none ↦ bad_argument
        | some (rest, w) ↦ format_loop fuel rest w.args (text ++ w.text) (stored ++ w.stored)
      ]
    ]

unfoldable pub vsprintf : List ℕ → List Argument → Printed
vsprintf fmt args = format_loop (suc (length fmt)) fmt args [] []
