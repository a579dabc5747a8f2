-- ===== src/Vsprintf/Words.antt =====
-- kernel/vsprintf.c: the parts of a conversion, where its arguments are words.
use linux.Common.{
  ℕ, ◌+◌, ◌-◌, ◌*◌, ◌%◌, ◌^◌, ◌≤◌, Bool, true, false, ◌||◌, Option, some, List, [], ◌∷◌, ◌==◌,
  if◌then◌else◌, ◌≡◌, refl, ltb, length, arith, bit_or, Option-cases, Bool-cases, inl, inr,
}
use linux.Common.Int.{ℤ, pos, negsuc, from_u32, wrap32, ltb_ℤ, ◌-ℤ◌}
use linux.Vsprintf.{is_digit, digits_from, skip_atoi, number, zeropad, sign, small, left}
use linux.Vsprintf.Format.{
  Argument, word, string, take_word, peek, next, flag_of, process_flags, Reading, field_width,
  precision, qualifier, Written, put_number, put_char, not_negative, pointer_width, convert,
}

-- Every argument is a word.
unfoldable pub AllWords : List Argument → Type 0
AllWords [] = Unit {0}
AllWords (word w ∷ args) = AllWords args
AllWords (string s ∷ args) = ⊥

-- No letter `s`, so no conversion takes a string.
unfoldable pub NoString : List ℕ → Type 0
NoString [] = Unit {0}
NoString (c ∷ fmt) = ((c == 115) ≡ false) × NoString fmt

-- The arguments left are words, and `n` less at most.
unfoldable pub Left : ℕ → List Argument → List Argument → Type 0
Left n args rest = AllWords rest × (length args ≤ length rest + n)

pub next-NoString : (fmt : List ℕ) → NoString fmt → NoString (next fmt)
unfolding NoString
next-NoString [] v = v
next-NoString (c ∷ fmt) v = v.1

pub peek-NoString : (fmt : List ℕ) → NoString fmt → (peek fmt == 115) ≡ false
unfolding NoString
peek-NoString [] v = refl
peek-NoString (c ∷ fmt) v = v.0

digits_from-NoString : (i : ℕ) (s : List ℕ) → NoString s → NoString (digits_from i s).1
unfolding NoString digits_from
digits_from-NoString i [] v = v
digits_from-NoString i (c ∷ s) v = elim (Bool-cases (is_digit c)) [
  | inl e ↦ rw e (digits_from-NoString ((i * 10 + c - 48) % 2 ^ 32) s v.1)
  | inr e ↦ rw e v
]

skip_atoi-NoString : (s : List ℕ) → NoString s → NoString (skip_atoi s).1
unfolding skip_atoi
skip_atoi-NoString s v = digits_from-NoString 0 s v

pub process_flags-NoString :
    (flags : ℕ) (fmt : List ℕ) → NoString fmt → NoString (process_flags flags fmt).1
unfolding process_flags NoString
process_flags-NoString flags [] v = v
process_flags-NoString flags (c ∷ fmt) v = elim (Option-cases (flag_of c)) [
  | inl e ↦ rw (e, process_flags, NoString) v
  | inr (f, e) ↦
      rw (e, process_flags)
        (process_flags-NoString (bit_or flags f) fmt (next-NoString (c ∷ fmt) v))
]

pub qualifier-NoString : (fmt : List ℕ) → NoString fmt → NoString (qualifier fmt)
unfolding qualifier
qualifier-NoString fmt v =
    elim (Bool-cases (peek fmt == 104 || peek fmt == 108 || peek fmt == 76)) [
      | inl e ↦ rw e (next-NoString fmt v)
      | inr e ↦ rw e v
    ]

take_word-Left :
    (args : List Argument)
    → AllWords args
    → 1 ≤ length args
    → (w : ℕ) × (rest : List Argument) × (take_word args ≡ some (w, rest)) × Left 1 args rest
unfolding AllWords take_word Left
take_word-Left [] v h = absurd (omega arith)
take_word-Left (word w ∷ args) v h = (w, args, refl, (v, omega arith))
take_word-Left (string s ∷ args) v h = absurd v

none-Left : (args : List Argument) → AllWords args → Left 1 args args
unfolding Left
none-Left args v = (v, omega arith)

-- A step of the reading that has worked.
pub record IsRead (args : List Argument) (o : Option Reading) : Type 0 where
  pub reading : Reading
  pub is_read : o ≡ some reading
  pub words : Left 1 args reading.args
  pub clean : NoString reading.fmt

if-IsRead :
    {args : List Argument} (b : Bool) {x y : Option Reading}
    → IsRead args x
    → IsRead args y
    → IsRead args (if b then x else y)
if-IsRead true p q = p
if-IsRead false p q = q

read :
    {args : List Argument} (r : Reading)
    → Left 1 args r.args
    → NoString r.fmt
    → IsRead args (some r)
read r l s = record { reading = r; is_read = refl; words = l; clean = s }

if-read :
    {args : List Argument} (b : Bool) (x y : Reading)
    → IsRead args (some x)
    → IsRead args (some y)
    → IsRead args (some (if b then x else y))
if-read true x y p q = p
if-read false x y p q = q

pub field_width-IsRead :
    (flags : ℕ) (fmt : List ℕ) (args : List Argument)
    → AllWords args
    → 1 ≤ length args
    → NoString fmt
    → IsRead args (field_width flags fmt args)
unfolding field_width
field_width-IsRead flags fmt args v h s =
    let (w, rest, e, l) = take_word-Left args v h in
    let r = skip_atoi fmt in
    let width = from_u32 w in
    if-IsRead (is_digit (peek fmt))
      (read (record { flags = flags; amount = r.0; fmt = r.1; args = args }) (none-Left args v)
        (skip_atoi-NoString fmt s))
      (if-IsRead (peek fmt == 42)
        (rw e (
          if-read (ltb_ℤ width (pos 0)) _ _
            (read
              (record {
                flags = bit_or flags left;
                amount = wrap32 (pos 0 -ℤ width);
                fmt = fmt;
                args = rest;
              })
              l s)
            (read (record { flags = flags; amount = width; fmt = fmt; args = rest }) l s)))
        (read (record { flags = flags; amount = negsuc 0; fmt = fmt; args = args })
          (none-Left args v) s))

pub precision-IsRead :
    (flags : ℕ) (fmt : List ℕ) (args : List Argument)
    → AllWords args
    → 1 ≤ length args
    → NoString fmt
    → IsRead args (precision flags fmt args)
unfolding precision
precision-IsRead flags fmt args v h s =
    let (w, rest, e, l) = take_word-Left args v h in
    let fmt' = next fmt in
    let s' = next-NoString fmt s in
    let r = skip_atoi fmt' in
    if-IsRead (peek fmt == 46)
      (if-IsRead (is_digit (peek fmt'))
        (read (record { flags = flags; amount = not_negative r.0; fmt = r.1; args = args })
          (none-Left args v) (skip_atoi-NoString fmt' s'))
        (if-IsRead (peek fmt' == 42)
          (rw e (
            read
              (record {
                flags = flags;
                amount = not_negative (from_u32 w);
                fmt = fmt';
                args = rest;
              })
              l s'))
          (read (record { flags = flags; amount = pos 0; fmt = fmt'; args = args })
            (none-Left args v) s')))
      (read (record { flags = flags; amount = negsuc 0; fmt = fmt; args = args }) (none-Left args v)
        s)

-- A conversion that has worked.
pub record IsWritten (args : List Argument) (o : Option Written) : Type 0 where
  pub written : Written
  pub is_written : o ≡ some written
  pub words : Left 1 args written.args

if-IsWritten :
    {args : List Argument} (b : Bool) {x y : Option Written}
    → IsWritten args x
    → IsWritten args y
    → IsWritten args (if b then x else y)
if-IsWritten true p q = p
if-IsWritten false p q = q

else-IsWritten :
    {args : List Argument} (b : Bool) (x : Option Written) {y : Option Written}
    → b ≡ false
    → IsWritten args y
    → IsWritten args (if b then x else y)
else-IsWritten true x h q = absurd (ground (arith, h))
else-IsWritten false x h q = q

written : {args : List Argument} (w : Written) → Left 1 args w.args → IsWritten args (some w)
written w l = record { written = w; is_written = refl; words = l }

number-some :
    (num : ℤ) (base : ℕ) (size prec : ℤ) (type : ℕ)
    → (ltb base 2 || ltb 36 base) ≡ false
    → (text : List ℕ) × (number num base size prec type ≡ some text)
unfolding number
number-some num base size prec type h = rw h (_, refl)

put_number-IsWritten :
    (base flags : ℕ) (width prec : ℤ) (args : List Argument)
    → (ltb base 2 || ltb 36 base) ≡ false
    → AllWords args
    → 1 ≤ length args
    → IsWritten args (put_number base flags width prec args)
put_number-IsWritten base flags width prec args b v h =
    let (w, rest, e, l) = take_word-Left args v h in
    let (text, f) = number-some (from_u32 w) base width prec flags b in
    rw (e, f) (written (record { text = text; stored = []; args = rest }) l)

pub convert-IsWritten :
    (count c flags : ℕ) (width prec : ℤ) (args : List Argument)
    → (c == 115) ≡ false
    → AllWords args
    → 1 ≤ length args
    → IsWritten args (convert count c flags width prec args)
unfolding convert
convert-IsWritten count c flags width prec args not_s v h =
    let (w, rest, e, l) = take_word-Left args v h in
    if-IsWritten (c == 99)
      (rw e (written (record { text = put_char flags width w; stored = []; args = rest }) l))
      (else-IsWritten (c == 115) _ not_s (
        if-IsWritten (c == 111) (put_number-IsWritten 8 flags width prec args refl v h) (
          if-IsWritten (c == 112)
            (if-IsWritten (pointer_width width)
              (put_number-IsWritten 16 (bit_or flags zeropad) (pos 8) prec args refl v h)
              (put_number-IsWritten 16 flags width prec args refl v h))
            (if-IsWritten (c == 120)
              (put_number-IsWritten 16 (bit_or flags small) width prec args refl v h)
              (if-IsWritten (c == 88) (put_number-IsWritten 16 flags width prec args refl v h) (
                if-IsWritten (c == 100 || c == 105)
                  (put_number-IsWritten 10 (bit_or flags sign) width prec args refl v h)
                  (if-IsWritten (c == 117) (put_number-IsWritten 10 flags width prec args refl v h)
                    (if-IsWritten (c == 110)
                      (rw e
                        (written (record { text = []; stored = (w, count) ∷ []; args = rest }) l))
                      (written _ (none-Left args v))))))))))
