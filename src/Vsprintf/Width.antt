-- ===== src/Vsprintf/Width.antt =====
-- kernel/vsprintf.c: how many bytes `number` writes.
use linux.Common.{
  ℕ, zero, suc, ap, ◌<◌, ◌^◌, ◌+◌, ◌-◌, ◌≤◌, ◌/◌, Option, none, max, Bool, true, false, not, some,
  List, [], ◌∷◌, ◌++◌, ltb, ◌≡◌, refl, length, length-append, ◌∙◌, length-replicate, if◌then◌else◌,
  arith, ◌||◌, bit_and,
}
use linux.Common.Int.{
  ℤ, pos, negsuc, ◌-ℤ◌, ltb_ℤ, pos_part, neg_part, wrap32, wrap32-fits, ◌<ℤ◌, ◌≤ℤ◌,
}
use linux.Common.Bits.{bit_not32}
use linux.Vsprintf.{
  pad, backwards, lay_out, number, digits_of, sign_of, sign_text, prefix, tmp_of, magnitude,
  zeropad, left, small, has,
}

length-backwards : (tmp : List ℕ) → length (backwards tmp) ≡ length tmp
unfolding backwards
length-backwards [] = refl
length-backwards (c ∷ tmp) =
    rw (length-append (backwards tmp) (c ∷ []), length-backwards tmp) (omega arith)

length-pad : (c b : ℕ) (size : ℤ) → length (pad c (pos b) size).0 ≡ pos_part size - b
unfolding pad ◌-ℤ◌
length-pad c b size = ground (arith, length-replicate (pos_part (size -ℤ pos b)) c)

below : (n m : ℕ) → negsuc n -ℤ pos m ≡ negsuc (n + m)
unfolding ◌-ℤ◌
below n m = ground arith

-- A field that is full already.
pub no_pad : (c n : ℕ) → suc n < 2 ^ 31 → pad c (pos 0) (negsuc n) ≡ ([], negsuc (suc n))
unfolding pad
no_pad c n h =
    let is_below : ltb_ℤ (pos 0) (negsuc n) ≡ false = ground arith in
    let e : n + 1 ≡ suc n = omega arith in
    rw (is_below, below n 1, e, wrap32-fits (negsuc (suc n)) (omega arith) (omega (arith, h))) refl

-- Once a field has been padded, nothing is left to pad, and at most one has been taken away.
padded :
    (c : ℕ) (size : ℤ)
    → neg_part size + 1 < 2 ^ 31
    → (pos_part (pad c (pos 0) size).1 ≡ 0) × (neg_part (pad c (pos 0) size).1 ≤ neg_part size + 1)
unfolding pad ◌-ℤ◌
padded c (pos zero) h =
    (ground (arith, wrap32-fits (negsuc 0)), ground (arith, wrap32-fits (negsuc 0)))
padded c (pos (suc n)) h = (ground arith, ground arith)
padded c (negsuc n) h =
    let e = no_pad c n (omega arith) in
    (ap (λ r. pos_part r.1) e, omega (arith, ap (λ r. neg_part r.1) e))

pos_part--ℤ : (size : ℤ) (n : ℕ) → pos_part (size -ℤ pos n) ≡ pos_part size - n
unfolding ◌-ℤ◌
pos_part--ℤ size n = ground arith

neg_part--ℤ : (size : ℤ) (n : ℕ) → neg_part (size -ℤ pos n) ≤ neg_part size + n
unfolding ◌-ℤ◌
neg_part--ℤ size n = ground arith

-- A difference that stays an `int`.
pub fits_less :
    (size : ℤ) (n : ℕ)
    → pos_part size < 2 ^ 31
    → neg_part size + n ≤ 2 ^ 31
    → wrap32 (size -ℤ pos n) ≡ size -ℤ pos n
fits_less size n h k =
    wrap32-fits (size -ℤ pos n) (omega (arith, pos_part--ℤ size n))
      (omega (arith, neg_part--ℤ size n))

pub at_least :
    (precision0 : ℤ) (i : ℕ)
    → (if ltb_ℤ precision0 (pos i) then pos i else precision0) ≡ pos (max (pos_part precision0) i)
at_least precision0 i = ground arith

-- The spaces in front, the fill and the spaces behind are as long as the room that is left.
room :
    (is_plain is_left : Bool) (c : ℕ) (size : ℤ)
    → neg_part size + 2 < 2 ^ 31
    → let blank = if is_plain then pad 32 (pos 0) size else ([], size) in
      let fill = if is_left then ([], blank.1) else pad c (pos 0) blank.1 in
      let after = pad 32 (pos 0) fill.1 in
      length blank.0 + length fill.0 + length after.0 ≡ pos_part size
room true true c size h = omega (
  arith,
  length-pad 32 0 size,
  padded 32 size (omega (arith, h)),
  length-pad 32 0 (pad 32 (pos 0) size).1,
)
room true false c size h =
    let once = padded 32 size (omega (arith, h)) in
    omega (
      arith,
      length-pad 32 0 size,
      once,
      length-pad c 0 (pad 32 (pos 0) size).1,
      padded c (pad 32 (pos 0) size).1 (omega (arith, h, once)),
      length-pad 32 0 (pad c (pos 0) (pad 32 (pos 0) size).1).1,
    )
room false true c size h = omega (arith, length-pad 32 0 size)
room false false c size h = omega (
  arith,
  length-pad c 0 size,
  padded c size (omega (arith, h)),
  length-pad 32 0 (pad c (pos 0) size).1,
)

length_of_parts :
    (a b c d e f g : List ℕ)
    → length (a ++ b ++ c ++ d ++ e ++ f ++ g)
      ≡ length a + length b + length c + length d + length e + length f + length g
length_of_parts a b c d e f g =
    rw (length-append, length-append, length-append, length-append, length-append, length-append)
      refl

length-lay_out :
    (is_plain is_left : Bool) (c : ℕ) (sign_ prefix_ : List ℕ) (size precision : ℤ) (tmp : List ℕ)
    → pos_part size < 2 ^ 31
    → neg_part size + max (pos_part precision) (length tmp) + 2 < 2 ^ 31
    → length (lay_out is_plain is_left c sign_ prefix_ size precision tmp)
      ≡ pos_part size
        - max (pos_part precision) (length tmp)
        + (length sign_ + length prefix_ + max (pos_part precision) (length tmp))
unfolding lay_out
length-lay_out is_plain is_left c sign_ prefix_ size precision tmp h k =
    let i = length tmp in
    let p = max (pos_part precision) i in
    let rest = size -ℤ pos p in
    let blank = if is_plain then pad 32 (pos 0) rest else ([], rest) in
    let fill = if is_left then ([], blank.1) else pad c (pos 0) blank.1 in
    let zeros = pad 48 (pos i) (pos p) in
    let after = pad 32 (pos 0) fill.1 in
    rw (at_least precision i, fits_less size p h (omega (arith, k)))
      (length_of_parts blank.0 sign_ prefix_ fill.0 zeros.0 (backwards tmp) after.0
        ∙ omega (
          arith,
          room is_plain is_left c rest (omega (arith, k, neg_part--ℤ size p)),
          pos_part--ℤ size p,
          length-pad 48 i (pos p),
          length-backwards tmp,
        ))

length-digits_of :
    (fuel : ℕ) (is_small : Bool) (base num : ℕ) → length (digits_of fuel is_small base num) ≤ fuel
unfolding digits_of
length-digits_of zero is_small base num = omega arith
length-digits_of (suc fuel) is_small base num =
    ground (arith, length-digits_of fuel is_small base (num / base))

pub length-tmp_of : (is_small : Bool) (base num : ℕ) → length (tmp_of is_small base num) ≤ 32
unfolding tmp_of
length-tmp_of is_small base num = ground (arith, length-digits_of 32 is_small base num)

length-sign_text : (o : Option ℕ) → length (sign_text o) ≤ 1
length-sign_text none = omega arith
length-sign_text (some c) = omega arith

length-prefix : (base type : ℕ) → length (prefix base type) ≤ 2
unfolding prefix
length-prefix base type = ground arith

-- The text for a width, where nothing wraps.
length-number_text :
    (is_plain is_left : Bool) (c : ℕ) (sign_ prefix_ : List ℕ) (precision : ℤ) (tmp : List ℕ)
    → length sign_ ≤ 1
    → length prefix_ ≤ 2
    → length tmp ≤ 32
    → precision <ℤ pos (2 ^ 31 - 8)
    → (size : ℤ) → neg_part size ≤ 1
    → pos_part size < 2 ^ 31
    → length (
        lay_out is_plain is_left c sign_ prefix_
          (wrap32 (wrap32 (size -ℤ pos (length sign_)) -ℤ pos (length prefix_)))
          precision
          tmp)
      ≡ pos_part size
        - length sign_
        - length prefix_
        - max (pos_part precision) (length tmp)
        + (length sign_ + length prefix_ + max (pos_part precision) (length tmp))
length-number_text is_plain is_left c sign_ prefix_ precision tmp one two digits small_ size low
      high =
    let s = length sign_ in
    let p = length prefix_ in
    let less = size -ℤ pos s in
    let least = less -ℤ pos p in
    let a = pos_part--ℤ size s in
    let b = neg_part--ℤ size s in
    let d = pos_part--ℤ less p in
    let e = neg_part--ℤ less p in
    let limit : pos_part precision < 2 ^ 31 - 8 = ground arith in
    let first : wrap32 less ≡ less = fits_less size s high (omega (arith, low, one)) in
    let second : wrap32 (wrap32 less -ℤ pos p) ≡ least =
      ap (λ x. wrap32 (x -ℤ pos p)) first
      ∙ fits_less less p (omega (arith, a, high)) (omega (arith, b, low, one, two)) in
    rw second (
      length-lay_out is_plain is_left c sign_ prefix_ least precision tmp
        (omega (arith, a, d, high)) (omega (arith, b, e, low, one, two, digits, limit))
      ∙ omega (arith, a, d))

-- `number` writes as many bytes as it writes without a field width, or the field width if that is
-- more, for every base that it takes and whatever the flags are, for a field width of an `int` that
-- is not below -1 and a precision that is not among the largest numbers of an `int`.
pub number-width :
    (num : ℤ) (base : ℕ) (size precision : ℤ) (type : ℕ)
    → 2 ≤ base
    → base ≤ 36
    → negsuc 0 ≤ℤ size
    → size <ℤ pos (2 ^ 31)
    → precision <ℤ pos (2 ^ 31 - 8)
    → (text : List ℕ) × (bare : List ℕ) × (number num base size precision type ≡ some text)
      × (number num base (negsuc 0) precision type ≡ some bare)
      × (length text ≡ max (pos_part size) (length bare))
unfolding number
number-width num base size precision type0 l h low high small_ =
    let type = if has type0 left then bit_and type0 (bit_not32 zeropad) else type0 in
    let sign_ = sign_text (sign_of num type) in
    let prefix_ = prefix base type in
    let tmp = tmp_of (has type small) base (magnitude num type) in
    let one = length-sign_text (sign_of num type) in
    let two = length-prefix base type in
    let digits = length-tmp_of (has type small) base (magnitude num type) in
    let in_range : (ltb base 2 || ltb 36 base) ≡ false = ground arith in
    let low_part : neg_part size ≤ 1 = ground arith in
    let high_part : pos_part size < 2 ^ 31 = ground arith in
    let wide =
      length-number_text (not (has type (zeropad + left))) (has type left)
        (if has type zeropad then 48 else 32) sign_ prefix_ precision tmp one two digits small_ in
    rw in_range (
      _,
      _,
      refl,
      refl,
      omega (arith, wide size low_part high_part, wide (negsuc 0) (omega arith) (omega arith)),
    )
