-- ===== src/Vsprintf.antt =====
-- kernel/vsprintf.c: formatted output.
pub mod Format
pub mod Loop
pub mod Decimal
pub mod Width
pub mod Words
pub mod Prints
mod Tests
use linux.Common.{
  ℕ, zero, suc, ◌+◌, ◌-◌, ◌*◌, ◌/◌, ◌%◌, ◌^◌, Bool, true, false, not, ◌&&◌, ◌||◌, Option, none,
  some, List, [], ◌∷◌, ◌++◌, ltb, leb, ◌==◌, ◌!=◌, if◌then◌else◌, get_or, length, replicate,
  bit_and,
}
use linux.Common.Bits.{bit_not32}
use linux.Common.Int.{ℤ, pos, negsuc, ◌-ℤ◌, ltb_ℤ, to_u32, from_u32, wrap32, pos_part}

-- Characters by their codes.
abbrev pub is_digit : ℕ → Bool
is_digit c = leb 48 c && leb c 57

-- The number at the head of a string and the string behind it; the sum is an `int` and wraps.
unfoldable pub digits_from : ℕ → List ℕ → ℕ × List ℕ
digits_from i [] = (i, [])
digits_from i (c ∷ s) =
    let rest = digits_from ((i * 10 + c - 48) % 2 ^ 32) s in if is_digit c then rest else (i, c ∷ s)

unfoldable pub skip_atoi : List ℕ → ℤ × List ℕ
skip_atoi s = let r = digits_from 0 s in (from_u32 r.0, r.1)

abbrev pub zeropad : ℕ
zeropad = 1

abbrev pub sign : ℕ
sign = 2

abbrev pub plus : ℕ
plus = 4

abbrev pub space : ℕ
space = 8

abbrev pub left : ℕ
left = 16

abbrev pub special : ℕ
special = 32

abbrev pub small : ℕ
small = 64

abbrev pub has : ℕ → ℕ → Bool
has flags flag = bit_and flags flag != 0

-- `digits[d]`, of "0123456789A..." or of "0123456789a...".
abbrev pub digit : Bool → ℕ → ℕ
digit is_small d = if ltb d 10 then 48 + d else if is_small then 87 + d else 55 + d

-- `while (num!=0) tmp[i++]=digits[do_div(num,base)];`, the lowest digit first.
unfoldable pub digits_of : ℕ → Bool → ℕ → ℕ → List ℕ
digits_of zero is_small base num = []
digits_of (suc fuel) is_small base num =
    let rest = digits_of fuel is_small base (num / base) in
    if num == 0 then [] else digit is_small (num % base) ∷ rest

unfoldable pub tmp_of : Bool → ℕ → ℕ → List ℕ
tmp_of is_small base num = if num == 0 then 48 ∷ [] else digits_of 32 is_small base num

-- `while(i-->0) *str++ = tmp[i];`
unfoldable pub backwards : List ℕ → List ℕ
backwards [] = []
backwards (c ∷ tmp) = backwards tmp ++ c ∷ []

-- `while (bound < size--) *str++ = c;`: what it writes, and `size` after it.
unfoldable pub pad : ℕ → ℤ → ℤ → List ℕ × ℤ
pad c bound size =
    if ltb_ℤ bound size
    then (replicate (pos_part (size -ℤ bound)) c, bound -ℤ pos 1)
    else ([], wrap32 (size -ℤ pos 1))

-- The sign's character, and the number that is left.
unfoldable pub sign_of : ℤ → ℕ → Option ℕ
sign_of num type =
    if has type sign && ltb_ℤ num (pos 0)
    then some 45
    else if has type plus
    then some 43
    else if has type space
    then some 32
    else none

-- `num` as the unsigned word that do_div divides.
unfoldable pub magnitude : ℤ → ℕ → ℕ
magnitude num type =
    if has type sign && ltb_ℤ num (pos 0) then to_u32 (pos 0 -ℤ num) else to_u32 num

abbrev pub sign_text : Option ℕ → List ℕ
sign_text none = []
sign_text (some c) = c ∷ []

unfoldable pub prefix : ℕ → ℕ → List ℕ
prefix base type =
    if has type special
    then (if base == 8
        then 48 ∷ []
        else if base == 16
        then 48 ∷ (digit (has type small) 33 ∷ [])
        else [])
    else []

-- The order in which `number` writes: `size` is what is left beside the sign and the prefix.
unfoldable pub lay_out : Bool → Bool → ℕ → List ℕ → List ℕ → ℤ → ℤ → List ℕ → List ℕ
lay_out is_plain is_left c sign_ prefix_ size0 precision0 tmp =
    let i = length tmp in
    let precision = if ltb_ℤ precision0 (pos i) then pos i else precision0 in
    let size = wrap32 (size0 -ℤ precision) in
    let blank = if is_plain then pad 32 (pos 0) size else ([], size) in
    let fill = if is_left then ([], blank.1) else pad c (pos 0) blank.1 in
    let zeros = pad 48 (pos i) precision in
    let after = pad 32 (pos 0) fill.1 in
    blank.0 ++ sign_ ++ prefix_ ++ fill.0 ++ zeros.0 ++ backwards tmp ++ after.0

-- What `number` writes at `str`; none is its return of 0.
unfoldable pub number : ℤ → ℕ → ℤ → ℤ → ℕ → Option (List ℕ)
number num base size precision type0 =
    let type = if has type0 left then bit_and type0 (bit_not32 zeropad) else type0 in
    let sign_ = sign_text (sign_of num type) in
    let prefix_ = prefix base type in
    if ltb base 2 || ltb 36 base
    then none
    else some (
        lay_out (not (has type (zeropad + left))) (has type left)
          (if has type zeropad then 48 else 32) sign_ prefix_
          (wrap32 (wrap32 (size -ℤ pos (length sign_)) -ℤ pos (length prefix_))) precision
          (tmp_of (has type small) base (magnitude num type)))
