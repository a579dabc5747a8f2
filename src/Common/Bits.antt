-- ===== src/Common/Bits.antt =====
-- Machine words bit by bit: `&`, `|` and `~` at variables, through the bit at each position.
use Prim.Native.Nat.{digits, bit_and-bitwise, bit_or-bitwise}
use native.Mathlib.Nat.{pow-suc}
use linux.Common.{
  ◌∙◌, dec_lt, ℕ, zero, suc, ◌+◌, ◌-◌, ◌*◌, ◌/◌, ◌%◌, ◌^◌, ◌≤◌, ◌<◌, min, max, bit_and, bit_or, ◌≡◌,
  refl, ◌≢◌, ap, arith,
}

pub double_pow : (k : ℕ) → 2 ^ suc k ≡ 2 * 2 ^ k
double_pow k = omega (arith, pow-suc 2 k)

-- Bit `i` of `x`, 0 or 1.
unfoldable pub bit : ℕ → ℕ → ℕ
bit zero x = x % 2
bit (suc i) x = bit i (x / 2)

-- `~x` of a 32-bit word.
abbrev pub bit_not32 : ℕ → ℕ
bit_not32 x = 2 ^ 32 - 1 - x

-- `&` and `|` both work through `digits`, digit by digit, on a count of rounds. Rounds beyond the
-- first number's own size change nothing.
module _ (last : ℕ → ℕ) (op : ℕ → ℕ → ℕ) where
  one_more : (n x y : ℕ) → x ≤ n → digits last op (suc n) x y ≡ digits last op n x y
  one_more zero zero y h = refl
  one_more zero (suc x) y h = absurd (omega arith)
  one_more (suc n) zero y h = refl
  one_more (suc n) (suc x) y h =
      ap (λ r. r * 2 + op (suc x % 2) (y % 2)) (one_more n (suc x / 2) (y / 2) (omega arith))

  rounds : (n m x y : ℕ) → x ≤ m → m ≤ n → digits last op n x y ≡ digits last op m x y
  rounds zero m x y h k = let e : m ≡ zero = omega arith in rw e
  rounds (suc n) m x y h k = elim (dec_lt n m) [
    | yes l ↦ let e : m ≡ suc n = omega arith in rw e
    | no l ↦ one_more n x y (omega arith) ∙ rounds n m x y h (omega arith)
  ]

  -- The lowest digit, and the rest.
  lowest :
      (x y : ℕ)
      → digits last op (suc x) (suc x) y
        ≡ digits last op (suc x / 2) (suc x / 2) (y / 2) * 2 + op (suc x % 2) (y % 2)
  lowest x y =
      ap (λ r. r * 2 + op (suc x % 2) (y % 2))
        (rounds x (suc x / 2) (suc x / 2) (y / 2) (omega arith) (omega arith))

pub bit_or-no_bits : (y : ℕ) → bit_or 0 y ≡ y
bit_or-no_bits y = bit_or-bitwise 0 y

pub bit_or-halves : (x y : ℕ) → bit_or x y ≡ max (x % 2) (y % 2) + 2 * bit_or (x / 2) (y / 2)
bit_or-halves zero y = rw (bit_or-no_bits, bit_or-no_bits) (omega arith)
bit_or-halves (suc x) y =
    bit_or-bitwise (suc x) y
    ∙ lowest (λ y. y) max x y
    ∙ omega (arith, bit_or-bitwise (suc x / 2) (y / 2))

pub bit_and-no_bits : (y : ℕ) → bit_and 0 y ≡ 0
bit_and-no_bits y = bit_and-bitwise 0 y

pub bit_and-halves : (x y : ℕ) → bit_and x y ≡ min (x % 2) (y % 2) + 2 * bit_and (x / 2) (y / 2)
bit_and-halves zero y = rw (bit_and-no_bits, bit_and-no_bits) (omega arith)
bit_and-halves (suc x) y =
    bit_and-bitwise (suc x) y
    ∙ lowest (λ y. zero) min x y
    ∙ omega (arith, bit_and-bitwise (suc x / 2) (y / 2))

pub bit-le-one : (i x : ℕ) → bit i x ≤ 1
unfolding bit
bit-le-one zero x = omega arith
bit-le-one (suc i) x = bit-le-one i (x / 2)

pub bit-bit_and : (i a b : ℕ) → bit i (bit_and a b) ≡ min (bit i a) (bit i b)
unfolding bit
bit-bit_and zero a b = omega (arith, bit_and-halves a b)
bit-bit_and (suc i) a b =
    let half : bit_and a b / 2 ≡ bit_and (a / 2) (b / 2) = omega (arith, bit_and-halves a b) in
    rw half (bit-bit_and i (a / 2) (b / 2))

pub bit-bit_or : (i a b : ℕ) → bit i (bit_or a b) ≡ max (bit i a) (bit i b)
unfolding bit
bit-bit_or zero a b = omega (arith, bit_or-halves a b)
bit-bit_or (suc i) a b =
    let half : bit_or a b / 2 ≡ bit_or (a / 2) (b / 2) = omega (arith, bit_or-halves a b) in
    rw half (bit-bit_or i (a / 2) (b / 2))

-- `2 ^ w - 1 - x` flips the low `w` bits.
pub bit_not : (w i x : ℕ) → x < 2 ^ w → i < w → bit i (2 ^ w - 1 - x) ≡ 1 - bit i x
unfolding bit
bit_not zero i x h k = absurd (omega arith)
bit_not (suc w) zero x h k = omega (arith, double_pow w)
bit_not (suc w) (suc i) x h k =
    let half : (2 ^ suc w - 1 - x) / 2 ≡ 2 ^ w - 1 - x / 2 = omega (arith, double_pow w) in
    rw half (bit_not w i (x / 2) (omega (arith, double_pow w)) (omega arith))

pub bit-zero : (i : ℕ) → bit i 0 ≡ 0
unfolding bit
bit-zero zero = refl
bit-zero (suc i) = bit-zero i

-- `1 << k` has bit `k` and no other.
pub bit_pow_self : (k : ℕ) → bit k (2 ^ k) ≡ 1
unfolding bit
bit_pow_self zero = refl
bit_pow_self (suc k) =
    let half : 2 ^ suc k / 2 ≡ 2 ^ k = omega (arith, double_pow k) in rw half (bit_pow_self k)

pub bit_pow_ne : (i k : ℕ) → i ≢ k → bit i (2 ^ k) ≡ 0
unfolding bit
bit_pow_ne zero zero h = absurd (h refl)
bit_pow_ne zero (suc k) h = omega (arith, double_pow k)
bit_pow_ne (suc i) zero h = bit-zero i
bit_pow_ne (suc i) (suc k) h =
    let half : 2 ^ suc k / 2 ≡ 2 ^ k = omega (arith, double_pow k) in
    rw half (bit_pow_ne i k (λ e. h (ap suc e)))

-- Words with the same bits are the same.
pub eq_of_bits : (w a b : ℕ) → a < 2 ^ w → b < 2 ^ w → ((i : ℕ) → i < w → bit i a ≡ bit i b) → a ≡ b
unfolding bit
eq_of_bits zero a b h k e = omega arith
eq_of_bits (suc w) a b h k e = omega (
  arith,
  e 0 (omega arith),
  eq_of_bits w (a / 2) (b / 2) (omega (arith, double_pow w)) (omega (arith, double_pow w))
      (λ i l. e (suc i) (omega arith)),
)

bit_and-le_fuel : (n a b : ℕ) → a ≤ n → (bit_and a b ≤ a) × (bit_and a b ≤ b)
bit_and-le_fuel n zero b h = omega (arith, bit_and-no_bits b)
bit_and-le_fuel zero (suc a) b h = absurd (omega arith)
bit_and-le_fuel (suc n) (suc a) b h =
    omega (arith, bit_and-halves (suc a) b, bit_and-le_fuel n (suc a / 2) (b / 2) (omega arith))

pub bit_and-le : (a b : ℕ) → (bit_and a b ≤ a) × (bit_and a b ≤ b)
bit_and-le a b = bit_and-le_fuel a a b (omega arith)

pub bit_or-lt : (w a b : ℕ) → a < 2 ^ w → b < 2 ^ w → bit_or a b < 2 ^ w
bit_or-lt zero a b h k = let a0 : a ≡ 0 = omega arith in rw a0 (omega (arith, bit_or-no_bits b))
bit_or-lt (suc w) a b h k = omega (
  arith,
  double_pow w,
  bit_or-halves a b,
  bit_or-lt w (a / 2) (b / 2) (omega (arith, double_pow w)) (omega (arith, double_pow w)),
)
