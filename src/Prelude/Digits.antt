-- ===== src/Prelude/Digits.antt =====
-- Binary digits of a number, and what `|`, `&` and `& ~` do to each of them.
use Prim.Native.Nat.{
  ℕ, zero, suc, ◌+◌, ◌-◌, ◌*◌, ◌/◌, ◌%◌, ◌^◌, ◌≤◌, ◌<◌, min, max, digits, differ, bitwise, bit_and,
  bit_or, bit_xor, bit_xor-bitwise, bit_and-bitwise, bit_or-bitwise,
}
use mathlib.Core.Path.{◌≡◌, refl, sym, ◌∙◌, ap}
use native.Mathlib.Nat.{le_refl, pow-suc, one-le-pow}
use native.Mathlib.Omega.{arith}
use test_resend.Prelude.Tests.{◌==◌, ltb, if◌then◌else◌}

-- The native operations are `digits` with its first operand as fuel; fuel beyond that is not used.
spare_fuel :
    (low : ℕ → ℕ) (join : ℕ → ℕ → ℕ) (fuel spare x y : ℕ)
    → x ≤ fuel
    → digits low join (spare + fuel) x y ≡ digits low join fuel x y
spare_fuel low join fuel spare zero y h = nothing (spare + fuel) ∙ sym (nothing fuel)
  where
    nothing : (n : ℕ) → digits low join n zero y ≡ low y
    nothing zero = refl
    nothing (suc n) = refl
spare_fuel low join zero spare (suc x) y h = absurd (omega arith)
spare_fuel low join (suc fuel) spare (suc x) y h =
    let up : spare + suc fuel ≡ suc (spare + fuel) = omega arith in
    ap (λ n. digits low join n (suc x) y) up
    ∙ rw (spare_fuel low join fuel spare (suc x / 2) (y / 2) (omega arith))

-- One digit of the result from one digit of each operand.
unroll :
    (low : ℕ → ℕ) (join : ℕ → ℕ → ℕ) (x y : ℕ)
    → bitwise low join (suc x) y
      ≡ bitwise low join (suc x / 2) (y / 2) * 2 + join (suc x % 2) (y % 2)
unroll low join x y =
    let half : ℕ = suc x / 2 in
    let rest : digits low join x half (y / 2) ≡ digits low join half half (y / 2) =
      ap (λ n. digits low join n half (y / 2)) (omega arith)
      ∙ spare_fuel low join half (x - half) half (y / 2) (omega arith) in
    omega (arith, rest)

bit_or_step : (x y : ℕ) → bit_or x y ≡ max (x % 2) (y % 2) + 2 * bit_or (x / 2) (y / 2)
bit_or_step zero y = omega (arith, bit_or-bitwise 0 y, bit_or-bitwise 0 (y / 2))
bit_or_step (suc x) y =
    omega
      (arith, unroll (λ b. b) max x y, bit_or-bitwise (suc x) y, bit_or-bitwise (suc x / 2) (y / 2))

bit_and_step : (x y : ℕ) → bit_and x y ≡ min (x % 2) (y % 2) + 2 * bit_and (x / 2) (y / 2)
bit_and_step zero y = omega (arith, bit_and-bitwise 0 y, bit_and-bitwise 0 (y / 2))
bit_and_step (suc x) y =
    omega (
      arith,
      unroll (λ b. 0) min x y,
      bit_and-bitwise (suc x) y,
      bit_and-bitwise (suc x / 2) (y / 2),
    )

-- The digit of weight 2 ^ k.
abbrev pub bit : ℕ → ℕ → ℕ
bit v zero = v % 2
bit v (suc k) = bit (v / 2) k

pub bit-le-one : (v k : ℕ) → bit v k ≤ 1
bit-le-one v zero = omega arith
bit-le-one v (suc k) = bit-le-one (v / 2) k

pub bit-zero : (k : ℕ) → bit 0 k ≡ 0
bit-zero zero = refl
bit-zero (suc k) = bit-zero k

pub bit-bit_or : (k a b : ℕ) → bit (bit_or a b) k ≡ max (bit a k) (bit b k)
bit-bit_or zero a b = omega (arith, bit_or_step a b)
bit-bit_or (suc k) a b = ap (λ t. bit t k) half ∙ bit-bit_or k (a / 2) (b / 2)
  where
    half : bit_or a b / 2 ≡ bit_or (a / 2) (b / 2)
    half = omega (arith, bit_or_step a b)

bit_and-zero_left : (b : ℕ) → bit_and 0 b ≡ 0
bit_and-zero_left b = bit_and-bitwise 0 b

bit_and-le_fuel : (n a b : ℕ) → a ≤ n → bit_and a b ≤ a
bit_and-le_fuel n zero b h = omega (arith, bit_and-zero_left b)
bit_and-le_fuel zero (suc a) b h = absurd (omega arith)
bit_and-le_fuel (suc n) (suc a) b h =
    omega (arith, bit_and_step (suc a) b, bit_and-le_fuel n (suc a / 2) (b / 2) (omega arith))

pub bit_and-le : (a b : ℕ) → bit_and a b ≤ a
bit_and-le a b = bit_and-le_fuel a a b (le_refl a)

-- `a & ~b`
unfoldable pub bit_clear : ℕ → ℕ → ℕ
bit_clear a b = a - bit_and a b

pub bit-bit_clear : (k a b : ℕ) → bit (bit_clear a b) k ≡ bit a k - bit b k
unfolding bit_clear
bit-bit_clear zero a b = omega (arith, bit_and_step a b, bit_and-le (a / 2) (b / 2))
bit-bit_clear (suc k) a b = ap (λ t. bit t k) half ∙ bit-bit_clear k (a / 2) (b / 2)
  where
    half : (a - bit_and a b) / 2 ≡ a / 2 - bit_and (a / 2) (b / 2)
    half = omega (arith, bit_and_step a b, bit_and-le (a / 2) (b / 2))

pub bit-pow : (k j : ℕ) → bit (2 ^ k) j ≡ (if k == j then 1 else 0)
bit-pow zero zero = refl
bit-pow zero (suc j) = ground (arith, bit-zero j)
bit-pow (suc k) zero = ground (arith, pow-suc 2 k)
bit-pow (suc k) (suc j) = ap (λ t. bit t j) half ∙ ground (arith, bit-pow k j)
  where
    half : 2 ^ suc k / 2 ≡ 2 ^ k
    half = omega (arith, pow-suc 2 k)

-- `v & (1 << k)` is the digit at its weight.
pub bit_and-pow : (k v : ℕ) → bit_and v (2 ^ k) ≡ bit v k * 2 ^ k
bit_and-pow zero v = omega (arith, bit_and_step v 1, bit_and-right_zero (v / 2))
  where
    bit_and-right_zero : (a : ℕ) → bit_and a 0 ≡ 0
    bit_and-right_zero a = go a a (le_refl a)
      where
        go : (n a : ℕ) → a ≤ n → bit_and a 0 ≡ 0
        go n zero h = bit_and-zero_left 0
        go zero (suc a) h = absurd (omega arith)
        go (suc n) (suc a) h = omega (arith, bit_and_step (suc a) 0, go n (suc a / 2) (omega arith))
bit_and-pow (suc k) v = omega (
  arith,
  bit_and_step v (2 ^ suc k),
  pow-suc 2 k,
  ap (λ t. bit_and (v / 2) t) half,
  bit_and-pow k (v / 2),
  ap (λ t. bit (v / 2) k * t) (pow-suc 2 k),
)
  where
    half : 2 ^ suc k / 2 ≡ 2 ^ k
    half = omega (arith, pow-suc 2 k)

pub bit-bit_and : (k a b : ℕ) → bit (bit_and a b) k ≡ min (bit a k) (bit b k)
bit-bit_and zero a b = omega (arith, bit_and_step a b)
bit-bit_and (suc k) a b = ap (λ t. bit t k) half ∙ bit-bit_and k (a / 2) (b / 2)
  where
    half : bit_and a b / 2 ≡ bit_and (a / 2) (b / 2)
    half = omega (arith, bit_and_step a b)

-- `~v` on a word of `w` bits
pub bit_complement : (w v k : ℕ) → v < 2 ^ w → k < w → bit (2 ^ w - 1 - v) k ≡ 1 - bit v k
bit_complement zero v k h l = absurd (omega arith)
bit_complement (suc w) v zero h l = omega (arith, pow-suc 2 w, h)
bit_complement (suc w) v (suc k) h l =
    ap (λ t. bit t k) half ∙ bit_complement w (v / 2) k (omega (arith, pow-suc 2 w)) (omega arith)
  where
    half : (2 ^ suc w - 1 - v) / 2 ≡ 2 ^ w - 1 - v / 2
    half = omega (arith, pow-suc 2 w, h)

-- A number below 2 ^ w with no digit 1 among the first `w` is 0.
pub digits_zero : (w v : ℕ) → v < 2 ^ w → ((k : ℕ) → k < w → bit v k ≡ 0) → v ≡ 0
digits_zero zero v h z = omega arith
digits_zero (suc w) v h z = omega (
  arith,
  z 0 (omega arith),
  digits_zero w (v / 2) (omega (arith, pow-suc 2 w)) (λ k l. z (suc k) (omega arith)),
)

-- The number below 2 ^ w whose first `b` digits are 0 and whose other digits are 1, and the one
-- whose first `b` digits are 1.
pub bit-ones : (b k : ℕ) → bit (2 ^ b - 1) k ≡ (if ltb k b then 1 else 0)
bit-ones zero k = bit-zero k ∙ ground arith
bit-ones (suc b) zero = ground (arith, pow-suc 2 b, one-le-pow b 2)
bit-ones (suc b) (suc k) = ap (λ t. bit t k) half ∙ bit-ones b k ∙ ground arith
  where
    half : (2 ^ suc b - 1) / 2 ≡ 2 ^ b - 1
    half = omega (arith, pow-suc 2 b)

pub bit_or-lt : (w a b : ℕ) → a < 2 ^ w → b < 2 ^ w → bit_or a b < 2 ^ w
bit_or-lt zero a b h l =
    omega (arith, ap (λ t. bit_or t b) a_zero, bit_or_step 0 0, bit_or-bitwise 0 b)
  where
    a_zero : a ≡ 0
    a_zero = omega arith
bit_or-lt (suc w) a b h l = omega (
  arith,
  pow-suc 2 w,
  bit_or_step a b,
  bit_or-lt w (a / 2) (b / 2) (omega (arith, pow-suc 2 w)) (omega (arith, pow-suc 2 w)),
)

differ_digits : (a b : ℕ) → a < 2 → b < 2 → differ a b ≡ (a + b) % 2
differ_digits zero b h l = omega arith
differ_digits (suc zero) zero h l = refl
differ_digits (suc zero) (suc zero) h l = refl
differ_digits (suc zero) (suc (suc b)) h l = absurd (omega arith)
differ_digits (suc (suc a)) b h l = absurd (omega arith)

bit_xor_step : (x y : ℕ) → bit_xor x y ≡ (x % 2 + y % 2) % 2 + 2 * bit_xor (x / 2) (y / 2)
bit_xor_step zero y = omega (arith, bit_xor-bitwise 0 y, bit_xor-bitwise 0 (y / 2))
bit_xor_step (suc x) y = omega (
  arith,
  unroll (λ b. b) differ x y,
  bit_xor-bitwise (suc x) y,
  bit_xor-bitwise (suc x / 2) (y / 2),
  differ_digits (suc x % 2) (y % 2) (omega arith) (omega arith),
)

pub bit-bit_xor : (k a b : ℕ) → bit (bit_xor a b) k ≡ (bit a k + bit b k) % 2
bit-bit_xor zero a b = omega (arith, bit_xor_step a b)
bit-bit_xor (suc k) a b = ap (λ t. bit t k) half ∙ bit-bit_xor k (a / 2) (b / 2)
  where
    half : bit_xor a b / 2 ≡ bit_xor (a / 2) (b / 2)
    half = omega (arith, bit_xor_step a b)

pub bit_xor-lt : (w a b : ℕ) → a < 2 ^ w → b < 2 ^ w → bit_xor a b < 2 ^ w
bit_xor-lt zero a b h l =
    omega (arith, ap (λ t. bit_xor t b) a_zero, ap (λ t. bit_xor 0 t) b_zero, bit_xor-bitwise 0 0)
  where
    a_zero : a ≡ 0
    a_zero = omega arith

    b_zero : b ≡ 0
    b_zero = omega arith
bit_xor-lt (suc w) a b h l = omega (
  arith,
  pow-suc 2 w,
  bit_xor_step a b,
  bit_xor-lt w (a / 2) (b / 2) (omega (arith, pow-suc 2 w)) (omega (arith, pow-suc 2 w)),
)
