-- ===== src/Atomic/Bits.antt =====
-- The bit operations of hds_udp/common/atomic_t.h, digit by digit.
use Prim.Native.Nat.{bit_and}
use native.Mathlib.Nat.{pow-le-pow_right, one-le-pow}
use native.Mathlib.Decide.{dec_lt}
use test_resend.Prelude.{
  ℕ, ◌-◌, ◌*◌, ◌/◌, ◌^◌, ◌<◌, ◌≡◌, refl, ◌==◌, ltb, false, if◌then◌else◌, arith, ap, ◌∙◌, ◌⊎◌, inl,
  inr,
}
use test_resend.Prelude.Int.{pos, negsuc, pos_part, signed64}
use test_resend.Prelude.Digits.{
  bit, bit-le-one, bit-bit_or, bit-bit_clear, bit-pow, bit_and-pow, bit-bit_xor, bit_or-lt,
  bit_xor-lt, bit_clear,
}
use test_resend.Atomic.{
  shifted_bit, bit_test_and_set, bit_test_and_reset, bit_test_and_complement, bit_test, is_zero,
}

-- The digit `offset` becomes 1, and every other stays.
pub bit-set :
    (offset val j : ℕ)
    → bit (bit_test_and_set offset val).1 j ≡ (if offset == j then 1 else bit val j)
unfolding bit_test_and_set
bit-set offset val j =
    ground (arith, bit-bit_or j val (2 ^ offset), bit-pow offset j, bit-le-one val j)

-- The digit `offset` becomes 0, and every other stays.
pub bit-reset :
    (offset val j : ℕ)
    → bit (bit_test_and_reset offset val).1 j ≡ (if offset == j then 0 else bit val j)
unfolding bit_test_and_reset
bit-reset offset val j =
    ground (arith, bit-bit_clear j val (2 ^ offset), bit-pow offset j, bit-le-one val j)

bit-cases : (v k : ℕ) → (bit v k ≡ 0) ⊎ (bit v k ≡ 1)
bit-cases v k = omega (arith, bit-le-one v k)

pow-self_div : (k : ℕ) → 2 ^ k / 2 ^ k ≡ 1
pow-self_div k = grind (arith, one-le-pow k 2)

pow-lt-half : (k : ℕ) → k < 63 → 2 ^ k < 2 ^ 63
pow-lt-half k h =
    omega (arith, pow-le-pow_right {n = 2} (omega arith) {i = k} {j = 62} (omega arith))

masked_zero : (k v : ℕ) → bit v k ≡ 0 → bit_and v (2 ^ k) ≡ 0
masked_zero k v e = bit_and-pow k v ∙ ap (λ t. t * 2 ^ k) e ∙ omega arith

masked_one : (k v : ℕ) → bit v k ≡ 1 → bit_and v (2 ^ k) ≡ 2 ^ k
masked_one k v e = bit_and-pow k v ∙ ap (λ t. t * 2 ^ k) e ∙ omega arith

-- Below the sign bit the result is the old digit.
pub shifted_bit-low : (k v : ℕ) → k < 63 → shifted_bit k v ≡ pos (bit v k)
shifted_bit-low k v h = elim (bit-cases v k) [
  | inl e ↦ rw (masked_zero k v e, e) (ap pos (grind arith))
  | inr e ↦ rw (masked_one k v e, e) (ground (arith, pow-lt-half k h, pow-self_div k))
]

-- At the sign bit a digit that was 1 comes back as -1.
pub shifted_bit_sign : (v : ℕ) → shifted_bit 63 v ≡ (if bit v 63 == 0 then pos 0 else negsuc 0)
shifted_bit_sign v = elim (bit-cases v 63) [
  | inl e ↦ rw (masked_zero 63 v e, e)
  | inr e ↦ rw (masked_one 63 v e, e)
]

-- `BitTest` below the sign bit reads the digit.
pub bit_test-low : (k v : ℕ) → k < 63 → bit_test k v ≡ pos (bit v k)
unfolding bit_test
bit_test-low k v h = elim (bit-cases v k) [
  | inl e ↦ rw (masked_zero k v e, e) refl
  | inr e ↦ rw (masked_one k v e, e) (ground (arith, pow-lt-half k h, one-le-pow k 2))
]

-- `BitTest` of the sign bit is 0, whatever the word holds.
pub bit_test_sign : (v : ℕ) → bit_test 63 v ≡ pos 0
unfolding bit_test
bit_test_sign v = elim (bit-cases v 63) [
  | inl e ↦ rw (masked_zero 63 v e)
  | inr e ↦ rw (masked_one 63 v e)
]

-- The caller's `== 0` on the result of `AtomicBitTestAndSet` or `AtomicBitTestAndReset`.
pub is_zero-shifted_bit : (k v : ℕ) → k < 64 → is_zero (shifted_bit k v) ≡ (bit v k == 0)
is_zero-shifted_bit k v h = elim (dec_lt k 63) [
  | yes low ↦ rw (shifted_bit-low k v low) refl
  | no high ↦ let e : k ≡ 63 = omega arith in rw (e, shifted_bit_sign v) (ground arith)
]

-- The digit `offset` becomes the other one, and every other stays.
pub bit-complement :
    (offset val j : ℕ)
    → bit (bit_test_and_complement offset val).1 j
      ≡ (if offset == j then 1 - bit val offset else bit val j)
unfolding bit_test_and_complement
bit-complement offset val j = ground (
  arith,
  bit-bit_xor j val (2 ^ offset),
  bit-pow offset j,
  bit-le-one val j,
  bit-le-one val offset,
)

-- A word stays below 2 ^ 64.
module _ (offset val : ℕ) (h : offset < 64) (small : val < 2 ^ 64) where
  weight_fits : 2 ^ offset < 2 ^ 64
  weight_fits =
      omega (arith, pow-le-pow_right {n = 2} (omega arith) {i = offset} {j = 63} (omega arith))

  pub set-lt : (bit_test_and_set offset val).1 < 2 ^ 64
  unfolding bit_test_and_set
  set-lt = bit_or-lt 64 val (2 ^ offset) small weight_fits

  pub reset-lt : (bit_test_and_reset offset val).1 < 2 ^ 64
  unfolding bit_test_and_reset bit_clear
  reset-lt = omega arith

  pub complement-lt : (bit_test_and_complement offset val).1 < 2 ^ 64
  unfolding bit_test_and_complement
  complement-lt = bit_xor-lt 64 val (2 ^ offset) small weight_fits

-- The old digit as a `long`: at the sign bit, -1 for 1.
pub shifted_bit_lem :
    (k v : ℕ)
    → k < 64
    → shifted_bit k v
      ≡ (if k == 63 then (if bit v k == 0 then pos 0 else negsuc 0) else pos (bit v k))
shifted_bit_lem k v h = elim (dec_lt k 63) [
  | yes low ↦
      let apart : (k == 63) ≡ false = ground arith in rw (shifted_bit-low k v low, apart) refl
  | no high ↦ let e : k ≡ 63 = omega arith in rw (e, shifted_bit_sign v) refl
]

-- `(val & 1L << k) > 0` on a `long`
pub masked_positive :
    (k v : ℕ)
    → k < 64
    → ltb 0 (pos_part (signed64 (bit_and v (2 ^ k)))) ≡ (if k == 63 then false else bit v k == 1)
unfolding bit_test
masked_positive k v h = elim (dec_lt k 63) [
  | yes low ↦ ground (arith, bit_test-low k v low, bit-le-one v k)
  | no high ↦ let e : k ≡ 63 = omega arith in rw e (ground (arith, bit_test_sign v))
]
