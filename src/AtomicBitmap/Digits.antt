-- ===== src/AtomicBitmap/Digits.antt =====
-- The masks of hds_udp/common/Atomic_Bitmap.h and its two instructions, digit by digit.
use Prim.Native.Nat.{bit_or}
use native.Mathlib.Nat.{pow-suc}
use test_resend.Prelude.{
  ℕ, zero, suc, ◌+◌, ◌-◌, ◌/◌, ◌%◌, ◌^◌, ◌<◌, ◌≡◌, ◌≢◌, refl, ◌∙◌, ap, ◌==◌, ==_iff, if◌then◌else◌,
  ltb, Bool, true, false, arith, Bool-cases, inl, inr,
}
use test_resend.Prelude.Digits.{
  bit, bit-le-one, bit-zero, bit-ones, bit_complement, bit-bit_and, bit-bit_or, bit_or-lt,
  bit_and-le,
}
use test_resend.AtomicBitmap.{
  Sought, set_ones, unset_ones, idle_word, candidates, complement, mask_from, mask_to, bsf, bsr,
}

-- A test that each position of a word passes.
passes : (ℕ → Bool) → ℕ → Bool
passes test zero = true
passes test (suc w) = if test w then passes test w else false

passes-at : (test : ℕ → Bool) (w b : ℕ) → b < w → passes test w ≡ true → test b ≡ true
unfolding passes
passes-at test zero b l h = absurd (omega arith)
passes-at test (suc w) b l h = elim (Bool-cases (b == w)) [
  | inl e ↦ rw ((==_iff b w).0 e) (ground (arith, h))
  | inr e ↦ passes-at test w b (ground (arith, e)) (ground (arith, h))
]

mask_from_table : passes (λ b. mask_from b == complement (2 ^ b - 1)) 64 ≡ true
unfolding passes mask_from
mask_from_table = refl

mask_from_lem : (b : ℕ) → b < 64 → mask_from b ≡ complement (2 ^ b - 1)
mask_from_lem b h = (==_iff _ _).0 (passes-at _ 64 b h mask_from_table)

mask_to_table : passes (λ b. mask_to b == 2 ^ (b + 1) - 1) 64 ≡ true
unfolding passes mask_to
mask_to_table = refl

mask_to_lem : (b : ℕ) → b < 64 → mask_to b ≡ 2 ^ (b + 1) - 1
mask_to_lem b h = (==_iff _ _).0 (passes-at _ 64 b h mask_to_table)

pow_table : passes (λ b. ltb (2 ^ b - 1) (2 ^ 64)) 65 ≡ true
unfolding passes
pow_table = refl

pow-lt : (b : ℕ) → b < 65 → 2 ^ b - 1 < 2 ^ 64
pow-lt b h = ground (arith, passes-at (λ b. ltb (2 ^ b - 1) (2 ^ 64)) 65 b h pow_table)

bit-mask_from : (b k : ℕ) → b < 64 → k < 64 → bit (mask_from b) k ≡ (if ltb k b then 0 else 1)
bit-mask_from b k hb hk =
    rw (mask_from_lem b hb)
      (bit_complement 64 (2 ^ b - 1) k (pow-lt b (omega arith)) hk ∙ ground (arith, bit-ones b k))

bit-mask_to : (b k : ℕ) → b < 64 → bit (mask_to b) k ≡ (if ltb b k then 0 else 1)
bit-mask_to b k hb = rw (mask_to_lem b hb) (ground (arith, bit-ones (b + 1) k))

mask_from-lt : (b : ℕ) → b < 64 → mask_from b < 2 ^ 64
mask_from-lt b h = omega (arith, mask_from_lem b h)

mask_to-lt : (b : ℕ) → b < 64 → mask_to b < 2 ^ 64
mask_to-lt b h = rw (mask_to_lem b h) (pow-lt (b + 1) (omega arith))

-- 1 where the digit `k` of a word is looked for.
abbrev pub wanted : Sought → ℕ → ℕ → ℕ
wanted set_ones word k = bit word k
wanted unset_ones word k = 1 - bit word k

pub wanted-idle : (s : Sought) (k : ℕ) → k < 64 → wanted s (idle_word s) k ≡ 0
wanted-idle set_ones k h = bit-zero k
wanted-idle unset_ones k h = omega (arith, bit_complement 64 0 k (omega arith) h, bit-zero k)

module _ (word mask : ℕ) (small : word < 2 ^ 64) (fits : mask < 2 ^ 64) where
  pub candidates-lt : (s : Sought) → candidates s word mask < 2 ^ 64
  unfolding candidates
  candidates-lt set_ones = omega (arith, bit_and-le word mask)
  candidates-lt unset_ones = omega arith

  -- The digits that are looked for, where the mask has a 1.
  bit-candidates :
      (s : Sought) (k : ℕ)
      → k < 64
      → bit (candidates s word mask) k ≡ (if bit mask k == 0 then 0 else wanted s word k)
  unfolding candidates
  bit-candidates set_ones k h =
      ground (arith, bit-bit_and k word mask, bit-le-one mask k, bit-le-one word k)
  bit-candidates unset_ones k h =
      bit_complement 64 (bit_or word (complement mask)) k
        (bit_or-lt 64 word (complement mask) small (omega arith)) h
      ∙ ground (
        arith,
        bit-bit_or k word (complement mask),
        bit_complement 64 mask k fits h,
        bit-le-one mask k,
        bit-le-one word k,
      )

module _ (s : Sought) (word b : ℕ) (small : word < 2 ^ 64) (hb : b < 64) where
  pub candidates_from-lt : candidates s word (mask_from b) < 2 ^ 64
  candidates_from-lt = candidates-lt word (mask_from b) small (mask_from-lt b hb) s

  pub candidates_to-lt : candidates s word (mask_to b) < 2 ^ 64
  candidates_to-lt = candidates-lt word (mask_to b) small (mask_to-lt b hb) s

  pub bit-candidates_from :
      (k : ℕ)
      → k < 64
      → bit (candidates s word (mask_from b)) k ≡ (if ltb k b then 0 else wanted s word k)
  bit-candidates_from k h =
      bit-candidates word (mask_from b) small (mask_from-lt b hb) s k h
      ∙ ground (arith, bit-mask_from b k hb h)

  pub bit-candidates_to :
      (k : ℕ)
      → k < 64
      → bit (candidates s word (mask_to b)) k ≡ (if ltb b k then 0 else wanted s word k)
  bit-candidates_to k h =
      bit-candidates word (mask_to b) small (mask_to-lt b hb) s k h
      ∙ ground (arith, bit-mask_to b k hb)

-- `bsf` gives the lowest digit 1, and `bsr` the highest.
pub bsf_lem :
    (w v : ℕ)
    → v < 2 ^ w
    → v ≢ 0
    → (bsf w v < w) × (bit v (bsf w v) ≡ 1) × ((j : ℕ) → j < bsf w v → bit v j ≡ 0)
unfolding bsf
bsf_lem zero v h n = absurd (n (omega arith))
bsf_lem (suc w) v h n = elim (Bool-cases (v % 2 == 1)) [
  | inl odd ↦ rw odd (omega arith, ground arith, λ j l. absurd (omega arith))
  | inr even ↦
      let e : v % 2 ≡ 0 = ground arith in
      let r = bsf_lem w (v / 2) (omega (arith, pow-suc 2 w)) (λ z. n (omega arith)) in
      rw even (omega (arith, r.0), r.1, lower e r.2)
]
  where
    lower :
        v % 2 ≡ 0
        → ((j : ℕ) → j < bsf w (v / 2) → bit (v / 2) j ≡ 0)
        → (j : ℕ) → j < suc (bsf w (v / 2))
        → bit v j ≡ 0
    lower e f zero l = e
    lower e f (suc j) l = f j (omega arith)

pub bsr_lem :
    (w v : ℕ)
    → v < 2 ^ w
    → v ≢ 0
    → (bsr w v < w) × (bit v (bsr w v) ≡ 1) × ((j : ℕ) → bsr w v < j → bit v j ≡ 0)
unfolding bsr
bsr_lem zero v h n = absurd (n (omega arith))
bsr_lem (suc w) v h n = elim (Bool-cases (v / 2 == 0)) [
  | inl one ↦
      let e : v / 2 ≡ 0 = ground arith in rw one (omega arith, omega (arith, n), upper_zero e)
  | inr more ↦
      let r = bsr_lem w (v / 2) (omega (arith, pow-suc 2 w)) (λ z. absurd (ground (arith, z))) in
      rw more (omega (arith, r.0), r.1, upper r.2)
]
  where
    upper_zero : v / 2 ≡ 0 → (j : ℕ) → 0 < j → bit v j ≡ 0
    upper_zero e zero l = absurd (omega arith)
    upper_zero e (suc j) l = ap (λ t. bit t j) e ∙ bit-zero j

    upper :
        ((j : ℕ) → bsr w (v / 2) < j → bit (v / 2) j ≡ 0)
        → (j : ℕ) → suc (bsr w (v / 2)) < j
        → bit v j ≡ 0
    upper f zero l = absurd (omega arith)
    upper f (suc j) l = f j (omega arith)
