-- ===== src/AtomicBitmap/Forward.antt =====
-- findFirstSetBit and findFirstUnsetBit of hds_udp/common/Atomic_Bitmap.h.
use native.Mathlib.Decide.{dec_lt}
use test_resend.Prelude.{
  ℕ, zero, suc, ◌+◌, ◌-◌, ◌*◌, ◌/◌, ◌%◌, ◌≤◌, ◌<◌, ◌≡◌, ◌≢◌, refl, ap, ◌==◌, ==_iff, if◌then◌else◌,
  ltb, leb, false, arith, Bool-cases, ◌⊎◌, inl, inr, Option, some,
}
use test_resend.Prelude.Int.{ℤ, pos, negsuc}
use test_resend.Prelude.Digits.{bit, bit-zero}
use test_resend.AtomicBitmap.{
  AtomicBitmap, Sought, idle_word, candidates, mask_from, bsf, word_at, skip, search_from,
  find_first, long_has_bit, bit_number,
}
use test_resend.AtomicBitmap.Digits.{
  wanted, wanted-idle, candidates_from-lt, bit-candidates_from, bsf_lem,
}
use test_resend.AtomicBitmap.Valid.{IsValid, wanted_at, Clear, bit_number_lem}

-- The result is -1 and no bit from `start` on is looked for, or it is the first that is.
abbrev pub IsFirst : Sought → AtomicBitmap → ℕ → Option ℤ → Type 0
IsFirst s bm start r =
    (r ≡ some (negsuc 0)) × Clear s bm start (bm.lsize * long_has_bit)
    ⊎ ((n : ℕ) × (r ≡ some (pos n))
        × (start ≤ n)
        × (n < bm.lsize * long_has_bit)
        × (wanted_at s bm n ≡ 1)
        × Clear s bm start n)

module _ (s : Sought) (bm : AtomicBitmap) (start : ℕ) where
  -- What is clear up to a bit of the word `e` is clear up to a later one of the same word.
  widen :
      (e b c : ℕ)
      → c ≤ long_has_bit
      → Clear s bm start (e * long_has_bit + b)
      → ((k : ℕ) → b ≤ k → k < c → wanted s (word_at bm e) k ≡ 0)
      → Clear s bm start (e * long_has_bit + c)
  widen e b c hc before here j low high = elim (dec_lt j (e * long_has_bit + b)) [
    | yes l ↦ before j low l
    | no g ↦
        let q : j / long_has_bit ≡ e = omega arith in
        rw q (here (j % long_has_bit) (omega arith) (omega arith))
  ]

  next_word :
      (e b : ℕ)
      → Clear s bm start (e * long_has_bit + b)
      → ((k : ℕ) → b ≤ k → k < long_has_bit → wanted s (word_at bm e) k ≡ 0)
      → Clear s bm start ((e + 1) * long_has_bit + 0)
  next_word e b before here j low high =
      widen e b long_has_bit (omega arith) before here j low (omega arith)

  -- The inner loop goes over words that are clear.
  skip_lem :
      (left e b : ℕ)
      → e + left ≡ bm.lsize
      → b < long_has_bit
      → Clear s bm start (e * long_has_bit + b)
      → ((skip s left bm.pbits e b).0 ≤ bm.lsize)
        × ((skip s left bm.pbits e b).1 < long_has_bit)
        × (e ≤ (skip s left bm.pbits e b).0)
        × (e * long_has_bit + b
            ≤ (skip s left bm.pbits e b).0 * long_has_bit + (skip s left bm.pbits e b).1)
        × Clear s bm start
            ((skip s left bm.pbits e b).0 * long_has_bit + (skip s left bm.pbits e b).1)
  unfolding skip
  skip_lem zero e b end hb before = (omega arith, hb, omega arith, omega arith, before)
  skip_lem (suc left) e b end hb before = elim (Bool-cases (word_at bm e == idle_word s)) [
    | inl same ↦
        let w : word_at bm e ≡ idle_word s = (==_iff _ _).0 same in
        let r =
          skip_lem left (e + 1) 0 (omega arith) (omega arith)
            (next_word e b before (λ k low l. rw w (wanted-idle s k l))) in
        rw same (r.0, r.1, omega (arith, r.2), omega (arith, r.3), r.4)
    | inr other ↦ rw other (omega arith, hb, omega arith, omega arith, before)
  ]

  module _ (v : IsValid bm) where
    -- A word that has no bit that is looked for from `b` on.
    no_candidate :
        (e b : ℕ)
        → b < long_has_bit
        → candidates s (word_at bm e) (mask_from b) ≡ 0
        → (k : ℕ) → b ≤ k
        → k < long_has_bit
        → wanted s (word_at bm e) k ≡ 0
    no_candidate e b hb z k low l = ground (
      arith,
      bit-candidates_from s (word_at bm e) b (v.small e) hb k l,
      ap (λ t. bit t k) z,
      bit-zero k,
    )

    -- One that has such a bit.
    candidate :
        (e b : ℕ)
        → b < long_has_bit
        → e < bm.lsize
        → start ≤ e * long_has_bit + b
        → Clear s bm start (e * long_has_bit + b)
        → candidates s (word_at bm e) (mask_from b) ≢ 0
        → IsFirst s bm start
            (some (bit_number e (bsf 64 (candidates s (word_at bm e) (mask_from b)))))
    candidate e b hb he hs before n =
        let val = candidates s (word_at bm e) (mask_from b) in
        let k = bsf 64 val in
        let found = bsf_lem 64 val (candidates_from-lt s (word_at bm e) b (v.small e) hb) n in
        let high = found.0 in
        let is : bit val k ≡ (if ltb k b then 0 else wanted s (word_at bm e) k) =
          bit-candidates_from s (word_at bm e) b (v.small e) hb k high in
        let past : b ≤ k = ground (arith, is, found.1) in
        let one : wanted s (word_at bm e) k ≡ 1 = ground (arith, is, found.1) in
        let q : (e * long_has_bit + k) / long_has_bit ≡ e = omega (arith, high) in
        let r : (e * long_has_bit + k) % long_has_bit ≡ k = omega (arith, high) in
        inr (
          e * long_has_bit + k,
          ap some (bit_number_lem e k (omega (arith, v.numbered, high))),
          omega (arith, past, hs),
          omega (arith, high, he),
          rw (q, r) one,
          widen e b k (omega (arith, high)) before (λ j low l. ground (
            arith,
            bit-candidates_from s (word_at bm e) b (v.small e) hb j (omega (arith, high)),
            found.2 j l,
          )),
        )

    -- The end of a turn of the outer loop, with what the later turns give.
    turn-IsFirst :
        (rest : Option ℤ) (e b : ℕ)
        → e ≤ bm.lsize
        → b < long_has_bit
        → start ≤ e * long_has_bit + b
        → Clear s bm start (e * long_has_bit + b)
        → (e < bm.lsize → Clear s bm start ((e + 1) * long_has_bit + 0) → IsFirst s bm start rest)
        → IsFirst s bm start (
            if e == bm.lsize
            then some (negsuc 0)
            else if candidates s (word_at bm e) (mask_from b) == 0
            then rest
            else some (bit_number e (bsf 64 (candidates s (word_at bm e) (mask_from b)))))
    turn-IsFirst rest e b he hb hs before later = elim (Bool-cases (e == bm.lsize)) [
      | inl end ↦
          let q : e ≡ bm.lsize = (==_iff _ _).0 end in
          rw end (inl (refl, λ j low l. before j low (omega arith)))
      | inr inside ↦
          let below : e < bm.lsize = ground arith in
          elim (Bool-cases (candidates s (word_at bm e) (mask_from b) == 0)) [
            | inl none_here ↦
                let z : candidates s (word_at bm e) (mask_from b) ≡ 0 = (==_iff _ _).0 none_here in
                rw (inside, none_here) (later below (next_word e b before (no_candidate e b hb z)))
            | inr some_here ↦
                rw (inside, some_here)
                  (candidate e b hb below hs before (ground (arith, some_here)))
          ]
    ]

    search_from_lem :
        (fuel e b : ℕ)
        → e ≤ bm.lsize
        → bm.lsize < e + fuel
        → b < long_has_bit
        → start ≤ e * long_has_bit + b
        → Clear s bm start (e * long_has_bit + b)
        → IsFirst s bm start (search_from s bm fuel e b)
    unfolding search_from
    search_from_lem zero e b he enough hb hs before = absurd (omega arith)
    search_from_lem (suc fuel) e b he enough hb hs before =
        let r = skip_lem (bm.lsize - e) e b (omega arith) hb before in
        let e' = (skip s (bm.lsize - e) bm.pbits e b).0 in
        let b' = (skip s (bm.lsize - e) bm.pbits e b).1 in
        turn-IsFirst (search_from s bm fuel (e' + 1) 0) e' b' r.0 r.1 (omega (arith, hs, r.3)) r.4
          (λ l clear.
            search_from_lem fuel (e' + 1) 0 (omega (arith, l)) (omega (arith, r.2, enough))
              (omega arith) (omega (arith, hs, r.1, r.3)) clear)

-- From a bit of a valid bitmap on, `findFirstSetBit` ends and returns the first bit that is set, or -1
-- where none is, and `findFirstUnsetBit` the same for bits that are not set. Bits that lie behind
-- `_bit_num` in the last words count.
pub find_first-IsFirst :
    (s : Sought) (bm : AtomicBitmap) (start_pos : ℕ)
    → IsValid bm
    → start_pos < bm.bit_num
    → IsFirst s bm start_pos (find_first s start_pos bm)
unfolding find_first
find_first-IsFirst s bm start_pos v h = rw (leb-false h) (
    search_from_lem s bm start_pos v (bm.lsize + 1) (start_pos / long_has_bit)
      (start_pos % long_has_bit) (omega (arith, v.room)) (omega arith) (omega arith) (omega arith)
      (λ j low l. absurd (omega arith)))
  where
    leb-false : start_pos < bm.bit_num → leb bm.bit_num start_pos ≡ false
    leb-false h = ground arith
