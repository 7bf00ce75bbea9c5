-- ===== src/AtomicBitmap/Backward.antt =====
-- findFirstSetBit_R and findFirstUnsetBit_R of hds_udp/common/Atomic_Bitmap.h.
use native.Mathlib.Decide.{dec_lt}
use test_resend.Prelude.{
  ℕ, zero, suc, ◌+◌, ◌-◌, ◌*◌, ◌/◌, ◌%◌, ◌≤◌, ◌<◌, ◌≡◌, ◌≢◌, refl, ap, ◌==◌, ==_iff, if◌then◌else◌,
  ltb, leb, false, arith, Bool-cases, ◌⊎◌, inl, inr, Option, some,
}
use test_resend.Prelude.Int.{ℤ, pos, negsuc}
use test_resend.Prelude.Digits.{bit, bit-zero}
use test_resend.AtomicBitmap.{
  AtomicBitmap, Sought, idle_word, candidates, mask_to, bsr, word_at, skip_back, search_back,
  find_first_back, long_has_bit, bit_number,
}
use test_resend.AtomicBitmap.Digits.{
  wanted, wanted-idle, candidates_to-lt, bit-candidates_to, bsr_lem,
}
use test_resend.AtomicBitmap.Valid.{IsValid, wanted_at, Clear, bit_number_lem}

-- The result is -1 and no bit up to `start` is looked for, or it is the last that is.
abbrev pub IsLast : Sought → AtomicBitmap → ℕ → Option ℤ → Type 0
IsLast s bm start r =
    (r ≡ some (negsuc 0)) × Clear s bm 0 (start + 1)
    ⊎ ((n : ℕ) × (r ≡ some (pos n))
        × (n ≤ start)
        × (wanted_at s bm n ≡ 1)
        × Clear s bm (n + 1) (start + 1))

module _ (s : Sought) (bm : AtomicBitmap) (start : ℕ) where
  -- The bits above bit `b` of the word before word `n` are clear, up to `start`.
  abbrev Above : ℕ → ℕ → Type 0
  Above n b = Clear s bm (n * long_has_bit + b - 63) (start + 1)

  widen_down :
      (e b low : ℕ)
      → b < long_has_bit
      → Above (suc e) b
      → ((k : ℕ) → low ≤ k → k ≤ b → wanted s (word_at bm e) k ≡ 0)
      → Clear s bm (e * long_has_bit + low) (start + 1)
  widen_down e b low hb above here j from high = elim (dec_lt (e * long_has_bit + b) j) [
    | yes l ↦ above j (omega (arith, l)) high
    | no g ↦
        let q : j / long_has_bit ≡ e = omega arith in
        rw q (here (j % long_has_bit) (omega arith) (omega arith))
  ]

  previous_word :
      (e b : ℕ)
      → b < long_has_bit
      → Above (suc e) b
      → ((k : ℕ) → k ≤ b → wanted s (word_at bm e) k ≡ 0)
      → Above e 63
  previous_word e b hb above here j from high =
      widen_down e b 0 hb above (λ k l h. here k h) j (omega arith) high

  -- The inner loop goes over words that are clear.
  skip_back_lem :
      (n b : ℕ)
      → b < long_has_bit
      → n * long_has_bit + b ≤ start + long_has_bit
      → Above n b
      → ((skip_back s bm.pbits n b).0 ≤ n)
        × ((skip_back s bm.pbits n b).1 < long_has_bit)
        × ((skip_back s bm.pbits n b).0 * long_has_bit + (skip_back s bm.pbits n b).1
            ≤ start + long_has_bit)
        × Above (skip_back s bm.pbits n b).0 (skip_back s bm.pbits n b).1
  unfolding skip_back
  skip_back_lem zero b hb hs above = (omega arith, hb, hs, above)
  skip_back_lem (suc e) b hb hs above = elim (Bool-cases (word_at bm e == idle_word s)) [
    | inl same ↦
        let w : word_at bm e ≡ idle_word s = (==_iff _ _).0 same in
        let r =
          skip_back_lem e 63 (omega arith) (omega arith)
            (previous_word e b hb above (λ k l. rw w (wanted-idle s k (omega arith)))) in
        rw same (omega (arith, r.0), r.1, r.2, r.3)
    | inr other ↦ rw other (omega arith, hb, hs, above)
  ]

  module _ (v : IsValid bm) where
    no_candidate :
        (e b : ℕ)
        → b < long_has_bit
        → candidates s (word_at bm e) (mask_to b) ≡ 0
        → (k : ℕ) → k ≤ b
        → wanted s (word_at bm e) k ≡ 0
    no_candidate e b hb z k l = ground (
      arith,
      bit-candidates_to s (word_at bm e) b (v.small e) hb k (omega arith),
      ap (λ t. bit t k) z,
      bit-zero k,
    )

    candidate :
        (e b : ℕ)
        → b < long_has_bit
        → e < bm.lsize
        → e * long_has_bit + b ≤ start
        → Above (suc e) b
        → candidates s (word_at bm e) (mask_to b) ≢ 0
        → IsLast s bm start (some (bit_number e (bsr 64 (candidates s (word_at bm e) (mask_to b)))))
    candidate e b hb he hs above n =
        let val = candidates s (word_at bm e) (mask_to b) in
        let k = bsr 64 val in
        let found = bsr_lem 64 val (candidates_to-lt s (word_at bm e) b (v.small e) hb) n in
        let high = found.0 in
        let is : bit val k ≡ (if ltb b k then 0 else wanted s (word_at bm e) k) =
          bit-candidates_to s (word_at bm e) b (v.small e) hb k high in
        let within : k ≤ b = ground (arith, is, found.1) in
        let one : wanted s (word_at bm e) k ≡ 1 = ground (arith, is, found.1) in
        let q : (e * long_has_bit + k) / long_has_bit ≡ e = omega (arith, high) in
        let r : (e * long_has_bit + k) % long_has_bit ≡ k = omega (arith, high) in
        inr (
          e * long_has_bit + k,
          ap some (bit_number_lem e k (omega (arith, v.numbered, high))),
          omega (arith, within, hs),
          rw (q, r) one,
          λ j low l.
              widen_down e b (k + 1) hb above
                (λ i from h. ground (
                  arith,
                  bit-candidates_to s (word_at bm e) b (v.small e) hb i (omega arith),
                  found.2 i (omega (arith, from)),
                ))
                j (omega arith) l,
        )

    -- The end of a turn of the outer loop, with what the later turns give.
    turn-IsLast :
        (rest : Option ℤ) (n b : ℕ)
        → n ≤ bm.lsize
        → b < long_has_bit
        → n * long_has_bit + b ≤ start + long_has_bit
        → Above n b
        → (0 < n → Above (n - 1) 63 → IsLast s bm start rest)
        → IsLast s bm start (
            if n == 0
            then some (negsuc 0)
            else if candidates s (word_at bm (n - 1)) (mask_to b) == 0
            then rest
            else some (bit_number (n - 1) (bsr 64 (candidates s (word_at bm (n - 1)) (mask_to b)))))
    turn-IsLast rest zero b hn hb hs above later = inl (refl, λ j low l. above j (omega arith) l)
    turn-IsLast rest (suc e) b hn hb hs above later =
        let q : suc e - 1 ≡ e = omega arith in
        let inside : (suc e == 0) ≡ false = ground arith in
        rw (inside, q)
          (elim (Bool-cases (candidates s (word_at bm e) (mask_to b) == 0)) [
            | inl none_here ↦
                let z : candidates s (word_at bm e) (mask_to b) ≡ 0 = (==_iff _ _).0 none_here in
                rw none_here
                  (later (omega arith) (rw q (previous_word e b hb above (no_candidate e b hb z))))
            | inr some_here ↦
                rw some_here
                  (candidate e b hb (omega arith) (omega arith) above (ground (arith, some_here)))
          ])

    search_back_lem :
        (fuel n b : ℕ)
        → n ≤ bm.lsize
        → n < fuel
        → b < long_has_bit
        → n * long_has_bit + b ≤ start + long_has_bit
        → Above n b
        → IsLast s bm start (search_back s bm fuel n b)
    unfolding search_back
    search_back_lem zero n b hn enough hb hs above = absurd (omega arith)
    search_back_lem (suc fuel) n b hn enough hb hs above =
        let r = skip_back_lem n b hb hs above in
        let n' = (skip_back s bm.pbits n b).0 in
        let b' = (skip_back s bm.pbits n b).1 in
        turn-IsLast (search_back s bm fuel (n' - 1) 63) n' b' (omega (arith, r.0)) r.1 r.2 r.3
          (λ l clear.
            search_back_lem fuel (n' - 1) 63 (omega (arith, r.0)) (omega (arith, l, r.0, enough))
              (omega arith) (omega (arith, l, r.2)) clear)

-- From a bit of a valid bitmap down, `findFirstSetBit_R` ends and returns the last bit up to there
-- that is set, or -1 where none is, and `findFirstUnsetBit_R` the same for bits that are not set.
pub find_first_back-IsLast :
    (s : Sought) (bm : AtomicBitmap) (start_pos : ℕ)
    → IsValid bm
    → start_pos < bm.bit_num
    → IsLast s bm start_pos (find_first_back s start_pos bm)
unfolding find_first_back
find_first_back-IsLast s bm start_pos v h =
    let inside : leb bm.bit_num start_pos ≡ false = ground arith in
    rw inside (
      search_back_lem s bm start_pos v (bm.lsize + 1) (start_pos / long_has_bit + 1)
        (start_pos % long_has_bit) (omega (arith, v.room)) (omega (arith, v.room)) (omega arith)
        (omega arith) (λ j low l. absurd (omega arith)))
