-- ===== src/AtomicBitmap/Cells.antt =====
-- set, reset, flip, test and clear of hds_udp/common/Atomic_Bitmap.h, bit by bit.
use native.Mathlib.Decide.{dec_lt}
use test_resend.Prelude.{
  ℕ, zero, suc, ◌+◌, ◌-◌, ◌*◌, ◌/◌, ◌%◌, ◌^◌, ◌≤◌, ◌<◌, ◌≡◌, refl, ◌∙◌, ap, ◌==◌, if◌then◌else◌,
  replicate, leb, Bool, true, false, arith, ◌⊎◌, inl, inr, length, get_or, set, length-set,
  length-replicate, get_or-set, get_or-replicate,
}
use test_resend.Prelude.Int.{ℤ, pos, negsuc}
use test_resend.Prelude.Digits.{bit, bit-zero, bit_complement}
use test_resend.Prelude.BitArrays.{write_word}
use test_resend.Atomic.{bit_test_and_set, bit_test_and_reset, bit_test_and_complement}
use test_resend.Atomic.Bits.{
  bit-set, bit-reset, bit-complement, set-lt, reset-lt, complement-lt, shifted_bit_lem,
  masked_positive,
}
use test_resend.AtomicBitmap.{
  AtomicBitmap, new_bitmap, word_at, on_word, set_bit, reset_bit, flip_bit, test_bit, clear,
  long_has_bit,
}
use test_resend.AtomicBitmap.Valid.{IsValid, bit_of}

-- A bitmap after an operation on the bit `p` that leaves `new` there.
abbrev pub Wrote : ℕ → ℕ → AtomicBitmap → AtomicBitmap → Type 0
Wrote p new bm bm' =
    IsValid bm'
    × (bm'.bit_num ≡ bm.bit_num)
    × ((j : ℕ) → bit_of bm' j ≡ (if p == j then new else bit_of bm j))

module _ (bm : AtomicBitmap) (p : ℕ) (v : IsValid bm) (h : p < bm.bit_num) where
  inside : leb bm.bit_num p ≡ false
  inside = ground arith

  -- An operation that changes one digit of a word.
  on_word-Wrote :
      (operation : ℕ → ℕ → ℤ × ℕ) (new : ℕ)
      → (operation (p % long_has_bit) (word_at bm (p / long_has_bit))).1 < 2 ^ 64
      → ((k : ℕ)
          → bit (operation (p % long_has_bit) (word_at bm (p / long_has_bit))).1 k
            ≡ (if p % long_has_bit == k then new else bit (word_at bm (p / long_has_bit)) k))
      → Wrote p new bm (on_word operation p bm).1
  on_word-Wrote operation new fits digits =
      let word = (operation (p % long_has_bit) (word_at bm (p / long_has_bit))).1 in
      let place : p / long_has_bit < length bm.pbits = omega (arith, v.words, v.room) in
      let below : (i : ℕ) → get_or (set bm.pbits (p / long_has_bit) word) i 0 < 2 ^ 64 =
        λ i. ground (arith, get_or-set bm.pbits (p / long_has_bit) i word 0 place, v.small i) in
      rw inside (
        record {
          words = length-set bm.pbits _ _ ∙ v.words;
          room = v.room;
          numbered = v.numbered;
          small = below;
        },
        refl,
        λ j. write_word bm.pbits p j new word place digits,
      )

  set_bit-Wrote : Wrote p 1 bm (set_bit p bm).1
  unfolding set_bit
  set_bit-Wrote =
      on_word-Wrote bit_test_and_set 1 (set-lt _ _ (omega arith) (v.small _)) (bit-set _ _)

  reset_bit-Wrote : Wrote p 0 bm (reset_bit p bm).1
  unfolding reset_bit
  reset_bit-Wrote =
      on_word-Wrote bit_test_and_reset 0 (reset-lt _ _ (omega arith) (v.small _)) (bit-reset _ _)

  flip_bit-Wrote : Wrote p (1 - bit_of bm p) bm (flip_bit p bm).1
  unfolding flip_bit
  flip_bit-Wrote =
      on_word-Wrote bit_test_and_complement (1 - bit_of bm p)
        (complement-lt _ _ (omega arith) (v.small _)) (bit-complement _ _)

  -- `set` returns the old bit, but the old bit 1 of a word's last position comes back as -1, which
  -- stands for an error too.
  set_bit_result :
      (set_bit p bm).0
      ≡ (if p % 64 == 63 then (if bit_of bm p == 0 then pos 0 else negsuc 0) else pos (bit_of bm p))
  unfolding set_bit bit_test_and_set
  set_bit_result = rw inside (shifted_bit_lem (p % 64) (word_at bm (p / 64)) (omega arith))

  -- `test` reads the bit, but at the last position of a word it returns false whatever is there.
  test_bit_result : test_bit p bm ≡ (if p % 64 == 63 then false else bit_of bm p == 1)
  unfolding test_bit
  test_bit_result = rw inside (masked_positive (p % 64) (word_at bm (p / 64)) (omega arith))

get_or-replicate_lt : (n i a d : ℕ) → i < n → get_or (replicate n a) i d ≡ a
get_or-replicate_lt zero i a d h = absurd (omega arith)
get_or-replicate_lt (suc n) zero a d h = refl
get_or-replicate_lt (suc n) (suc i) a d h = get_or-replicate_lt n i a d (omega arith)

get_or-replicate_bound : (n i a : ℕ) → get_or (replicate n a) i 0 ≤ a
get_or-replicate_bound zero i a = omega arith
get_or-replicate_bound (suc n) zero a = omega arith
get_or-replicate_bound (suc n) (suc i) a = get_or-replicate_bound n i a

-- A new bitmap is valid, and each of its bits is 0.
pub new_bitmap-IsValid :
    (bit_num : ℕ)
    → bit_num + long_has_bit < 2 ^ 31
    → IsValid (new_bitmap bit_num) × ((j : ℕ) → bit_of (new_bitmap bit_num) j ≡ 0)
unfolding new_bitmap
new_bitmap-IsValid n h = (
  record {
    words = length-replicate _ 0;
    room = ground arith;
    numbered = ground arith;
    small = λ i. omega (arith, get_or-replicate_bound (new_bitmap n).lsize i 0);
  },
  λ j.
      ap (λ w. bit w (j % long_has_bit))
        (get_or-replicate (new_bitmap n).lsize (j / long_has_bit) 0)
      ∙ bit-zero (j % long_has_bit),
)

-- `clear` makes every bit of the array 1 where `tag_clear` holds, and 0 where it does not.
pub clear_lem :
    (tag_clear : Bool) (bm : AtomicBitmap)
    → IsValid bm
    → IsValid (clear tag_clear bm)
      × ((j : ℕ)
          → j < bm.lsize * long_has_bit
          → bit_of (clear tag_clear bm) j ≡ (if tag_clear then 1 else 0))
unfolding clear
clear_lem tag bm v = (
  record {
    words = length-replicate _ _;
    room = v.room;
    numbered = v.numbered;
    small = λ i. filled_small tag bm.lsize i;
  },
  λ j l.
      ap (λ w. bit w (j % long_has_bit))
        (get_or-replicate_lt bm.lsize (j / long_has_bit) (if tag then 2 ^ 64 - 1 else 0) 0
          (omega arith))
      ∙ filled_bit tag (j % long_has_bit) (omega arith),
)
  where
    filled_small :
        (tag : Bool) (n i : ℕ) → get_or (replicate n (if tag then 2 ^ 64 - 1 else 0)) i 0 < 2 ^ 64
    filled_small true n i = omega (arith, get_or-replicate_bound n i (2 ^ 64 - 1))
    filled_small false n i = omega (arith, get_or-replicate_bound n i 0)

    filled_bit :
        (tag : Bool) (k : ℕ)
        → k < 64
        → bit (if tag then 2 ^ 64 - 1 else 0) k ≡ (if tag then 1 else 0)
    filled_bit true k h = omega (arith, bit_complement 64 0 k (omega arith) h, bit-zero k)
    filled_bit false k h = bit-zero k

-- What the operations on the bit `p` do, in range and out of range.
abbrev pub Operated : AtomicBitmap → ℕ → Type 0
Operated bm p =
    (p < bm.bit_num)
      × Wrote p 1 bm (set_bit p bm).1
      × Wrote p 0 bm (reset_bit p bm).1
      × Wrote p (1 - bit_of bm p) bm (flip_bit p bm).1
      × ((set_bit p bm).0 ≡ (
          if p % 64 == 63
          then (if bit_of bm p == 0 then pos 0 else negsuc 0)
          else pos (bit_of bm p)))
      × (test_bit p bm ≡ (if p % 64 == 63 then false else bit_of bm p == 1))
    ⊎ (bm.bit_num ≤ p)
      × (set_bit p bm ≡ (negsuc 0, bm))
      × (reset_bit p bm ≡ (negsuc 0, bm))
      × (flip_bit p bm ≡ (negsuc 0, bm))
      × (test_bit p bm ≡ false)

-- On a valid bitmap, with a bit number in range, `set`, `reset` and `flip` make that bit 1, 0 and the
-- other one, keep every other bit, and leave the bitmap valid; `set` returns the old bit, and `test`
-- reads it, but not at the last position of a word: there `set` returns -1 for 1, and `test` false. With
-- one out of range they return -1 and false, and the bitmap is as it was.
pub cells_lem : (bm : AtomicBitmap) (p : ℕ) → IsValid bm → Operated bm p
unfolding set_bit reset_bit flip_bit test_bit
cells_lem bm p v = elim (dec_lt p bm.bit_num) [
  | yes h ↦ inl (
    h,
    set_bit-Wrote bm p v h,
    reset_bit-Wrote bm p v h,
    flip_bit-Wrote bm p v h,
    set_bit_result bm p v h,
    test_bit_result bm p v h,
  )
  | no h ↦
      let outside : leb bm.bit_num p ≡ true = ground arith in
      inr (omega arith, rw outside, rw outside, rw outside, rw outside)
]
