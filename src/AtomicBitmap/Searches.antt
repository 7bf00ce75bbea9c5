-- ===== src/AtomicBitmap/Searches.antt =====
-- The four searches of hds_udp/common/Atomic_Bitmap.h.
use native.Mathlib.Decide.{dec_lt}
use test_resend.Prelude.{ℕ, ◌*◌, ◌<◌, ◌≤◌, ◌≡◌, ◌∙◌, ap, arith, inl, inr, some}
use test_resend.Prelude.Int.{pos}
use test_resend.AtomicBitmap.{
  AtomicBitmap, Sought, unset_ones, find_first, find_first_back, long_has_bit,
}
use test_resend.AtomicBitmap.Valid.{IsValid, bit_of}
use test_resend.AtomicBitmap.Forward.{IsFirst, find_first-IsFirst}
use test_resend.AtomicBitmap.Backward.{IsLast, find_first_back-IsLast}

-- From a bit of a valid bitmap each search ends: up, it returns the first bit that is set or is not
-- set, as it is asked, and -1 where none is; down, the last one. Up to the end of the array, bits
-- behind `_bit_num` count.
pub searches_lem :
    (s : Sought) (bm : AtomicBitmap) (start_pos : ℕ)
    → IsValid bm
    → start_pos < bm.bit_num
    → IsFirst s bm start_pos (find_first s start_pos bm)
      × IsLast s bm start_pos (find_first_back s start_pos bm)
searches_lem s bm start_pos v h =
    (find_first-IsFirst s bm start_pos v h, find_first_back-IsLast s bm start_pos v h)

-- When each of the bits from `start_pos` on is set, `findFirstUnsetBit` returns `_bit_num`, a bit that
-- the bitmap does not have, wherever the array has room for it and it is not set.
pub full_bitmap_lem :
    (bm : AtomicBitmap) (start_pos : ℕ)
    → IsValid bm
    → start_pos < bm.bit_num
    → bm.bit_num < bm.lsize * long_has_bit
    → ((j : ℕ) → start_pos ≤ j → j < bm.bit_num → bit_of bm j ≡ 1)
    → bit_of bm bm.bit_num ≡ 0
    → find_first unset_ones start_pos bm ≡ some (pos bm.bit_num)
full_bitmap_lem bm start_pos v h room ones behind =
    elim (find_first-IsFirst unset_ones bm start_pos v h) [
      | inl (e, clear) ↦ absurd (omega (arith, clear bm.bit_num (omega arith) room, behind))
      | inr (n, e, low, high, one, clear) ↦ elim (dec_lt n bm.bit_num) [
        | yes l ↦ absurd (omega (arith, ones n low l, one))
        | no g ↦ elim (dec_lt bm.bit_num n) [
          | yes l ↦ absurd (omega (arith, clear bm.bit_num (omega arith) l, behind))
          | no k ↦ let q : n ≡ bm.bit_num = omega arith in e ∙ ap (λ t. some (pos t)) q
        ]
      ]
    ]
