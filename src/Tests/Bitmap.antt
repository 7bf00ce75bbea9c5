-- ===== src/Tests/Bitmap.antt =====
-- hds_udp/common/Atomic_Bitmap.h at concrete inputs.
use test_resend.Prelude.{ℕ, zero, suc, ◌+◌, ◌^◌, ◌<◌, ◌≤◌, ◌≡◌, refl, arith, [], ◌∷◌, some, false}
use test_resend.Prelude.Int.{pos, negsuc}
use test_resend.Atomic.{bit_test_and_set}
use test_resend.AtomicBitmap.{
  AtomicBitmap, set_ones, unset_ones, set_bit, test_bit, find_first, find_first_back, candidates,
  skip, skip_back, search_from, search_back, bsf, bsr, mask_from, mask_to, word_at,
}
use test_resend.AtomicBitmap.Valid.{IsValid, bit_of}
use test_resend.AtomicBitmap.Cells.{Operated, cells_lem}
use test_resend.AtomicBitmap.Forward.{IsFirst}
use test_resend.AtomicBitmap.Backward.{IsLast}
use test_resend.AtomicBitmap.Searches.{searches_lem, full_bitmap_lem}

-- 70 bits, of which 3, 63 and 66 are set.
abbrev three_set : AtomicBitmap
three_set = record { bit_num = 70; lsize = 2; pbits = (2 ^ 63 + 8) ∷ (4 ∷ []) }

three_set_small : (i : ℕ) → word_at three_set i < 2 ^ 64
three_set_small zero = omega arith
three_set_small (suc zero) = omega arith
three_set_small (suc (suc i)) = omega arith

three_set-IsValid : IsValid three_set
three_set-IsValid = record {
  words = refl;
  room = omega arith;
  numbered = omega arith;
  small = three_set_small;
}

first_from_four : find_first set_ones 4 three_set ≡ some (pos 63)
unfolding find_first search_from skip candidates mask_from bsf
first_from_four = refl

last_up_to_sixty : find_first_back set_ones 60 three_set ≡ some (pos 3)
unfolding find_first_back search_back skip_back candidates mask_to bsr
last_up_to_sixty = refl

first_unset : find_first unset_ones 63 three_set ≡ some (pos 64)
unfolding find_first search_from skip candidates mask_from bsf
first_unset = refl

-- Bit 63 is set, and `test` says that it is not.
test_of_sign : test_bit 63 three_set ≡ false
unfolding test_bit
test_of_sign = refl

set_again : (set_bit 63 three_set).0 ≡ negsuc 0
unfolding set_bit bit_test_and_set
set_again = refl

searches_lem_example :
    IsFirst set_ones three_set 4 (find_first set_ones 4 three_set)
    × IsLast set_ones three_set 4 (find_first_back set_ones 4 three_set)
searches_lem_example = searches_lem set_ones three_set 4 three_set-IsValid (omega arith)

cells_lem_example : Operated three_set 66
cells_lem_example = cells_lem three_set 66 three_set-IsValid

-- Two bits, both set.
abbrev full : AtomicBitmap
full = record { bit_num = 2; lsize = 1; pbits = 3 ∷ [] }

full_small : (i : ℕ) → word_at full i < 2 ^ 64
full_small zero = omega arith
full_small (suc i) = omega arith

full-IsValid : IsValid full
full-IsValid = record {
  words = refl;
  room = omega arith;
  numbered = omega arith;
  small = full_small;
}

full_set : (j : ℕ) → 0 ≤ j → j < 2 → bit_of full j ≡ 1
full_set zero low high = refl
full_set (suc zero) low high = refl
full_set (suc (suc j)) low high = absurd (omega arith)

full_bitmap_lem_example : find_first unset_ones 0 full ≡ some (pos 2)
full_bitmap_lem_example =
    full_bitmap_lem full 0 full-IsValid (omega arith) (omega arith) full_set refl
