-- ===== src/AtomicBitmap/Valid.antt =====
-- The bits that an Atomic_Bitmap of hds_udp/common/Atomic_Bitmap.h stands for.
use test_resend.Prelude.{ℕ, ◌+◌, ◌*◌, ◌/◌, ◌%◌, ◌^◌, ◌≤◌, ◌<◌, ◌≡◌, length, arith}
use test_resend.Prelude.Int.{pos}
use test_resend.Prelude.Digits.{bit}
use test_resend.AtomicBitmap.{AtomicBitmap, Sought, word_at, bit_number, long_has_bit}
use test_resend.AtomicBitmap.Digits.{wanted}

-- The array has `_lsize` words of 64 bits, room for `_bit_num` bits, and the number of each of its
-- bits is an `int`.
pub record IsValid (bm : AtomicBitmap) : Type 0 where
  pub words : length bm.pbits ≡ bm.lsize
  pub room : bm.bit_num ≤ bm.lsize * long_has_bit
  pub numbered : bm.lsize * long_has_bit < 2 ^ 31
  pub small : (i : ℕ) → word_at bm i < 2 ^ 64

abbrev pub bit_of : AtomicBitmap → ℕ → ℕ
bit_of bm j = bit (word_at bm (j / long_has_bit)) (j % long_has_bit)

-- 1 where the bit `j` is looked for.
abbrev pub wanted_at : Sought → AtomicBitmap → ℕ → ℕ
wanted_at s bm j = wanted s (word_at bm (j / long_has_bit)) (j % long_has_bit)

-- No bit from `low` on and below `high` is looked for.
abbrev pub Clear : Sought → AtomicBitmap → ℕ → ℕ → Type 0
Clear s bm low high = (j : ℕ) → low ≤ j → j < high → wanted_at s bm j ≡ 0

pub bit_number_lem :
    (e k : ℕ) → e * long_has_bit + k < 2 ^ 31 → bit_number e k ≡ pos (e * long_has_bit + k)
bit_number_lem e k h = ground arith
