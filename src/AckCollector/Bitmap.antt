-- ===== src/AckCollector/Bitmap.antt =====
-- The bitmap of HDS_UDP_Connection_Ack_Info_Collector.h as an array of 3072 bits.
use test_resend.Prelude.{
  ℕ, ◌/◌, ◌%◌, ◌<◌, ◌≡◌, refl, ◌==◌, if◌then◌else◌, arith, ap, ◌∙◌, List, length, get_or,
  length-set, get_or-replicate,
}
use test_resend.Prelude.Digits.{bit, bit-zero}
use test_resend.Prelude.BitArrays.{bit_at, write_word}
use test_resend.Atomic.{bit_test_and_set, bit_test_and_reset, is_zero, shifted_bit}
use test_resend.Atomic.Bits.{bit-set, bit-reset, is_zero-shifted_bit}
use test_resend.AckCollector.{
  long_has_bit, max_bit_num, max_long_num, bitmap_test_and_set, bitmap_test_and_reset, init,
}

module _ (bitmap : List ℕ) (i : ℕ) (hi : i < max_bit_num) (hl : length bitmap ≡ max_long_num) where
  pub bit_at-set :
      (j : ℕ) → bit_at (bitmap_test_and_set i bitmap).1 j ≡ (if i == j then 1 else bit_at bitmap j)
  unfolding bitmap_test_and_set
  bit_at-set j =
      write_word bitmap i j 1 _ (omega arith)
        (bit-set (i % long_has_bit) (get_or bitmap (i / long_has_bit) 0))

  pub bit_at-reset :
      (j : ℕ)
      → bit_at (bitmap_test_and_reset i bitmap).1 j ≡ (if i == j then 0 else bit_at bitmap j)
  unfolding bitmap_test_and_reset
  bit_at-reset j =
      write_word bitmap i j 0 _ (omega arith)
        (bit-reset (i % long_has_bit) (get_or bitmap (i / long_has_bit) 0))

pub length-bitmap_test_and_set :
    (i : ℕ) (bitmap : List ℕ) → length (bitmap_test_and_set i bitmap).1 ≡ length bitmap
unfolding bitmap_test_and_set
length-bitmap_test_and_set i bitmap = length-set bitmap _ _

pub length-bitmap_test_and_reset :
    (i : ℕ) (bitmap : List ℕ) → length (bitmap_test_and_reset i bitmap).1 ≡ length bitmap
unfolding bitmap_test_and_reset
length-bitmap_test_and_reset i bitmap = length-set bitmap _ _

-- The old bit, as the caller tests it.
pub is_zero-test_and_reset :
    (i : ℕ) (bitmap : List ℕ) → is_zero (bitmap_test_and_reset i bitmap).0 ≡ (bit_at bitmap i == 0)
unfolding bitmap_test_and_reset bit_test_and_reset
is_zero-test_and_reset i bitmap =
    is_zero-shifted_bit (i % long_has_bit) (get_or bitmap (i / long_has_bit) 0) (omega arith)

pub test_and_set_result :
    (i : ℕ) (bitmap : List ℕ)
    → (bitmap_test_and_set i bitmap).0
      ≡ shifted_bit (i % long_has_bit) (get_or bitmap (i / long_has_bit) 0)
unfolding bitmap_test_and_set bit_test_and_set
test_and_set_result i bitmap = refl

pub bit_at-init : (i : ℕ) → bit_at init.bitmap i ≡ 0
bit_at-init i =
    ap (λ w. bit w (i % long_has_bit)) (get_or-replicate max_long_num (i / long_has_bit) 0)
    ∙ bit-zero (i % long_has_bit)
