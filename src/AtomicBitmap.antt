-- ===== src/AtomicBitmap.antt =====
-- hds_udp/common/Atomic_Bitmap.h, the branches of a build without WIN32: an array of words of 64
-- bits, and the searches for a bit in it. A bit's number is an `int` that is not negative. `bsf` and
-- `bsr` are the instructions that the searches run, the lowest and the highest digit 1 of a word.
pub mod Digits
pub mod Valid
pub mod Cells
pub mod Forward
pub mod Backward
pub mod Searches
use Prim.Native.Nat.{bit_and, bit_or}
use test_resend.Prelude.{
  ℕ, zero, suc, ◌+◌, ◌-◌, ◌*◌, ◌/◌, ◌%◌, ◌^◌, ◌==◌, if◌then◌else◌, ltb, leb, Bool, true, false,
  Option, none, some, List, get_or, set, replicate,
}
use test_resend.Prelude.Int.{ℤ, pos, negsuc, pos_part, signed32, signed64}
use test_resend.Prelude.Words.{u32, u64}
use test_resend.Atomic.{bit_test_and_set, bit_test_and_reset, bit_test_and_complement}

abbrev pub long_has_bit : ℕ
long_has_bit = 64

pub record AtomicBitmap : Type 0 where
  pub bit_num : ℕ
  pub lsize : ℕ
  pub pbits : List ℕ

-- The constructor.
unfoldable pub new_bitmap : ℕ → AtomicBitmap
new_bitmap bit_num =
    let lsize =
      bit_num / long_has_bit + (if ltb 0 (bit_num - bit_num / long_has_bit) then 1 else 0) in
    record { bit_num = bit_num; lsize = lsize; pbits = replicate lsize 0 }

abbrev pub word_at : AtomicBitmap → ℕ → ℕ
word_at bm i = get_or bm.pbits i 0

-- What `set`, `reset` and `flip` share: -1 where `pos` is too large, and else the result of the
-- operation of atomic_t on the word of `pos`.
abbrev pub on_word : (ℕ → ℕ → ℤ × ℕ) → ℕ → AtomicBitmap → ℤ × AtomicBitmap
on_word operation p bm =
    let (old, word) = operation (p % long_has_bit) (word_at bm (p / long_has_bit)) in
    if leb bm.bit_num p
    then (negsuc 0, bm)
    else (old, record bm { pbits = set bm.pbits (p / long_has_bit) word })

unfoldable pub set_bit : ℕ → AtomicBitmap → ℤ × AtomicBitmap
set_bit p bm = on_word bit_test_and_set p bm

unfoldable pub reset_bit : ℕ → AtomicBitmap → ℤ × AtomicBitmap
reset_bit p bm = on_word bit_test_and_reset p bm

unfoldable pub flip_bit : ℕ → AtomicBitmap → ℤ × AtomicBitmap
flip_bit p bm = on_word bit_test_and_complement p bm

-- `test`: the masked word is compared with 0 as a `long`.
unfoldable pub test_bit : ℕ → AtomicBitmap → Bool
test_bit p bm =
    if leb bm.bit_num p
    then false
    else ltb 0
        (pos_part (signed64 (bit_and (word_at bm (p / long_has_bit)) (2 ^ (p % long_has_bit)))))

-- `clear`: every byte becomes 0xff where `tag_clear` holds, and 0 where it does not.
unfoldable pub clear : Bool → AtomicBitmap → AtomicBitmap
clear tag_clear bm = record bm { pbits = replicate bm.lsize (if tag_clear then 2 ^ 64 - 1 else 0) }

-- `bsf` of a word that is not 0; the first argument is the word's width.
unfoldable pub bsf : ℕ → ℕ → ℕ
bsf zero v = 0
bsf (suc w) v = if v % 2 == 1 then 0 else suc (bsf w (v / 2))

unfoldable pub bsr : ℕ → ℕ → ℕ
bsr zero v = 0
bsr (suc w) v = if v / 2 == 0 then 0 else suc (bsr w (v / 2))

-- `~` on a word
abbrev pub complement : ℕ → ℕ
complement v = 2 ^ 64 - 1 - v

-- `((unsigned long)(-1)) << bitIndex` and `((unsigned long)(-1)) >> (LONG_HAS_BIT-bitIndex-1)`
unfoldable pub mask_from : ℕ → ℕ
mask_from bit_index = u64 ((2 ^ 64 - 1) * 2 ^ bit_index)

unfoldable pub mask_to : ℕ → ℕ
mask_to bit_index = (2 ^ 64 - 1) / 2 ^ (long_has_bit - bit_index - 1)

-- What is looked for: a bit that is set, or one that is not. A word that is `idle_word` has none, and
-- `candidates` is `val`, the bits that are looked for under the mask.
pub data Sought : Type 0 where
  set_ones unset_ones : Sought

abbrev pub idle_word : Sought → ℕ
idle_word set_ones = 0
idle_word unset_ones = 2 ^ 64 - 1

unfoldable pub candidates : Sought → ℕ → ℕ → ℕ
candidates set_ones word mask = bit_and word mask
candidates unset_ones word mask = complement (bit_or word (complement mask))

-- `return eleIndex*LONG_HAS_BIT+pos` as an `int`
abbrev pub bit_number : ℕ → ℕ → ℤ
bit_number ele_index p = signed32 (u32 (ele_index * long_has_bit + p))

-- The inner loop, over the words that are left: `eleIndex` and `bitIndex` at its end. Behind the last
-- word the code reads memory before it tests the index, and ends whatever it reads.
unfoldable pub skip : Sought → ℕ → List ℕ → ℕ → ℕ → ℕ × ℕ
skip s zero pbits ele_index bit_index = (ele_index, bit_index)
skip s (suc left) pbits ele_index bit_index =
    if get_or pbits ele_index 0 == idle_word s
    then skip s left pbits (ele_index + 1) 0
    else (ele_index, bit_index)

-- The `while(true)`; `none` means that the fuel ran out.
unfoldable pub search_from : Sought → AtomicBitmap → ℕ → ℕ → ℕ → Option ℤ
search_from s bm zero ele_index bit_index = none
search_from s bm (suc fuel) ele_index bit_index =
    let (e, b) = skip s (bm.lsize - ele_index) bm.pbits ele_index bit_index in
    let val = candidates s (word_at bm e) (mask_from b) in
    let rest = search_from s bm fuel (e + 1) 0 in
    if e == bm.lsize
    then some (negsuc 0)
    else if val == 0
    then rest
    else some (bit_number e (bsf 64 val))

-- `findFirstSetBit` and `findFirstUnsetBit`: each turn of the loop but the last goes to a later word.
unfoldable pub find_first : Sought → ℕ → AtomicBitmap → Option ℤ
find_first s start_pos bm =
    if leb bm.bit_num start_pos
    then some (negsuc 0)
    else search_from s bm (bm.lsize + 1) (start_pos / long_has_bit) (start_pos % long_has_bit)

-- The loops that go down. The first number is `eleIndex + 1`, so 0 stands for the index -1, at which
-- the code reads memory too before it tests the index.
unfoldable pub skip_back : Sought → List ℕ → ℕ → ℕ → ℕ × ℕ
skip_back s pbits zero bit_index = (0, bit_index)
skip_back s pbits (suc ele_index) bit_index =
    if get_or pbits ele_index 0 == idle_word s
    then skip_back s pbits ele_index (long_has_bit - 1)
    else (suc ele_index, bit_index)

unfoldable pub search_back : Sought → AtomicBitmap → ℕ → ℕ → ℕ → Option ℤ
search_back s bm zero n bit_index = none
search_back s bm (suc fuel) n bit_index =
    let (n', b) = skip_back s bm.pbits n bit_index in
    let val = candidates s (word_at bm (n' - 1)) (mask_to b) in
    let rest = search_back s bm fuel (n' - 1) (long_has_bit - 1) in
    if n' == 0
    then some (negsuc 0)
    else if val == 0
    then rest
    else some (bit_number (n' - 1) (bsr 64 val))

-- `findFirstSetBit_R` and `findFirstUnsetBit_R`
unfoldable pub find_first_back : Sought → ℕ → AtomicBitmap → Option ℤ
find_first_back s start_pos bm =
    if leb bm.bit_num start_pos
    then some (negsuc 0)
    else search_back s bm (bm.lsize + 1) (start_pos / long_has_bit + 1) (start_pos % long_has_bit)
