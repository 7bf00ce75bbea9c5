-- ===== src/Atomic.antt =====
-- hds_udp/common/atomic_t.h, the branches of a build without WIN32: `atomic_t<long>` and
-- `atomic_t<unsigned long>` as a word of 64 bits. A method returns its result and the new word.
-- Each method is one indivisible step, as the `__sync` builtins that it calls promise.
pub mod Bits
use Prim.Native.Nat.{bit_and, bit_or, bit_xor}
use test_resend.Prelude.{ℕ, ◌+◌, ◌^◌, ◌%◌, ◌==◌, if◌then◌else◌, ltb, Bool, true, false}
use test_resend.Prelude.Words.{u32, add64, sub64}
use test_resend.Prelude.Int.{ℤ, pos, negsuc, pos_part, sar, signed64}
use test_resend.Prelude.Digits.{bit_clear}

-- `AtomicExchange`
abbrev pub exchange : ℕ → ℕ → ℕ × ℕ
exchange t1 val = (val, t1)

-- `CompareExchange`
abbrev pub compare_exchange : ℕ → ℕ → ℕ → ℕ × ℕ
compare_exchange set_value comparend val = (val, if val == comparend then set_value else val)

-- `operator ++(int)` and `operator --(int)`: the old word is returned.
abbrev pub post_increment : ℕ → ℕ × ℕ
post_increment val = (val, add64 val 1)

abbrev pub post_decrement : ℕ → ℕ × ℕ
post_decrement val = (val, sub64 val 1)

-- `operator ++()` returns the new word as an `int`, so its upper half is lost.
abbrev pub pre_increment : ℕ → ℕ × ℕ
pre_increment val = (u32 (add64 val 1), add64 val 1)

-- `add`
abbrev pub fetch_add : ℕ → ℕ → ℕ × ℕ
fetch_add t1 val = (val, add64 val t1)

-- `(old & offset_t) >> offset`, on a `long`
abbrev pub shifted_bit : ℕ → ℕ → ℤ
shifted_bit offset old = sar (signed64 (bit_and old (2 ^ offset))) offset

-- `AtomicBitTestAndSet`
unfoldable pub bit_test_and_set : ℕ → ℕ → ℤ × ℕ
bit_test_and_set offset val = (shifted_bit offset val, bit_or val (2 ^ offset))

-- `AtomicBitTestAndReset`
unfoldable pub bit_test_and_reset : ℕ → ℕ → ℤ × ℕ
bit_test_and_reset offset val = (shifted_bit offset val, bit_clear val (2 ^ offset))

-- `AtomicBitTestAndComplement`: the carry flag, as 0 or 1.
unfoldable pub bit_test_and_complement : ℕ → ℕ → ℤ × ℕ
bit_test_and_complement offset val =
    (if bit_and val (2 ^ offset) == 0 then pos 0 else pos 1, bit_xor val (2 ^ offset))

-- `BitTest`: the masked word is compared with 0 as a `long`.
unfoldable pub bit_test : ℕ → ℕ → ℤ
bit_test offset val =
    if ltb 0 (pos_part (signed64 (bit_and val (2 ^ offset)))) then pos 1 else pos 0

-- How the callers test a result: `== 0` and `== 1`.
abbrev pub is_zero : ℤ → Bool
is_zero (pos n) = n == 0
is_zero (negsuc n) = false

abbrev pub is_one : ℤ → Bool
is_one (pos n) = n == 1
is_one (negsuc n) = false
