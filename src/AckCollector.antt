-- ===== src/AckCollector.antt =====
-- hds_udp/connection/HDS_UDP_Connection_Ack_Info_Collector.{h,cpp}: which packets of a complex
-- transfer have arrived, and the next cumulative acknowledgement. A `unsigned int` is a number
-- below 2 ^ 32, a `long` its 64-bit pattern.
pub mod Bitmap
pub mod Repr
pub mod Refine
pub mod Ack
use test_resend.Prelude.{
  ℕ, zero, suc, ◌+◌, ◌-◌, ◌*◌, ◌/◌, ◌%◌, ◌^◌, ◌==◌, if◌then◌else◌, ltb, leb, Bool, true, false,
  Option, none, some, List, get_or, set, replicate,
}
use test_resend.Prelude.Int.{ℤ}
use test_resend.Prelude.Words.{u32, u64, add64, sub32}
use test_resend.Config.{packet_max_data_length}
pub use test_resend.AtomicBitmap.{long_has_bit}
use test_resend.Atomic.{bit_test_and_set, bit_test_and_reset, exchange, compare_exchange, is_zero}

-- `MAX_BIT_NUM` and `MAX_LONG_NUM`
abbrev pub max_bit_num : ℕ
max_bit_num = 3072

abbrev pub max_long_num : ℕ
max_long_num = 48

pub data AckType : Type 0 where
  ack sack : AckType

pub record AckInfoCollector : Type 0 where
  pub bitmap : List ℕ
  pub last_ack_pos : ℕ
  pub max_seq : ℕ
  pub ack_time : ℕ
  pub last_recv_time : ℕ

-- The constructor.
abbrev pub init : AckInfoCollector
init = record {
  bitmap = replicate max_long_num 0;
  last_ack_pos = 0;
  max_seq = 0;
  ack_time = 0;
  last_recv_time = 0;
}

-- `(long)x` of an `int`: the sign is extended.
abbrev pub long_of_int : ℕ → ℕ
long_of_int x = if ltb x (2 ^ 31) then x else x + (2 ^ 64 - 2 ^ 32)

-- `_bitmap[pos/LONG_HAS_BIT].AtomicBitTestAndSet(pos%LONG_HAS_BIT)`
unfoldable pub bitmap_test_and_set : ℕ → List ℕ → ℤ × List ℕ
bitmap_test_and_set pos bitmap =
    let (old, word) =
      bit_test_and_set (pos % long_has_bit) (get_or bitmap (pos / long_has_bit) 0) in
    (old, set bitmap (pos / long_has_bit) word)

unfoldable pub bitmap_test_and_reset : ℕ → List ℕ → ℤ × List ℕ
bitmap_test_and_reset pos bitmap =
    let (old, word) =
      bit_test_and_reset (pos % long_has_bit) (get_or bitmap (pos / long_has_bit) 0) in
    (old, set bitmap (pos / long_has_bit) word)

-- The `while(true)` of `_get_next_ack`; `none` means that the fuel ran out.
unfoldable pub advance : ℕ → AckInfoCollector → Option AckInfoCollector
advance zero c = none
advance (suc fuel) c =
    let start_ack_pos = u32 c.last_ack_pos in
    let (old, bitmap) = bitmap_test_and_reset (start_ack_pos % max_bit_num) c.bitmap in
    elim (is_zero old) [
      | true ↦ some (record c { bitmap = bitmap })
      | false ↦ advance fuel (record c {
        bitmap = bitmap;
        last_ack_pos = (compare_exchange (start_ack_pos + 1) start_ack_pos c.last_ack_pos).1;
      })
    ]

-- What follows `find_done:`.
unfoldable pub ack_of : AckInfoCollector → AckType × ℕ
ack_of c =
    let seq = u32 (c.last_ack_pos * packet_max_data_length) in
    (if c.max_seq == sub32 seq packet_max_data_length then ack else sack, seq)

-- `_get_next_ack`: the loop resets a bit each round, so it ends within `max_bit_num + 1` rounds.
unfoldable pub get_next_ack_pos : AckInfoCollector → Option (AckType × ℕ × AckInfoCollector)
get_next_ack_pos c = elim (advance (max_bit_num + 1) c) [
  | none ↦ none
  | some c' ↦ let (type, seq) = ack_of c' in some (type, seq, c')
]

-- The end of `set`, from the first `CompareExchange` on.
unfoldable pub record_arrival : ℕ → ℕ → AckInfoCollector → ℤ × AckInfoCollector
record_arrival inpos recv_time c =
    let (old, bitmap) = bitmap_test_and_set (inpos % max_bit_num) c.bitmap in
    (
      old,
      record c {
        bitmap = bitmap;
        ack_time = (compare_exchange (long_of_int recv_time) 0 c.ack_time).1;
        last_recv_time = long_of_int recv_time;
      },
    )

-- `if(seq > _max_seq.value()) _max_seq = seq;`
unfoldable pub raise_max_seq : ℕ → AckInfoCollector → AckInfoCollector
raise_max_seq seq c = if ltb c.max_seq seq then record c { max_seq = seq } else c

-- `set` after the loop has moved `_last_ack_pos` on: the window is tested once more.
pub set_after_squeeze : ℕ → ℕ → AckInfoCollector → Option ℤ × AckInfoCollector
set_after_squeeze inpos recv_time c =
    let (old, after) = record_arrival inpos recv_time c in
    if leb (add64 c.last_ack_pos max_bit_num) inpos then (none, c) else (some old, after)

-- `set` from the test of `_last_ack_pos` on.
unfoldable pub set_pos : ℕ → ℕ → AckInfoCollector → Option (Option ℤ × AckInfoCollector)
set_pos inpos recv_time c =
    let (old, after) = record_arrival inpos recv_time c in
    let squeezed : Option (Option ℤ × AckInfoCollector) = elim (advance (max_bit_num + 1) c) [
      | none ↦ none
      | some c' ↦ some (set_after_squeeze inpos recv_time c')
    ] in
    if ltb inpos c.last_ack_pos
    then some (none, c)
    else if leb (add64 c.last_ack_pos max_bit_num) inpos
    then squeezed
    else some (some old, after)

-- `set`: `none` is the result -1, and `some old` is the result 0 with `*oldvalue = old`. The outer
-- option is that of `advance`.
unfoldable pub set_seq : ℕ → ℕ → AckInfoCollector → Option (Option ℤ × AckInfoCollector)
set_seq seq recv_time c = set_pos (seq / packet_max_data_length) recv_time (raise_max_seq seq c)

-- `get_next_ack`: the type, `seq`, the `int` pattern of `ack_time`, and the new state.
unfoldable pub get_next_ack : AckInfoCollector → Option (AckType × ℕ × ℕ × AckInfoCollector)
get_next_ack c =
    let ack_time = u32 (exchange 0 c.ack_time).0 in
    let time = if ack_time == 0 then u32 c.last_recv_time else ack_time in
    elim (get_next_ack_pos (record c { ack_time = (exchange 0 c.ack_time).1 })) [
      | none ↦ none
      | some (type, seq, c') ↦ some (type, seq, time, c')
    ]
