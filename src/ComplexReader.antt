-- ===== src/ComplexReader.antt =====
-- The reader of hds_udp/connection/HDS_UDP_Complex_Connection.cpp: it takes packets in any order, and
-- a timer acknowledges them. The outer option of a handler is that of the collector's loop.
pub mod Bytes
pub mod Invariant
pub mod Timers
pub mod Packets
pub mod Delivery
use test_resend.Prelude.{
  ℕ, ◌==◌, if◌then◌else◌, ltb, leb, Bool, true, false, ◌||◌, List, [], ◌∷◌, ◌++◌, Option, none,
  some,
}
use test_resend.Prelude.Int.{ℤ, pos}
use test_resend.Prelude.Words.{sub32}
use test_resend.Atomic.{is_one}
use test_resend.Config.{
  packet_max_data_length, recv_ack_timer, recver_succ_timer as recver_succ_time,
}
use test_resend.Connection.{
  Connection, Effect, MsgType, complex_file_ack, complex_file_sack, msg_reset, TimerType,
  recver_check_dead_timer, connection_suspend_timer, force_reset_timer, recver_ack_timer,
  recver_succ_timer, trans_successfully, trans_time_out, force_stop_bit, trans_suc_bit,
  set_recv_succ_timer_bit, reader_sack_bit, set_status, reset_status, test_status, suspend, timer,
  last_byte, memcpy_at, push_msg,
}
use test_resend.AckCollector.{AckInfoCollector, AckType, ack, sack, set_seq, get_next_ack}
use test_resend.Writer.{count_run}
use test_resend.SimpleReader.{fail_once, reader_suspended, check_dead, reply}

-- `HDS_UDP_Complex_Connection_Reader`
pub record ComplexReader : Type 0 where
  pub base : Connection
  pub open base use *
  pub collector : AckInfoCollector

-- `case Recver_Succ_Timer:`
unfoldable pub succ_timer : Connection → Connection × List Effect
succ_timer c =
    let (first, c') = set_status trans_suc_bit c in
    (c', if first then push_msg c.transmit_buf ∷ [] else [])

-- The message type of an acknowledgement, and the flag of the last one.
unfoldable pub ack_kind : AckType → Connection → MsgType × Connection
ack_kind sack c = (complex_file_sack, (set_status reader_sack_bit c).1)
ack_kind ack c = (complex_file_ack, (reset_status reader_sack_bit c).1)

-- What follows the `kernel_send` of `case Recver_ACK_Timer:`.
unfoldable pub after_ack : ℕ → Connection → Connection × List Effect
after_ack ack_seq c =
    let done = record c { trans_result_code = trans_successfully } in
    let (first, set) = set_status set_recv_succ_timer_bit done in
    if ltb (last_byte c) ack_seq
    then (set, if first then timer (pos recver_succ_time) recver_succ_timer set ∷ [] else [])
    else (c, timer (pos recv_ack_timer) recver_ack_timer c ∷ [])

-- The acknowledgement itself.
unfoldable pub send_ack : AckType → ℕ → ℕ → Connection → Connection × List Effect
send_ack type ack_seq send_time c =
    let (ack_msg_type, marked) = ack_kind type c in
    let (done, effects) = after_ack ack_seq marked in
    (done, reply ack_msg_type send_time ack_seq marked ∷ effects)

-- `case Recver_ACK_Timer:`
unfoldable pub ack_timer : ComplexReader → Option (ComplexReader × List Effect)
ack_timer r = elim (test_status force_stop_bit r.base || test_status trans_suc_bit r.base) [
  | true ↦ some (r, [])
  | false ↦ elim (get_next_ack r.collector) [
    | none ↦ none
    | some (type, ack_seq, send_time, k) ↦
        let (c, effects) = send_ack type ack_seq send_time r.base in
        some (record { base = c; collector = k }, effects)
  ]
]

-- `_reader_conneciton_do_time_out`
unfoldable pub do_time_out : TimerType → ℕ → ComplexReader → Option (ComplexReader × List Effect)
do_time_out force_reset_timer running_count r =
    let (c, effects) = fail_once r.base in some (record r { base = c }, effects)
do_time_out recver_check_dead_timer running_count r =
    let (c, effects) = check_dead running_count r.base in some (record r { base = c }, effects)
do_time_out connection_suspend_timer running_count r =
    let (c, effects) = reader_suspended r.base in some (record r { base = c }, effects)
do_time_out recver_succ_timer running_count r =
    let (c, effects) = succ_timer r.base in some (record r { base = c }, effects)
do_time_out recver_ack_timer running_count r = ack_timer r
do_time_out _ running_count r = some (r, [])

-- The answer of a reader that is stopped or has succeeded.
unfoldable pub finished_reply : ℕ → ℕ → Connection → Effect
finished_reply ack_seq send_time c =
    if leb (sub32 ack_seq c.transmit_buf_length) packet_max_data_length
    then reply complex_file_ack send_time ack_seq c
    else reply msg_reset send_time ack_seq c

-- The copy, unless the collector says that the packet was there.
unfoldable pub store : ℕ → List ℕ → Option ℤ × AckInfoCollector → Connection → ComplexReader
store seq payload (none, k) c = record { base = c; collector = k }
store seq payload (some bit_value, k) c = record {
  base =
      if is_one bit_value
      then c
      else record c { transmit_buf = memcpy_at seq payload c.transmit_buf };
  collector = k;
}

-- `_reader_connection_do_network_data`
unfoldable pub do_network_data :
    ℕ → ℕ → List ℕ → ComplexReader → Option (ComplexReader × List Effect)
do_network_data seq send_time payload r =
    elim (test_status force_stop_bit r.base || test_status trans_suc_bit r.base) [
      | true ↦ elim (get_next_ack r.collector) [
        | none ↦ none
        | some (_, ack_seq, time, k) ↦
            some (record r { collector = k }, finished_reply ack_seq time r.base ∷ [])
      ]
      | false ↦ elim (set_seq seq send_time r.collector) [
        | none ↦ none
        | some result ↦ some (store seq payload result (count_run r.base), [])
      ]
    ]
