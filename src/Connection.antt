-- ===== src/Connection.antt =====
-- hds_udp/connection/HDS_UDP_Connection.{h,cpp}: the part of a connection that writers and readers
-- share, its status bits, and what a handler asks of the rest of the system. A handler runs as one
-- step; what it calls outside the connection is a list of effects, in the order of the calls.
pub mod Status
pub mod Chain
use test_resend.Prelude.{
  ℕ, ◌+◌, ◌-◌, ◌==◌, if◌then◌else◌, ltb, Bool, true, false, List, [], ◌∷◌, ◌++◌, take, drop, length,
}
use test_resend.Prelude.Int.{ℤ, pos}
use test_resend.Prelude.Words.{sub32, add64}
use test_resend.Atomic.{bit_test_and_set, bit_test_and_reset, bit_test, is_zero, is_one}
use test_resend.Config.{packet_max_data_length, connection_max_suspend_time}
use test_resend.Wire.{ConnectionId}

-- `TRANS_RESULT_CODE`; `unset` is the 0 that `memset` leaves.
pub data TransResultCode : Type 0 where
  unset trans_successfully trans_time_out trans_rejected trans_nat_failed trans_unkown
        trans_guid_conflict trans_force_stop trans_kernel_no_space trans_reset trans_connect_err :
      TransResultCode

-- The message types of hds_udp/config/HDS_UDP_Kernel_Config.h.
pub data MsgType : Type 0 where
  simple_file_require simple_file_data simple_file_ack simple_file_rejected
        simple_file_require_duplicate complex_file_require complex_file_data complex_file_ack
        complex_file_rejected complex_file_sack complex_file_require_duplicate msg_reset :
      MsgType

-- `Connection_Timer_Type`
pub data TimerType : Type 0 where
  sender_keeping_timer recver_check_dead_timer connection_suspend_timer force_reset_timer
        recver_ack_timer recver_succ_timer :
      TimerType

-- A packet on the wire, as `CONNECTION_FILL_HEADER` and `CONNECTION_FILL_DATA` compose it.
pub record Packet : Type 0 where
  pub msgtype : MsgType
  pub con_id : ConnectionId
  pub send_time : ℕ
  pub dt_note : ℕ
  pub payload : List ℕ

-- `struct connection`, without the addresses and the function pointers.
pub record Connection : Type 0 where
  pub con_id : ConnectionId
  pub running_count : ℕ
  pub trans_result_code : TransResultCode
  pub status : ℕ
  pub transmit_buf : List ℕ
  pub transmit_buf_length : ℕ
  pub left_window_cursor : ℕ

pub data Effect : Type 0 where
  kernel_send : Packet → Effect
  add_timer : ℤ → TimerType → ℕ → Effect
  add_to_send_queue : Effect
  suspend_connection_id : Effect
  release_connection_id : Effect
  sended_handle_and_clean_data : TransResultCode → Effect
  recv_failed_and_clean_data : TransResultCode → Effect
  push_msg : List ℕ → Effect
  erase_recv_wait_ack : Effect
  count_time_out : Effect
  free_connection : Effect

-- The offsets of the status bits.
abbrev pub trans_suc_bit : ℕ
trans_suc_bit = 0

abbrev pub buf_clean_bit : ℕ
buf_clean_bit = 1

abbrev pub force_stop_bit : ℕ
force_stop_bit = 2

abbrev pub connection_type_bit : ℕ
connection_type_bit = 3

abbrev pub in_sender_bit : ℕ
in_sender_bit = 4

abbrev pub reback_sender_bit : ℕ
reback_sender_bit = 5

abbrev pub reflesh_rto_bit : ℕ
reflesh_rto_bit = 6

abbrev pub has_send_require_bit : ℕ
has_send_require_bit = 7

abbrev pub has_sack_bit : ℕ
has_sack_bit = 8

abbrev pub has_time_out_bit : ℕ
has_time_out_bit = 9

abbrev pub doing_ack_bit : ℕ
doing_ack_bit = 10

abbrev pub still_doing_sack_bit : ℕ
still_doing_sack_bit = 11

abbrev pub sack_has_new_ack_bit : ℕ
sack_has_new_ack_bit = 12

-- The bits that a reader uses from 4 on.
abbrev pub in_recv_wait_ack_queue_bit : ℕ
in_recv_wait_ack_queue_bit = 4

abbrev pub set_recv_succ_timer_bit : ℕ
set_recv_succ_timer_bit = 5

abbrev pub reader_sack_bit : ℕ
reader_sack_bit = 6

-- The `set_connection_…` macros: whether the old bit was 0, and the connection with the bit set.
unfoldable pub set_status : ℕ → Connection → Bool × Connection
set_status offset c =
    let (old, status) = bit_test_and_set offset c.status in
    (is_zero old, record c { status = status })

-- The `reset_connection_…` macros: whether the old bit was 1, and the connection with the bit clear.
unfoldable pub reset_status : ℕ → Connection → Bool × Connection
reset_status offset c =
    let (old, status) = bit_test_and_reset offset c.status in
    (is_one old, record c { status = status })

-- The `test_connection_…` macros.
unfoldable pub test_status : ℕ → Connection → Bool
test_status offset c = is_one (bit_test offset c.status)

-- `add_to_timer_queue`: the timer carries the running count of the moment.
abbrev pub timer : ℤ → TimerType → Connection → Effect
timer due type c = add_timer due type c.running_count

-- `if(set_connection_trans_suspend(con)==0){suspend_connection_ID();add_to_timer_queue(…);}`
unfoldable pub suspend : Connection → Connection × List Effect
suspend c =
    let (first, c') = set_status buf_clean_bit c in
    (
      c',
      if first
          then suspend_connection_id
            ∷ timer (pos connection_max_suspend_time) connection_suspend_timer c'
            ∷ []
          else [],
    )

-- `Connection_Writer::add_to_sender_queue`
unfoldable pub add_to_sender_queue : Connection → Connection × List Effect
add_to_sender_queue c =
    let (first, c') = set_status in_sender_bit c in
    if first then (c', add_to_send_queue ∷ []) else ((set_status reback_sender_bit c').1, [])

-- `writer->_transmit_buf_length-1`, on an `unsigned int`.
abbrev pub last_byte : Connection → ℕ
last_byte c = sub32 c.transmit_buf_length 1

-- `CONNECTION_FILL_DATA` with a `_transmit_buf`: the bytes from `seq` on, at most a packet full.
unfoldable pub copy_size : ℕ → ℕ → ℕ
copy_size seq transmit_buf_length =
    let rest = sub32 transmit_buf_length seq in
    if ltb packet_max_data_length rest then packet_max_data_length else rest

unfoldable pub fill_data : ℕ → Connection → List ℕ
fill_data seq c = take (copy_size seq c.transmit_buf_length) (drop seq c.transmit_buf)

-- `memcpy(reader->_transmit_buf+seq,recv_data,recv_data_length)`, within the buffer.
unfoldable pub memcpy_at : ℕ → List ℕ → List ℕ → List ℕ
memcpy_at seq recv_data buf = take seq buf ++ (recv_data ++ drop (seq + length recv_data) buf)
