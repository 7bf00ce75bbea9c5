-- ===== src/SimpleReader.antt =====
-- The reader of hds_udp/connection/HDS_UDP_Simple_Connection.cpp: it takes the packets in order,
-- and acknowledges each by its cursor.
use test_resend.Prelude.{
  ℕ, ◌+◌, ◌/◌, ◌==◌, if◌then◌else◌, ltb, leb, Bool, ◌&&◌, ◌||◌, List, [], ◌∷◌, ◌++◌,
}
use test_resend.Prelude.Int.{pos}
use test_resend.Prelude.Words.{u32, add32, sub64, add64}
use test_resend.Atomic.{compare_exchange}
use test_resend.Config.{packet_max_data_length, connection_recv_check_dead_time}
use test_resend.Connection.{
  Connection, Effect, Packet, MsgType, simple_file_ack, msg_reset, TimerType,
  recver_check_dead_timer, connection_suspend_timer, force_reset_timer, TransResultCode,
  trans_successfully, trans_time_out, force_stop_bit, trans_suc_bit, in_recv_wait_ack_queue_bit,
  set_status, reset_status, test_status, suspend, timer, last_byte, memcpy_at, kernel_send,
  push_msg, release_connection_id, recv_failed_and_clean_data, erase_recv_wait_ack, free_connection,
}
use test_resend.Writer.{count_run}

-- `HDS_UDP_Simple_Connection_Reader`
pub record SimpleReader : Type 0 where
  pub base : Connection
  pub open base use *
  pub memcpy_count : ℕ

-- `reader_do_connection_sended_handle_and_clean_data`, which does nothing after a success.
unfoldable pub failed_and_clean : TransResultCode → List Effect
failed_and_clean trans_successfully = []
failed_and_clean code = recv_failed_and_clean_data code ∷ []

-- `if(set_connection_trans_succ(reader)==0) reader_do_connection_sended_handle_and_clean_data();`
unfoldable pub fail_once : Connection → Connection × List Effect
fail_once c =
    let (first, c') = set_status trans_suc_bit c in
    (c', if first then failed_and_clean c.trans_result_code else [])

-- `free_connetcion` of a reader.
unfoldable pub free_reader : Connection → Connection × List Effect
free_reader c =
    let (queued, c') = reset_status in_recv_wait_ack_queue_bit c in
    (c', (if queued then erase_recv_wait_ack ∷ [] else []) ++ (free_connection ∷ []))

-- `case Connection_Suspend_Timer:` of a reader, the same in both kinds.
unfoldable pub reader_suspended : Connection → Connection × List Effect
reader_suspended c =
    let (failed, effects) = fail_once c in
    let (freed, rest) = free_reader failed in (freed, effects ++ (release_connection_id ∷ rest))

-- `case Recver_Check_Dead_Timer:` of a reader, the same in both kinds.
unfoldable pub check_dead : ℕ → Connection → Connection × List Effect
check_dead running_count c =
    if c.running_count == running_count
    then suspend (record c { trans_result_code = trans_time_out })
    else (c, timer (pos connection_recv_check_dead_time) recver_check_dead_timer c ∷ [])

-- `_reader_conneciton_do_time_out`
unfoldable pub do_time_out : TimerType → ℕ → SimpleReader → SimpleReader × List Effect
do_time_out force_reset_timer running_count r =
    let (c, effects) = fail_once r.base in (record r { base = c }, effects)
do_time_out recver_check_dead_timer running_count r =
    let (c, effects) = check_dead running_count r.base in (record r { base = c }, effects)
do_time_out connection_suspend_timer running_count r =
    let (c, effects) = reader_suspended r.base in (record r { base = c }, effects)
do_time_out _ running_count r = (r, [])

-- An answer without payload.
abbrev pub reply_packet : MsgType → ℕ → ℕ → Connection → Packet
reply_packet msgtype send_time dt_note c = record {
  msgtype = msgtype;
  con_id = c.con_id;
  send_time = send_time;
  dt_note = dt_note;
  payload = [];
}

abbrev pub reply : MsgType → ℕ → ℕ → Connection → Effect
reply msgtype send_time dt_note c = kernel_send (reply_packet msgtype send_time dt_note c)

-- The answer of a reader that is stopped or has succeeded.
unfoldable pub finished_reply : ℕ → ℕ → Connection → Effect
finished_reply seq send_time c =
    if leb (sub64 c.left_window_cursor c.transmit_buf_length) packet_max_data_length
    then reply simple_file_ack send_time (u32 c.left_window_cursor) c
    else reply msg_reset send_time seq c

-- `_left_window_cursor` and `_memcpy_count` say that every packet is in the buffer.
unfoldable pub complete : SimpleReader → Bool
complete r =
    ltb (last_byte r.base) r.left_window_cursor
    && (r.memcpy_count == last_byte r.base / packet_max_data_length + 1)

-- The delivery, at the first time that the transfer is complete.
unfoldable pub deliver : SimpleReader → SimpleReader × List Effect
deliver r =
    let (first, c) = set_status trans_suc_bit r.base in
    let won = record c { trans_result_code = trans_successfully } in
    if complete r
    then (if first
        then (record r { base = won }, push_msg r.transmit_buf ∷ [])
        else (record r { base = c }, []))
    else (r, [])

-- The packet that the cursor waits for.
unfoldable pub take_packet : ℕ → List ℕ → SimpleReader → SimpleReader × List Effect
take_packet seq payload r =
    let (_, cursor) =
      compare_exchange (add32 seq packet_max_data_length) seq r.left_window_cursor in
    deliver (record r {
      base = record r.base {
        left_window_cursor = cursor;
        transmit_buf = memcpy_at seq payload r.transmit_buf;
      };
      memcpy_count = add64 r.memcpy_count 1;
    })

-- `_reader_connection_do_network_data`
unfoldable pub do_network_data : ℕ → ℕ → List ℕ → SimpleReader → SimpleReader × List Effect
do_network_data seq send_time payload r0 =
    let r = record r0 { base = count_run r0.base } in
    let (taken, effects) =
      let next = take_packet seq payload r in
      if r.left_window_cursor == seq then next else (r, []) in
    if test_status force_stop_bit r0.base || test_status trans_suc_bit r0.base
    then (r0, finished_reply seq send_time r0.base ∷ [])
    else (
      taken,
      effects ++ (reply simple_file_ack send_time (u32 taken.left_window_cursor) taken.base ∷ []),
    )
