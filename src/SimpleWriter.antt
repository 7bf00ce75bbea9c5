-- ===== src/SimpleWriter.antt =====
-- The writer of hds_udp/connection/HDS_UDP_Simple_Connection.cpp: stop and wait, one packet at a
-- time. A handler returns the writer and the effects of its calls; the clock is an argument.
use test_resend.Prelude.{ℕ, ◌==◌, if◌then◌else◌, ltb, List, [], ◌∷◌, none, some}
use test_resend.Prelude.Words.{u32}
use test_resend.Atomic.{pre_increment}
use test_resend.Config.{connection_send_try_time}
use test_resend.Cursor.{set_left_window_cursor}
use test_resend.Connection.{
  Connection, Effect, Packet, MsgType, simple_file_require, simple_file_require_duplicate,
  simple_file_data, TimerType, sender_keeping_timer, connection_suspend_timer, trans_time_out,
  trans_successfully, force_stop_bit, has_send_require_bit, set_status, test_status, suspend,
  add_to_sender_queue, timer, last_byte, fill_data, kernel_send, count_time_out,
}
use test_resend.Writer.{Writer, rto_double, rto_sample, count_run, writer_suspended}

-- The rest of `case Sender_Keeping_Timer:`, when nothing has happened since the timer was set.
unfoldable pub keep_sending : Writer → Writer × List Effect
keep_sending w =
    let (tries, try_time) = pre_increment w.try_time in
    let tried = record w { try_time = try_time } in
    let dead = suspend (record w.base { trans_result_code = trans_time_out }) in
    let doubled = rto_double tried in
    let queued = add_to_sender_queue doubled.base in
    if tries == connection_send_try_time
    then (record tried { base = dead.0 }, count_time_out ∷ dead.1)
    else (record doubled { base = queued.0 }, count_time_out ∷ queued.1)

-- `_writer_conneciton_do_time_out`
unfoldable pub do_time_out : TimerType → ℕ → Writer → Writer × List Effect
do_time_out connection_suspend_timer running_count w =
    let (c, effects) = writer_suspended w.base in (record w { base = c }, effects)
do_time_out sender_keeping_timer running_count w =
    if w.running_count == running_count then keep_sending w else (w, [])
do_time_out _ running_count w = (w, [])

-- The message type and `dt_note` for the packet at `seq`, and the connection after the
-- `set_connection_status_has_send_require` of the first one.
unfoldable pub packet_kind : ℕ → Connection → MsgType × ℕ × Connection
packet_kind seq c =
    let (first, c') = set_status has_send_require_bit c in
    if seq == 0
    then (
      if first then simple_file_require else simple_file_require_duplicate,
      c.transmit_buf_length,
      c',
    )
    else (simple_file_data, seq, c)

-- The end of `_writer_conneciton_do_send`, from `HDS_WriteCDR cdr(sender_buf)` on.
unfoldable pub send_packet : ℕ → ℕ → Writer → Writer × List Effect
send_packet con_clock seq w =
    let (msgtype, dt_note, c) = packet_kind seq w.base in
    let sent = count_run c in
    let packet : Packet = record {
      msgtype = msgtype;
      con_id = c.con_id;
      send_time = con_clock;
      dt_note = dt_note;
      payload = fill_data seq c;
    } in
    (record w { base = sent }, kernel_send packet ∷ timer w.rtt.rto sender_keeping_timer sent ∷ [])

-- `_writer_conneciton_do_send`
unfoldable pub do_send : ℕ → Writer → Writer × List Effect
do_send con_clock w =
    let stopped = suspend w.base in
    let seq = u32 w.left_window_cursor in
    if test_status force_stop_bit w.base
    then (record w { base = stopped.0 }, stopped.1)
    else if ltb (last_byte w.base) seq
    then (w, [])
    else send_packet con_clock seq w

-- `_writer_connection_do_network_data` after the cursor has moved.
unfoldable pub acknowledged : ℕ → ℕ → ℕ → Writer → Writer × List Effect
acknowledged con_clock seq send_time w =
    let c = count_run w.base in
    let done = suspend (record c { trans_result_code = trans_successfully }) in
    let sampled = rto_sample con_clock send_time (record w { base = c }) in
    let queued = add_to_sender_queue sampled.base in
    if ltb (last_byte w.base) seq
    then (record w { base = done.0 }, done.1)
    else (record sampled { base = queued.0 }, queued.1)

-- `_writer_connection_do_network_data`
unfoldable pub do_network_data : ℕ → ℕ → ℕ → Writer → Writer × List Effect
do_network_data con_clock seq send_time w0 =
    let w = record w0 { try_time = 0 } in
    elim (set_left_window_cursor seq w.left_window_cursor) [
      | none ↦ (w, [])
      | some (res, cursor) ↦
          let moved = record w { base = record w.base { left_window_cursor = cursor } } in
          if res then acknowledged con_clock seq send_time moved else (moved, [])
    ]
