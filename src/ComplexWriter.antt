-- ===== src/ComplexWriter.antt =====
-- The writer of hds_udp/connection/HDS_UDP_Complex_Connection.{h,cpp}: a sliding window with slow
-- start, congestion avoidance and retransmission. A handler returns the writer and the effects of its
-- calls. The window increase factor is a `float`: its arithmetic is the language's, not the program's,
-- so it is a parameter.
pub mod Sizes
pub mod Window
pub mod Signals
pub mod Sending
pub mod Retransmit
use test_resend.Prelude.{
  ℕ, zero, suc, ◌+◌, ◌*◌, ◌/◌, ◌%◌, ◌^◌, ◌==◌, if◌then◌else◌, ltb, leb, Bool, true, false, List, [],
  ◌∷◌, ◌++◌, Option, none, some,
}
use test_resend.Prelude.Words.{u32, add32, sub64, add64}
use test_resend.Atomic.{pre_increment}
use test_resend.Config.{packet_max_data_length, connection_send_try_time, default_ssthresh_size}
use test_resend.Cursor.{set_left_window_cursor}
use test_resend.Connection.{
  Connection, Effect, Packet, MsgType, complex_file_require, complex_file_require_duplicate,
  complex_file_data, TimerType, sender_keeping_timer, connection_suspend_timer, trans_time_out,
  trans_successfully, force_stop_bit, has_send_require_bit, has_sack_bit, has_time_out_bit,
  doing_ack_bit, still_doing_sack_bit, sack_has_new_ack_bit, reback_sender_bit, set_status,
  reset_status, test_status, suspend, add_to_sender_queue, timer, last_byte, fill_data, kernel_send,
  count_time_out,
}
use test_resend.Writer.{Writer, rto_double, rto_sample, count_run, writer_suspended}

-- What the code does with `_ack_seq_window_increase_factor`.
pub record FactorOps (Factor : Type 0) : Type 0 where
  -- `1.0f`
  pub one : Factor
  -- `*=0.5f`
  pub halve : Factor → Factor
  -- `+=0.05f`, and then at most `1.0f`
  pub raise : Factor → Factor
  -- `(unsigned long)(factor * seq_interval)`
  pub scale : Factor → ℕ → ℕ

-- `class HDS_UDP_Complex_Connection_Writer`
pub record ComplexWriter (Factor : Type 0) : Type 0 where
  pub writer : Writer
  pub open writer use *
  pub current_window_cursor : ℕ
  pub old_current_window_cursor : ℕ
  pub right_window_cursor : ℕ
  pub window_site : ℕ
  pub window_ssthresh : ℕ
  pub default_window_size : ℕ
  pub sack_seq : ℕ
  pub ack_seq_window_increase_factor : Factor
  pub sack_same_count : ℕ

module _ {Factor : Type 0} (ops : FactorOps Factor) where
  unfoldable pub with_base : Connection → ComplexWriter Factor → ComplexWriter Factor
  with_base c w = record w { writer = record w.writer { base = c } }

  -- `_writer_congestion`
  unfoldable pub congestion : ComplexWriter Factor → ComplexWriter Factor
  congestion w =
      let half = w.window_ssthresh / 2 in
      record w {
        window_ssthresh = if ltb half packet_max_data_length then packet_max_data_length else half;
        window_site = packet_max_data_length;
        old_current_window_cursor = w.current_window_cursor;
        right_window_cursor = w.current_window_cursor;
        ack_seq_window_increase_factor = ops.halve w.ack_seq_window_increase_factor;
      }

  -- The congestion of a time-out, unless an acknowledgement is being handled.
  unfoldable pub congestion_locked : ComplexWriter Factor → ComplexWriter Factor
  congestion_locked w =
      let (free, locked) = set_status doing_ack_bit w.base in
      let congested = congestion (with_base locked w) in
      if free
      then with_base (reset_status doing_ack_bit congested.base).1 congested
      else with_base locked w

  -- The rest of `case Sender_Keeping_Timer:`, when nothing has happened since the timer was set.
  unfoldable pub keep_sending : ComplexWriter Factor → ComplexWriter Factor × List Effect
  keep_sending w =
      let (tries, try_time) = pre_increment w.try_time in
      let tried = record w { writer = record w.writer { try_time = try_time } } in
      let dead = suspend (record w.base { trans_result_code = trans_time_out }) in
      let congested = congestion_locked (record tried { writer = rto_double tried.writer }) in
      let marked = (set_status has_time_out_bit congested.base).1 in
      let queued = add_to_sender_queue marked in
      if tries == connection_send_try_time
      then (with_base dead.0 tried, count_time_out ∷ dead.1)
      else (with_base queued.0 congested, count_time_out ∷ queued.1)

  -- `_writer_conneciton_do_time_out`
  unfoldable pub do_time_out :
      TimerType → ℕ → ComplexWriter Factor → ComplexWriter Factor × List Effect
  do_time_out connection_suspend_timer running_count w =
      let (c, effects) = writer_suspended w.base in (with_base c w, effects)
  do_time_out sender_keeping_timer running_count w =
      if w.running_count == running_count then keep_sending w else (w, [])
  do_time_out _ running_count w = (w, [])

  -- The three tests of `process_sender_msg_bit`, in their order.
  unfoldable pub after_time_out : ComplexWriter Factor → ComplexWriter Factor
  after_time_out w =
      let (marked, c) = reset_status has_time_out_bit w.base in
      let reset = with_base c w in
      if marked then record reset { current_window_cursor = u32 w.left_window_cursor } else reset

  unfoldable pub after_sack : ComplexWriter Factor → ComplexWriter Factor
  after_sack w =
      let (marked, c) = reset_status has_sack_bit w.base in
      let reset = with_base (set_status still_doing_sack_bit c).1 w in
      if marked
      then record reset { current_window_cursor = u32 w.left_window_cursor }
      else with_base c w

  unfoldable pub after_new_ack : ComplexWriter Factor → ComplexWriter Factor
  after_new_ack w =
      let (marked, c) = reset_status sack_has_new_ack_bit w.base in
      let reset = with_base c w in
      if marked then record reset { current_window_cursor = w.old_current_window_cursor } else reset

  -- `process_sender_msg_bit`
  unfoldable pub process_sender_msg_bit : ComplexWriter Factor → ComplexWriter Factor
  process_sender_msg_bit w = after_new_ack (after_sack (after_time_out w))

  -- The message type and `dt_note` for the packet at the current cursor, and the connection after the
  -- `set_connection_status_has_send_require` of a first packet.
  unfoldable pub packet_kind : ℕ → Connection → MsgType × ℕ × Connection
  packet_kind seq c =
      let (first, c') = set_status has_send_require_bit c in
      if seq == 0
      then (
        if first then complex_file_require else complex_file_require_duplicate,
        c.transmit_buf_length,
        c',
      )
      else (complex_file_data, seq, c)

  -- The body of the loop of `_writer_conneciton_do_send`, from `msgtype = …` on.
  unfoldable pub send_packet : ℕ → ComplexWriter Factor → ComplexWriter Factor × Effect
  send_packet con_clock w =
      let (msgtype, dt_note, c) = packet_kind w.current_window_cursor w.base in
      let packet : Packet = record {
        msgtype = msgtype;
        con_id = c.con_id;
        send_time = con_clock;
        dt_note = dt_note;
        payload = fill_data w.current_window_cursor c;
      } in
      (
        record (with_base (count_run c) w) {
          current_window_cursor = add32 w.current_window_cursor packet_max_data_length;
        },
        kernel_send packet,
      )

  -- The condition of the loop.
  unfoldable pub may_send : ComplexWriter Factor → Bool
  may_send w =
      if ltb w.current_window_cursor w.right_window_cursor
      then ltb w.current_window_cursor w.transmit_buf_length
      else false

  unfoldable pub keeping_timer : ComplexWriter Factor → Effect
  keeping_timer w = timer w.rtt.rto sender_keeping_timer w.base

  -- The loop and what follows it: `left` is 16 less `send_count`, and the clock is read for each packet.
  unfoldable pub send_loop : (ℕ → ℕ) → ℕ → ComplexWriter Factor → ComplexWriter Factor × List Effect
  send_loop clock zero w =
      let processed = process_sender_msg_bit w in
      let back = with_base (set_status reback_sender_bit processed.base).1 processed in
      if may_send w then (back, keeping_timer back ∷ []) else (w, keeping_timer w ∷ [])
  send_loop clock (suc left) w =
      let sent = send_packet (clock left) (process_sender_msg_bit w) in
      let rest = send_loop clock left sent.0 in
      if may_send w then (rest.0, sent.1 ∷ rest.1) else (w, keeping_timer w ∷ [])

  -- `_writer_conneciton_do_send`
  unfoldable pub do_send : (ℕ → ℕ) → ComplexWriter Factor → ComplexWriter Factor × List Effect
  do_send clock w =
      let stopped = suspend w.base in
      if test_status force_stop_bit w.base
      then (with_base stopped.0 w, stopped.1)
      else send_loop clock 16 (process_sender_msg_bit w)

  -- The count of equal acknowledgements, and whether this one ends a repair.
  unfoldable pub count_sack : ℕ → ComplexWriter Factor → Bool × ComplexWriter Factor
  count_sack seq w =
      let fresh = record w { sack_seq = seq; sack_same_count = 1 } in
      let (ended, c) = reset_status still_doing_sack_bit w.base in
      if w.sack_seq == seq
      then (false, record w { sack_same_count = add32 w.sack_same_count 1 })
      else if leb w.current_window_cursor seq
      then (ended, with_base c fresh)
      else (false, fresh)

  -- The window of congestion avoidance: at most the default one, and not below the present one.
  unfoldable pub avoidance_size : ℕ → ComplexWriter Factor → ℕ
  avoidance_size seq_interval w =
      let grown = add64 w.window_site (ops.scale w.ack_seq_window_increase_factor seq_interval) in
      let capped = if ltb w.default_window_size grown then w.default_window_size else grown in
      if ltb capped w.window_site then w.window_site else capped

  -- `if(is_new_sack) … else …`
  unfoldable pub resize : Bool → ℕ → ComplexWriter Factor → ComplexWriter Factor
  resize is_new_sack seq_interval w =
      let next = avoidance_size seq_interval w in
      if is_new_sack
      then record (with_base (set_status sack_has_new_ack_bit w.base).1 w) {
        window_site = w.window_ssthresh;
      }
      else if leb w.window_ssthresh w.window_site
      then record w { window_ssthresh = next; window_site = next }
      else record w { window_site = w.window_site * 2 % 2 ^ 64 }

  -- `if(test_connection_status_in_process_sack(writer)!=1)`
  unfoldable pub open_window : ComplexWriter Factor → ComplexWriter Factor
  open_window w =
      if test_status still_doing_sack_bit w.base
      then w
      else record w { right_window_cursor = add64 w.left_window_cursor w.window_site }

  -- `if(writer->_sack_same_count >=3) … else …`
  unfoldable pub adjust : Bool → ℕ → ComplexWriter Factor → ComplexWriter Factor
  adjust is_new_sack seq_interval w =
      let congested = congestion w in
      let raised = record w {
        ack_seq_window_increase_factor = ops.raise w.ack_seq_window_increase_factor;
      } in
      if leb 3 w.sack_same_count
      then with_base (set_status has_sack_bit congested.base).1 congested
      else open_window (resize is_new_sack seq_interval raised)

  -- `_writer_connection_do_network_data` with the lock of the acknowledgements.
  unfoldable pub acknowledge :
      ℕ → ℕ → ℕ → ℕ → ComplexWriter Factor → ComplexWriter Factor × List Effect
  acknowledge con_clock seq send_time seq_interval w =
      let (is_new_sack, counted) =
        count_sack seq (record w { writer = rto_sample con_clock send_time w.writer }) in
      let adjusted = adjust is_new_sack seq_interval counted in
      let queued = add_to_sender_queue (reset_status doing_ack_bit adjusted.base).1 in
      (with_base queued.0 adjusted, queued.1)

  -- … after the cursor has moved.
  unfoldable pub acknowledged :
      ℕ → ℕ → ℕ → ℕ → ComplexWriter Factor → ComplexWriter Factor × List Effect
  acknowledged con_clock seq send_time seq_interval w =
      let c = count_run w.base in
      let done = suspend (record c { trans_result_code = trans_successfully }) in
      let (free, locked) = set_status doing_ack_bit c in
      if ltb (last_byte c) seq
      then (with_base done.0 w, done.1)
      else if free
      then acknowledge con_clock seq send_time seq_interval (with_base locked w)
      else (with_base locked w, [])

  -- `_writer_connection_do_network_data`
  unfoldable pub do_network_data :
      ℕ → ℕ → ℕ → ComplexWriter Factor → ComplexWriter Factor × List Effect
  do_network_data con_clock seq send_time w0 =
      let w = record w0 { writer = record w0.writer { try_time = 0 } } in
      let seq_interval = sub64 seq w.left_window_cursor in
      elim (set_left_window_cursor seq w.left_window_cursor) [
        | none ↦ (w, [])
        | some (res, cursor) ↦
            let moved = with_base (record w.base { left_window_cursor = cursor }) w in
            if res then acknowledged con_clock seq send_time seq_interval moved else (moved, [])
      ]
