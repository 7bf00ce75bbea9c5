-- ===== src/ComplexWriter/Window.antt =====
-- The sending window of hds_udp/connection/HDS_UDP_Complex_Connection.cpp through its handlers.
use test_resend.Prelude.{
  ℕ, zero, suc, ◌≤◌, max, refl, arith, ◌==◌, if◌then◌else◌, ltb, leb, Bool, true, false, List, [],
  ◌∷◌, inl, inr, Bool-cases,
}
use test_resend.Prelude.Words.{u32, add32, sub64, add64}
use test_resend.Writer.{rto_sample, rto_double, count_run}
use test_resend.Cursor.Max.{set_left_window_cursor_lem}
use test_resend.Atomic.{pre_increment}
use test_resend.Config.{connection_send_try_time}
use test_resend.Connection.{
  Connection, Effect, force_stop_bit, count_time_out, trans_time_out, has_time_out_bit,
  add_to_sender_queue, reback_sender_bit, has_sack_bit, sack_has_new_ack_bit, TimerType,
  sender_keeping_timer, connection_suspend_timer, recver_check_dead_timer, force_reset_timer,
  recver_ack_timer, recver_succ_timer, trans_successfully, suspend, last_byte, doing_ack_bit,
  reset_status, set_status, test_status, still_doing_sack_bit,
}
use test_resend.ComplexWriter.{
  FactorOps, ComplexWriter, with_base, congestion, congestion_locked, keep_sending, do_time_out,
  after_time_out, after_sack, after_new_ack, process_sender_msg_bit, may_send, keeping_timer,
  send_packet, send_loop, do_send, count_sack, avoidance_size, resize, open_window, adjust,
  acknowledge, acknowledged, do_network_data,
}
use test_resend.ComplexWriter.Sizes.{Sized, not_leb, Sized-congestion, Sized-double, Sized-same}

module _ {Factor : Type 0} (ops : FactorOps Factor) where
  abbrev pub WindowSized : ℕ → ComplexWriter Factor → Type 0
  WindowSized bound w = Sized bound w.window_site w.window_ssthresh w.default_window_size

  if-WindowSized :
      (bound : ℕ) (b : Bool) (w v : ComplexWriter Factor)
      → WindowSized bound w
      → WindowSized bound v
      → WindowSized bound (if b then w else v)
  if-WindowSized bound true w v h g = h
  if-WindowSized bound false w v h g = g

  -- The same for a handler's branches.
  either-WindowSized :
      (bound : ℕ) (b : Bool) (p q : ComplexWriter Factor × List Effect)
      → WindowSized bound p.0
      → WindowSized bound q.0
      → WindowSized bound (if b then p else q).0
  either-WindowSized bound true p q h g = h
  either-WindowSized bound false p q h g = g

  second-WindowSized :
      (bound : ℕ) (b : Bool) (p q : Bool × ComplexWriter Factor)
      → WindowSized bound p.1
      → WindowSized bound q.1
      → WindowSized bound (if b then p else q).1
  second-WindowSized bound true p q h g = h
  second-WindowSized bound false p q h g = g

  with_base-WindowSized :
      (bound : ℕ) (c : Connection) (w : ComplexWriter Factor)
      → WindowSized bound w
      → WindowSized bound (with_base ops c w)
  unfolding with_base
  with_base-WindowSized bound c w h = h

  congestion-WindowSized :
      (bound : ℕ) (w : ComplexWriter Factor)
      → WindowSized bound w
      → WindowSized bound (congestion ops w)
  unfolding congestion
  congestion-WindowSized bound w h =
      Sized-congestion bound w.window_site w.window_ssthresh w.default_window_size h
        (congestion ops w).window_ssthresh refl

  -- The new size in congestion avoidance is between the present one and the default one, or the
  -- present one where that is above the default.
  avoidance_size_ge :
      (seq_interval : ℕ) (w : ComplexWriter Factor)
      → w.window_site ≤ avoidance_size ops seq_interval w
  unfolding avoidance_size
  avoidance_size_ge seq_interval w = ground arith

  avoidance_size_le :
      (seq_interval : ℕ) (w : ComplexWriter Factor)
      → avoidance_size ops seq_interval w ≤ max w.window_site w.default_window_size
  unfolding avoidance_size
  avoidance_size_le seq_interval w = ground arith

  resize-WindowSized :
      (bound : ℕ) (is_new_sack : Bool) (seq_interval : ℕ) (w : ComplexWriter Factor)
      → WindowSized bound w
      → WindowSized bound (resize ops is_new_sack seq_interval w)
  unfolding resize with_base
  resize-WindowSized bound true seq_interval w h =
      Sized-same bound w.window_site w.window_ssthresh w.default_window_size h w.window_ssthresh
        h.ssthresh_ge h.ssthresh_le
  resize-WindowSized bound false seq_interval w h =
      let next = avoidance_size ops seq_interval w in
      let ge = avoidance_size_ge seq_interval w in
      let le = avoidance_size_le seq_interval w in
      elim (Bool-cases (leb w.window_ssthresh w.window_site)) [
        | inl e ↦
            rw (e, resize)
              (Sized-same bound w.window_site w.window_ssthresh w.default_window_size h next
                (omega (arith, ge, h.site_ge)) (omega (arith, le, h.site_le, h.default_le)))
        | inr e ↦
            rw (e, resize)
              (Sized-double bound w.window_site w.window_ssthresh w.default_window_size h
                (not_leb w.window_ssthresh w.window_site e))
      ]

  open_window-WindowSized :
      (bound : ℕ) (w : ComplexWriter Factor)
      → WindowSized bound w
      → WindowSized bound (open_window ops w)
  unfolding open_window
  open_window-WindowSized bound w h =
      if-WindowSized bound (test_status still_doing_sack_bit w.base) w
        (record w { right_window_cursor = add64 w.left_window_cursor w.window_site }) h h

  adjust-WindowSized :
      (bound : ℕ) (is_new_sack : Bool) (seq_interval : ℕ) (w : ComplexWriter Factor)
      → WindowSized bound w
      → WindowSized bound (adjust ops is_new_sack seq_interval w)
  unfolding adjust with_base
  adjust-WindowSized bound is_new_sack seq_interval w h =
      let congested = congestion ops w in
      let raised = record w {
        ack_seq_window_increase_factor = ops.raise w.ack_seq_window_increase_factor;
      } in
      if-WindowSized bound (leb 3 w.sack_same_count)
        (with_base ops (set_status has_sack_bit congested.base).1 congested)
        (open_window ops (resize ops is_new_sack seq_interval raised))
        (congestion-WindowSized bound w h)
        (open_window-WindowSized bound (resize ops is_new_sack seq_interval raised)
          (resize-WindowSized bound is_new_sack seq_interval raised h))

  count_sack-WindowSized :
      (bound seq : ℕ) (w : ComplexWriter Factor)
      → WindowSized bound w
      → WindowSized bound (count_sack ops seq w).1
  unfolding count_sack with_base
  count_sack-WindowSized bound seq w h =
      let fresh = record w { sack_seq = seq; sack_same_count = 1 } in
      let reset = reset_status still_doing_sack_bit w.base in
      second-WindowSized bound (w.sack_seq == seq)
        (false, record w { sack_same_count = add32 w.sack_same_count 1 })
        (if leb w.current_window_cursor seq
          then (reset.0, with_base ops reset.1 fresh)
          else (false, fresh))
        h
        (second-WindowSized bound (leb w.current_window_cursor seq)
          (reset.0, with_base ops reset.1 fresh) (false, fresh) h h)

  acknowledge-WindowSized :
      (bound con_clock seq send_time seq_interval : ℕ) (w : ComplexWriter Factor)
      → WindowSized bound w
      → WindowSized bound (acknowledge ops con_clock seq send_time seq_interval w).0
  unfolding acknowledge with_base
  acknowledge-WindowSized bound con_clock seq send_time seq_interval w h =
      let sampled = record w { writer = rto_sample con_clock send_time w.writer } in
      let (is_new_sack, counted) = count_sack ops seq sampled in
      adjust-WindowSized bound is_new_sack seq_interval counted
        (count_sack-WindowSized bound seq sampled h)

  acknowledged-WindowSized :
      (bound con_clock seq send_time seq_interval : ℕ) (w : ComplexWriter Factor)
      → WindowSized bound w
      → WindowSized bound (acknowledged ops con_clock seq send_time seq_interval w).0
  unfolding acknowledged with_base
  acknowledged-WindowSized bound con_clock seq send_time seq_interval w h =
      let c = count_run w.base in
      let done = suspend (record c { trans_result_code = trans_successfully }) in
      let (free, locked) = set_status doing_ack_bit c in
      let handled = acknowledge ops con_clock seq send_time seq_interval (with_base ops locked w) in
      either-WindowSized bound (ltb (last_byte c) seq) (with_base ops done.0 w, done.1)
        (if free then handled else (with_base ops locked w, [])) h
        (either-WindowSized bound free handled (with_base ops locked w, [])
          (acknowledge-WindowSized bound con_clock seq send_time seq_interval
            (with_base ops locked w) h)
          h)

  pub do_network_data-WindowSized :
      (bound con_clock seq send_time : ℕ) (w : ComplexWriter Factor)
      → WindowSized bound w
      → WindowSized bound (do_network_data ops con_clock seq send_time w).0
  unfolding do_network_data with_base
  do_network_data-WindowSized bound con_clock seq send_time w h =
      let tried = record w { writer = record w.writer { try_time = 0 } } in
      let moved =
        with_base ops (record w.base { left_window_cursor = max w.left_window_cursor seq }) tried in
      let interval = sub64 seq w.left_window_cursor in
      rw (set_left_window_cursor_lem seq w.left_window_cursor, do_network_data)
        (either-WindowSized bound (leb w.left_window_cursor seq)
          (acknowledged ops con_clock seq send_time interval moved) (moved, [])
          (acknowledged-WindowSized bound con_clock seq send_time interval moved h) h)

  congestion_locked-WindowSized :
      (bound : ℕ) (w : ComplexWriter Factor)
      → WindowSized bound w
      → WindowSized bound (congestion_locked ops w)
  unfolding congestion_locked with_base
  congestion_locked-WindowSized bound w h =
      let (free, locked) = set_status doing_ack_bit w.base in
      let congested = congestion ops (with_base ops locked w) in
      if-WindowSized bound free
        (with_base ops (reset_status doing_ack_bit congested.base).1 congested)
        (with_base ops locked w) (congestion-WindowSized bound (with_base ops locked w) h) h

  keep_sending-WindowSized :
      (bound : ℕ) (w : ComplexWriter Factor)
      → WindowSized bound w
      → WindowSized bound (keep_sending ops w).0
  unfolding keep_sending with_base
  keep_sending-WindowSized bound w h =
      let (tries, try_time) = pre_increment w.try_time in
      let tried = record w { writer = record w.writer { try_time = try_time } } in
      let dead = suspend (record w.base { trans_result_code = trans_time_out }) in
      let doubled = record tried { writer = rto_double tried.writer } in
      let congested = congestion_locked ops doubled in
      let queued = add_to_sender_queue (set_status has_time_out_bit congested.base).1 in
      either-WindowSized bound (tries == connection_send_try_time)
        (with_base ops dead.0 tried, count_time_out ∷ dead.1)
        (with_base ops queued.0 congested, count_time_out ∷ queued.1) h
        (congestion_locked-WindowSized bound doubled h)

  pub do_time_out-WindowSized :
      (bound : ℕ) (type : TimerType) (running_count : ℕ) (w : ComplexWriter Factor)
      → WindowSized bound w
      → WindowSized bound (do_time_out ops type running_count w).0
  unfolding do_time_out with_base
  do_time_out-WindowSized bound sender_keeping_timer running_count w h =
      either-WindowSized bound (w.running_count == running_count) (keep_sending ops w) (w, [])
        (keep_sending-WindowSized bound w h) h
  do_time_out-WindowSized bound connection_suspend_timer running_count w h = h
  do_time_out-WindowSized bound recver_check_dead_timer running_count w h = h
  do_time_out-WindowSized bound force_reset_timer running_count w h = h
  do_time_out-WindowSized bound recver_ack_timer running_count w h = h
  do_time_out-WindowSized bound recver_succ_timer running_count w h = h

  -- The sender leaves window, threshold and default size alone.
  after_time_out-WindowSized :
      (bound : ℕ) (w : ComplexWriter Factor)
      → WindowSized bound w
      → WindowSized bound (after_time_out ops w)
  unfolding after_time_out with_base
  after_time_out-WindowSized bound w h =
      let (marked, c) = reset_status has_time_out_bit w.base in
      let reset = with_base ops c w in
      if-WindowSized bound marked
        (record reset { current_window_cursor = u32 w.left_window_cursor }) reset h h

  after_sack-WindowSized :
      (bound : ℕ) (w : ComplexWriter Factor)
      → WindowSized bound w
      → WindowSized bound (after_sack ops w)
  unfolding after_sack with_base
  after_sack-WindowSized bound w h =
      let (marked, c) = reset_status has_sack_bit w.base in
      let reset = with_base ops c w in
      if-WindowSized bound marked
        (record (with_base ops (set_status still_doing_sack_bit c).1 w) {
          current_window_cursor = u32 w.left_window_cursor;
        })
        reset h h

  after_new_ack-WindowSized :
      (bound : ℕ) (w : ComplexWriter Factor)
      → WindowSized bound w
      → WindowSized bound (after_new_ack ops w)
  unfolding after_new_ack with_base
  after_new_ack-WindowSized bound w h =
      let (marked, c) = reset_status sack_has_new_ack_bit w.base in
      let reset = with_base ops c w in
      if-WindowSized bound marked
        (record reset { current_window_cursor = w.old_current_window_cursor }) reset h h

  process-WindowSized :
      (bound : ℕ) (w : ComplexWriter Factor)
      → WindowSized bound w
      → WindowSized bound (process_sender_msg_bit ops w)
  unfolding process_sender_msg_bit
  process-WindowSized bound w h =
      after_new_ack-WindowSized bound (after_sack ops (after_time_out ops w))
        (after_sack-WindowSized bound (after_time_out ops w) (after_time_out-WindowSized bound w h))

  send_packet-WindowSized :
      (bound con_clock : ℕ) (w : ComplexWriter Factor)
      → WindowSized bound w
      → WindowSized bound (send_packet ops con_clock w).0
  unfolding send_packet with_base
  send_packet-WindowSized bound con_clock w h = h

  send_loop-WindowSized :
      (bound : ℕ) (clock : ℕ → ℕ) (left : ℕ) (w : ComplexWriter Factor)
      → WindowSized bound w
      → WindowSized bound (send_loop ops clock left w).0
  unfolding send_loop with_base
  send_loop-WindowSized bound clock zero w h =
      let processed = process_sender_msg_bit ops w in
      let back = with_base ops (set_status reback_sender_bit processed.base).1 processed in
      either-WindowSized bound (may_send ops w) (back, keeping_timer ops back ∷ [])
        (w, keeping_timer ops w ∷ []) (process-WindowSized bound w h) h
  send_loop-WindowSized bound clock (suc left) w h =
      let processed = process_sender_msg_bit ops w in
      let sent = send_packet ops (clock left) processed in
      let rest = send_loop ops clock left sent.0 in
      either-WindowSized bound (may_send ops w) (rest.0, sent.1 ∷ rest.1)
        (w, keeping_timer ops w ∷ [])
        (send_loop-WindowSized bound clock left sent.0
          (send_packet-WindowSized bound (clock left) processed (process-WindowSized bound w h)))
        h

  pub do_send-WindowSized :
      (bound : ℕ) (clock : ℕ → ℕ) (w : ComplexWriter Factor)
      → WindowSized bound w
      → WindowSized bound (do_send ops clock w).0
  unfolding do_send with_base
  do_send-WindowSized bound clock w h =
      let stopped = suspend w.base in
      let processed = process_sender_msg_bit ops w in
      either-WindowSized bound (test_status force_stop_bit w.base)
        (with_base ops stopped.0 w, stopped.1) (send_loop ops clock 16 processed) h
        (send_loop-WindowSized bound clock 16 processed (process-WindowSized bound w h))

  -- Every handler keeps the sizes: the window and the threshold stay between a packet and twice the
  -- larger of the default window and the first threshold, and no doubling wraps.
  pub handlers-WindowSized :
      (bound : ℕ) (w : ComplexWriter Factor)
      → WindowSized bound w
      → ((type : TimerType) (running_count : ℕ)
          → WindowSized bound (do_time_out ops type running_count w).0)
        × ((clock : ℕ → ℕ) → WindowSized bound (do_send ops clock w).0)
        × ((con_clock seq send_time : ℕ)
            → WindowSized bound (do_network_data ops con_clock seq send_time w).0)
  handlers-WindowSized bound w h = (
    λ type running_count. do_time_out-WindowSized bound type running_count w h,
    λ clock. do_send-WindowSized bound clock w h,
    λ con_clock seq send_time. do_network_data-WindowSized bound con_clock seq send_time w h,
  )
