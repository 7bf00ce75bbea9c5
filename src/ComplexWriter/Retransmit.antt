-- ===== src/ComplexWriter/Retransmit.antt =====
-- Retransmission after a time-out of the complex writer: the timer handler and the next call of the
-- sender of hds_udp/connection/HDS_UDP_Complex_Connection.cpp together.
use test_resend.Prelude.{
  ℕ, suc, ◌<◌, ◌^◌, ◌≡◌, refl, ap, ◌∙◌, arith, ◌==◌, true, false, List, ◌∷◌, inl, inr, Bool-cases,
}
use test_resend.Prelude.Words.{u32}
use test_resend.Atomic.{pre_increment}
use test_resend.Config.{connection_send_try_time}
use test_resend.Connection.{
  Connection, Effect, kernel_send, sender_keeping_timer, force_stop_bit, has_time_out_bit,
  doing_ack_bit, reflesh_rto_bit, in_sender_bit, reback_sender_bit, sack_has_new_ack_bit,
  set_status, reset_status, test_status, fill_data, add_to_sender_queue,
}
use test_resend.Connection.Status.{test-set_status, test-reset_status, set_status_first}
use test_resend.Writer.{Writer, rto_double}
use test_resend.ComplexWriter.{
  FactorOps, ComplexWriter, with_base, congestion, congestion_locked, keep_sending, do_time_out,
  process_sender_msg_bit, packet_kind, may_send, send_packet, send_loop, do_send,
}
use test_resend.ComplexWriter.Signals.{
  SameMessage, SameMessage-trans, set-SameMessage, reset-SameMessage, process-Processed,
  fill_data-same,
}
use test_resend.ComplexWriter.Sending.{packet_kind_lem}

-- The first effect is a packet with the bytes from `seq` on.
abbrev pub StartsAt : ℕ → Connection → List Effect → Type 0
StartsAt seq c (kernel_send p ∷ es) = (p.con_id ≡ c.con_id) × (p.payload ≡ fill_data seq c)
StartsAt seq c _ = true ≡ false

-- What a time-out leaves alone.
record Kept (c d : Connection) : Type 0 where
  pub same : SameMessage c d
  pub left : d.left_window_cursor ≡ c.left_window_cursor
  pub stop : test_status force_stop_bit d ≡ test_status force_stop_bit c
  pub new_ack : test_status sack_has_new_ack_bit d ≡ test_status sack_has_new_ack_bit c

Kept-trans : (c d e : Connection) → Kept c d → Kept d e → Kept c e
Kept-trans c d e h g = record {
  same = SameMessage-trans c d e h.same g.same;
  left = g.left ∙ h.left;
  stop = g.stop ∙ h.stop;
  new_ack = g.new_ack ∙ h.new_ack;
}

set_status_left :
    (k : ℕ) (c : Connection) → (set_status k c).1.left_window_cursor ≡ c.left_window_cursor
unfolding set_status
set_status_left k c = refl

reset_status_left :
    (k : ℕ) (c : Connection) → (reset_status k c).1.left_window_cursor ≡ c.left_window_cursor
unfolding reset_status
reset_status_left k c = refl

set-Kept :
    (k : ℕ) (c : Connection)
    → (k == force_stop_bit) ≡ false
    → (k == sack_has_new_ack_bit) ≡ false
    → Kept c (set_status k c).1
set-Kept k c e f = record {
  same = set-SameMessage k c;
  left = set_status_left k c;
  stop = test-set_status k force_stop_bit c (omega arith) ∙ rw e refl;
  new_ack = test-set_status k sack_has_new_ack_bit c (omega arith) ∙ rw f refl;
}

reset-Kept :
    (k : ℕ) (c : Connection)
    → (k == force_stop_bit) ≡ false
    → (k == sack_has_new_ack_bit) ≡ false
    → Kept c (reset_status k c).1
reset-Kept k c e f = record {
  same = reset-SameMessage k c;
  left = reset_status_left k c;
  stop = test-reset_status k force_stop_bit c (omega arith) ∙ rw e refl;
  new_ack = test-reset_status k sack_has_new_ack_bit c (omega arith) ∙ rw f refl;
}

rto_double-Kept :
    (w : Writer)
    → Kept w.base (rto_double w).base
      × (test_status doing_ack_bit (rto_double w).base ≡ test_status doing_ack_bit w.base)
unfolding rto_double
rto_double-Kept w =
    let s = set_status reflesh_rto_bit w.base in
    let r = reset_status reflesh_rto_bit s.1 in
    let k = set-Kept reflesh_rto_bit w.base refl refl in
    let d = test-set_status reflesh_rto_bit doing_ack_bit w.base (omega arith) in
    elim (Bool-cases s.0) [
      | inl e ↦
          rw (e, rto_double)
            (
              Kept-trans w.base s.1 r.1 k (reset-Kept reflesh_rto_bit s.1 refl refl),
              test-reset_status reflesh_rto_bit doing_ack_bit s.1 (omega arith) ∙ d,
            )
      | inr e ↦ rw (e, rto_double) (k, d)
    ]

queue-Kept :
    (c : Connection)
    → Kept c (add_to_sender_queue c).0
      × (test_status has_time_out_bit (add_to_sender_queue c).0 ≡ test_status has_time_out_bit c)
unfolding add_to_sender_queue
queue-Kept c =
    let s = set_status in_sender_bit c in
    let r = set_status reback_sender_bit s.1 in
    let k = set-Kept in_sender_bit c refl refl in
    let d = test-set_status in_sender_bit has_time_out_bit c (omega arith) in
    elim (Bool-cases s.0) [
      | inl e ↦ rw (e, add_to_sender_queue) (k, d)
      | inr e ↦
          rw (e, add_to_sender_queue)
            (
              Kept-trans c s.1 r.1 k (set-Kept reback_sender_bit s.1 refl refl),
              test-set_status reback_sender_bit has_time_out_bit s.1 (omega arith) ∙ d,
            )
    ]

same_count : (n : ℕ) → (n == n) ≡ true
same_count n = ground arith

u32_small : (n : ℕ) → n < 2 ^ 32 → u32 n ≡ n
u32_small n h = omega (arith, h)

module _ {Factor : Type 0} (ops : FactorOps Factor) where
  -- A writer after a time-out that is not the last one.
  record TimedOut (w v : ComplexWriter Factor) : Type 0 where
    pub kept : Kept w.base v.base
    pub marked : test_status has_time_out_bit v.base ≡ true
    pub right : v.right_window_cursor ≡ w.current_window_cursor

  congestion_locked-Kept :
      (w : ComplexWriter Factor)
      → test_status doing_ack_bit w.base ≡ false
      → Kept w.base (congestion_locked ops w).base
        × ((congestion_locked ops w).right_window_cursor ≡ w.current_window_cursor)
  unfolding congestion_locked with_base congestion
  congestion_locked-Kept w h =
      let s = set_status doing_ack_bit w.base in
      rw (set_status_first doing_ack_bit w.base (omega arith), h, congestion_locked)
        (
          Kept-trans w.base s.1 (reset_status doing_ack_bit s.1).1
              (set-Kept doing_ack_bit w.base refl refl) (reset-Kept doing_ack_bit s.1 refl refl),
          refl,
        )

  do_time_out-TimedOut :
      (w : ComplexWriter Factor)
      → ((pre_increment w.try_time).0 == connection_send_try_time) ≡ false
      → test_status doing_ack_bit w.base ≡ false
      → TimedOut w (do_time_out ops sender_keeping_timer w.running_count w).0
  unfolding do_time_out keep_sending with_base
  do_time_out-TimedOut w e free =
      let (tries, try_time) = pre_increment w.try_time in
      let tried = record w { writer = record w.writer { try_time = try_time } } in
      let doubled = record tried { writer = rto_double tried.writer } in
      let d = rto_double-Kept tried.writer in
      let congested = congestion_locked ops doubled in
      let g = congestion_locked-Kept doubled (d.1 ∙ free) in
      let marked = (set_status has_time_out_bit congested.base).1 in
      let q = queue-Kept marked in
      let last = (add_to_sender_queue marked).0 in
      rw (same_count w.running_count, e, do_time_out, keep_sending)
        (record {
          kept = Kept-trans w.base doubled.base last d.0 (
              Kept-trans doubled.base congested.base last g.0 (
                Kept-trans congested.base marked last
                  (set-Kept has_time_out_bit congested.base refl refl) q.0));
          marked =
              q.1 ∙ test-set_status has_time_out_bit has_time_out_bit congested.base (omega arith);
          right = g.1;
        })

  may_send-true :
      (w : ComplexWriter Factor)
      → w.current_window_cursor < w.right_window_cursor
      → w.current_window_cursor < w.transmit_buf_length
      → may_send ops w ≡ true
  unfolding may_send
  may_send-true w h g = ground (arith, h, g)

  send_packet-StartsAt :
      (con_clock seq : ℕ) (c : Connection) (w : ComplexWriter Factor) (es : List Effect)
      → SameMessage c w.base
      → w.current_window_cursor ≡ seq
      → StartsAt seq c ((send_packet ops con_clock w).1 ∷ es)
  unfolding send_packet
  send_packet-StartsAt con_clock seq c w es same at =
      let k = packet_kind_lem ops w.current_window_cursor w.base in
      let s =
        SameMessage-trans c w.base (packet_kind ops w.current_window_cursor w.base).2 same k.0 in
      (s.0, fill_data-same w.current_window_cursor c _ s ∙ ap (λ i. fill_data i c) at)

  send_loop-StartsAt :
      (clock : ℕ → ℕ) (left seq : ℕ) (c : Connection) (w : ComplexWriter Factor)
      → SameMessage c w.base
      → (process_sender_msg_bit ops w).current_window_cursor ≡ seq
      → may_send ops w ≡ true
      → StartsAt seq c (send_loop ops clock (suc left) w).1
  unfolding send_loop
  send_loop-StartsAt clock left seq c w same at may =
      let v = process_sender_msg_bit ops w in
      rw (may, send_loop)
        (send_packet-StartsAt (clock left) seq c v _
          (SameMessage-trans c w.base v.base same (process-Processed ops w).same) at)

  -- The first packet of the sender at a cursor.
  do_send-StartsAt :
      (clock : ℕ → ℕ) (seq : ℕ) (c : Connection) (v : ComplexWriter Factor)
      → SameMessage c v.base
      → test_status force_stop_bit v.base ≡ false
      → (process_sender_msg_bit ops v).current_window_cursor ≡ seq
      → seq < v.right_window_cursor
      → seq < c.transmit_buf_length
      → StartsAt seq c (do_send ops clock v).1
  unfolding do_send
  do_send-StartsAt clock seq c v same stop at h g =
      let p = process-Processed ops v in
      let v1 = process_sender_msg_bit ops v in
      let s = SameMessage-trans c v.base v1.base same p.same in
      let may = may_send-true v1 (omega (arith, at, p.right, h)) (omega (arith, at, s.2, g)) in
      rw (stop, do_send)
        (send_loop-StartsAt clock 15 seq c v1 s ((process-Processed ops v1).still p.quiet ∙ at) may)

  -- A time-out that is not the last one, of a writer with packets on their way, makes the next call of
  -- the sender begin again at the left end of the window.
  pub time_out_retransmits :
      (clock : ℕ → ℕ) (w : ComplexWriter Factor)
      → ((pre_increment w.try_time).0 == connection_send_try_time) ≡ false
      → test_status doing_ack_bit w.base ≡ false
      → test_status force_stop_bit w.base ≡ false
      → test_status sack_has_new_ack_bit w.base ≡ false
      → w.left_window_cursor < w.current_window_cursor
      → w.left_window_cursor < w.transmit_buf_length
      → w.left_window_cursor < 2 ^ 32
      → StartsAt w.left_window_cursor w.base
          (do_send ops clock (do_time_out ops sender_keeping_timer w.running_count w).0).1
  time_out_retransmits clock w tries free stop new_ack behind inside small =
      let t = do_time_out-TimedOut w tries free in
      let v = (do_time_out ops sender_keeping_timer w.running_count w).0 in
      let p = process-Processed ops v in
      let at =
        p.back t.marked (t.kept.new_ack ∙ new_ack)
        ∙ ap u32 t.kept.left
        ∙ u32_small w.left_window_cursor small in
      do_send-StartsAt clock w.left_window_cursor w.base v t.kept.same (t.kept.stop ∙ stop) at
        (omega (arith, t.right, behind)) inside
