-- ===== src/ComplexWriter/Sending.antt =====
-- What `_writer_conneciton_do_send` of hds_udp/connection/HDS_UDP_Complex_Connection.cpp puts on the
-- wire.
use mathlib.Core.Bool.{true≢false}
use test_resend.Prelude.{
  ℕ, zero, suc, ◌<◌, ◌≡◌, refl, ◌∙◌, arith, ◌==◌, true, false, List, [], ◌∷◌, inl, inr, Bool-cases,
}
use test_resend.Connection.{
  Connection, Effect, kernel_send, add_timer, sender_keeping_timer, force_stop_bit,
  has_send_require_bit, has_sack_bit, has_time_out_bit, sack_has_new_ack_bit, test_status,
  fill_data,
}
use test_resend.Connection.Status.{test-set_status}
use test_resend.Writer.{count_run}
use test_resend.ComplexWriter.{
  FactorOps, ComplexWriter, with_base, process_sender_msg_bit, packet_kind, may_send, keeping_timer,
  send_packet, send_loop, do_send,
}
use test_resend.ComplexWriter.Signals.{
  IsQuiet, SameMessage, SameMessage-trans, set-SameMessage, count_run-SameMessage, fill_data-same,
  process-Processed,
}

-- A packet with the bytes of the message from a place before its end.
abbrev pub IsDataPacket : Connection → Effect → Type 0
IsDataPacket c (kernel_send p) =
    (seq : ℕ) × (seq < c.transmit_buf_length)
    × (p.con_id ≡ c.con_id)
    × (p.payload ≡ fill_data seq c)
IsDataPacket c _ = true ≡ false

abbrev pub IsKeepingTimer : Effect → Type 0
IsKeepingTimer (add_timer due sender_keeping_timer count) = Unit {0}
IsKeepingTimer _ = true ≡ false

-- At most `n` packets, and then the timer.
abbrev pub IsBurst : ℕ → Connection → List Effect → Type 0
IsBurst n c [] = true ≡ false
IsBurst n c (e ∷ []) = IsKeepingTimer e
IsBurst zero c (e ∷ (e' ∷ es)) = true ≡ false
IsBurst (suc n) c (e ∷ (e' ∷ es)) = IsDataPacket c e × IsBurst n c (e' ∷ es)

module _ {Factor : Type 0} (ops : FactorOps Factor) where
  pub packet_kind_lem :
      (seq : ℕ) (c : Connection)
      → SameMessage c (packet_kind ops seq c).2
        × (IsQuiet c → IsQuiet (count_run (packet_kind ops seq c).2))
  unfolding packet_kind count_run test_status
  packet_kind_lem seq c = elim (Bool-cases (seq == 0)) [
    | inl e ↦
        rw (e, packet_kind)
          (
            set-SameMessage has_send_require_bit c,
            λ q. (
              test-set_status has_send_require_bit has_time_out_bit c (omega arith) ∙ q.0,
              test-set_status has_send_require_bit has_sack_bit c (omega arith) ∙ q.1,
              test-set_status has_send_require_bit sack_has_new_ack_bit c (omega arith) ∙ q.2,
            ),
          )
    | inr e ↦ rw (e, packet_kind) ((refl, refl, refl), λ q. q)
  ]

  -- A packet of the loop, when the cursor is inside the message.
  send_packet-IsDataPacket :
      (con_clock : ℕ) (c : Connection) (w : ComplexWriter Factor)
      → SameMessage c w.base
      → w.current_window_cursor < c.transmit_buf_length
      → IsDataPacket c (send_packet ops con_clock w).1
        × SameMessage c (send_packet ops con_clock w).0.base
        × (IsQuiet w.base → IsQuiet (send_packet ops con_clock w).0.base)
  unfolding send_packet with_base
  send_packet-IsDataPacket con_clock c w same lt =
      let k = packet_kind_lem w.current_window_cursor w.base in
      let d =
        SameMessage-trans c w.base (packet_kind ops w.current_window_cursor w.base).2 same k.0 in
      (
        (w.current_window_cursor, lt, d.0, fill_data-same w.current_window_cursor c _ d),
        count_run-SameMessage c _ d,
        k.1,
      )

  may_send_lem :
      (w : ComplexWriter Factor)
      → may_send ops w ≡ true
      → (w.current_window_cursor < w.right_window_cursor)
        × (w.current_window_cursor < w.transmit_buf_length)
  unfolding may_send
  may_send_lem w e = ground (arith, e)

  IsBurst-cons :
      (n : ℕ) (c : Connection) (e : Effect) (es : List Effect)
      → IsDataPacket c e
      → IsBurst n c es
      → IsBurst (suc n) c (e ∷ es)
  IsBurst-cons n c e [] d h = absurd (true≢false h)
  IsBurst-cons n c e (e' ∷ es) d h = (d, h)

  send_loop-IsBurst :
      (clock : ℕ → ℕ) (left : ℕ) (c : Connection) (w : ComplexWriter Factor)
      → SameMessage c w.base
      → IsQuiet w.base
      → IsBurst left c (send_loop ops clock left w).1
  unfolding send_loop keeping_timer
  send_loop-IsBurst clock zero c w same q = elim (Bool-cases (may_send ops w)) [
    | inl e ↦ rw (e, send_loop) tt
    | inr e ↦ rw (e, send_loop) tt
  ]
  send_loop-IsBurst clock (suc left) c w same q = elim (Bool-cases (may_send ops w)) [
    | inl e ↦
        let p = process-Processed ops w in
        let v = process_sender_msg_bit ops w in
        let here = SameMessage-trans c w.base v.base same p.same in
        let sent =
          send_packet-IsDataPacket (clock left) c v here
            (omega (arith, p.still q, (may_send_lem w e).1, same.2)) in
        rw (e, send_loop)
          (IsBurst-cons left c _ _ sent.0 (
            send_loop-IsBurst clock left c (send_packet ops (clock left) v).0 sent.1
              (sent.2 p.quiet)))
    | inr e ↦ rw (e, send_loop) tt
  ]

  -- A call of `do_send` of a writer that is not stopped puts at most 16 packets on the wire, each of
  -- bytes of the message from a place before its end, and then sets the retransmission timer.
  pub do_send-IsBurst :
      (clock : ℕ → ℕ) (w : ComplexWriter Factor)
      → test_status force_stop_bit w.base ≡ false
      → IsBurst 16 w.base (do_send ops clock w).1
  unfolding do_send
  do_send-IsBurst clock w h =
      let p = process-Processed ops w in
      rw (h, do_send)
        (send_loop-IsBurst clock 16 w.base (process_sender_msg_bit ops w) p.same p.quiet)
