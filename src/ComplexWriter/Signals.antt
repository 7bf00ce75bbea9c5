-- ===== src/ComplexWriter/Signals.antt =====
-- The messages to the sender in the status bits of hds_udp/connection/HDS_UDP_Complex_Connection.cpp, and
-- what `process_sender_msg_bit` does with them.
use mathlib.Core.Bool.{true≢false}
use test_resend.Prelude.{
  ℕ, ◌≡◌, refl, sym, ◌∙◌, arith, if◌then◌else◌, true, false, inl, inr, Bool-cases,
}
use test_resend.Prelude.Words.{u32}
use test_resend.Connection.{
  Connection, has_sack_bit, has_time_out_bit, still_doing_sack_bit, sack_has_new_ack_bit,
  set_status, reset_status, test_status, fill_data,
}
use test_resend.Connection.Status.{test-set_status, test-reset_status, reset_status_was}
use test_resend.Writer.{count_run}
use test_resend.ComplexWriter.{
  FactorOps, ComplexWriter, with_base, after_time_out, after_sack, after_new_ack,
  process_sender_msg_bit,
}

-- No message for the sender waits in the status bits.
abbrev pub IsQuiet : Connection → Type 0
IsQuiet c =
    (test_status has_time_out_bit c ≡ false)
    × (test_status has_sack_bit c ≡ false)
    × (test_status sack_has_new_ack_bit c ≡ false)

-- The part of a connection that the sender does not change.
abbrev pub SameMessage : Connection → Connection → Type 0
SameMessage c d =
    (d.con_id ≡ c.con_id)
    × (d.transmit_buf ≡ c.transmit_buf)
    × (d.transmit_buf_length ≡ c.transmit_buf_length)

pub SameMessage-trans : (c d e : Connection) → SameMessage c d → SameMessage d e → SameMessage c e
SameMessage-trans c d e h g = (g.0 ∙ h.0, g.1 ∙ h.1, g.2 ∙ h.2)

pub reset-SameMessage : (k : ℕ) (c : Connection) → SameMessage c (reset_status k c).1
unfolding reset_status
reset-SameMessage k c = (refl, refl, refl)

pub set-SameMessage : (k : ℕ) (c : Connection) → SameMessage c (set_status k c).1
unfolding set_status
set-SameMessage k c = (refl, refl, refl)

pub count_run-SameMessage : (c d : Connection) → SameMessage c d → SameMessage c (count_run d)
unfolding count_run
count_run-SameMessage c d h = h

pub fill_data-same :
    (seq : ℕ) (c d : Connection) → SameMessage c d → fill_data seq d ≡ fill_data seq c
unfolding fill_data
fill_data-same seq c d h = rw (h.1, h.2) refl

-- The status after the tests, with and without a selective acknowledgement.
abbrev plain : Connection → Connection
plain c =
    (reset_status sack_has_new_ack_bit
      (reset_status has_sack_bit (reset_status has_time_out_bit c).1).1).1

abbrev repairing : Connection → Connection
repairing c =
    (reset_status sack_has_new_ack_bit
      (set_status still_doing_sack_bit
        (reset_status has_sack_bit (reset_status has_time_out_bit c).1).1).1).1

plain_lem : (c : Connection) → SameMessage c (plain c) × IsQuiet (plain c)
plain_lem c =
    let c1 = (reset_status has_time_out_bit c).1 in
    let c2 = (reset_status has_sack_bit c1).1 in
    (
      SameMessage-trans c c1 (plain c) (reset-SameMessage has_time_out_bit c) (
          SameMessage-trans c1 c2 (plain c) (reset-SameMessage has_sack_bit c1)
            (reset-SameMessage sack_has_new_ack_bit c2)),
      (
        test-reset_status sack_has_new_ack_bit has_time_out_bit c2 (omega arith)
            ∙ test-reset_status has_sack_bit has_time_out_bit c1 (omega arith)
            ∙ test-reset_status has_time_out_bit has_time_out_bit c (omega arith),
        test-reset_status sack_has_new_ack_bit has_sack_bit c2 (omega arith)
            ∙ test-reset_status has_sack_bit has_sack_bit c1 (omega arith),
        test-reset_status sack_has_new_ack_bit sack_has_new_ack_bit c2 (omega arith),
      ),
    )

repairing_lem : (c : Connection) → SameMessage c (repairing c) × IsQuiet (repairing c)
repairing_lem c =
    let c1 = (reset_status has_time_out_bit c).1 in
    let c2 = (reset_status has_sack_bit c1).1 in
    let c3 = (set_status still_doing_sack_bit c2).1 in
    (
      SameMessage-trans c c1 (repairing c) (reset-SameMessage has_time_out_bit c) (
          SameMessage-trans c1 c2 (repairing c) (reset-SameMessage has_sack_bit c1) (
            SameMessage-trans c2 c3 (repairing c) (set-SameMessage still_doing_sack_bit c2)
              (reset-SameMessage sack_has_new_ack_bit c3))),
      (
        test-reset_status sack_has_new_ack_bit has_time_out_bit c3 (omega arith)
            ∙ test-set_status still_doing_sack_bit has_time_out_bit c2 (omega arith)
            ∙ test-reset_status has_sack_bit has_time_out_bit c1 (omega arith)
            ∙ test-reset_status has_time_out_bit has_time_out_bit c (omega arith),
        test-reset_status sack_has_new_ack_bit has_sack_bit c3 (omega arith)
            ∙ test-set_status still_doing_sack_bit has_sack_bit c2 (omega arith)
            ∙ test-reset_status has_sack_bit has_sack_bit c1 (omega arith),
        test-reset_status sack_has_new_ack_bit sack_has_new_ack_bit c3 (omega arith),
      ),
    )

module _ {Factor : Type 0} (ops : FactorOps Factor) where
  -- What the three tests do: the status bits that the connection had decide where the cursor goes.
  after_time_out_lem :
      (w : ComplexWriter Factor)
      → after_time_out ops w ≡ record (with_base ops (reset_status has_time_out_bit w.base).1 w) {
        current_window_cursor =
            if test_status has_time_out_bit w.base
            then u32 w.left_window_cursor
            else w.current_window_cursor;
      }
  unfolding after_time_out with_base
  after_time_out_lem w =
      let e = reset_status_was has_time_out_bit w.base (omega arith) in
      elim (Bool-cases (test_status has_time_out_bit w.base)) [
        | inl t ↦ rw (e, t) refl
        | inr t ↦ rw (e, t) refl
      ]

  after_sack_lem :
      (w : ComplexWriter Factor)
      → after_sack ops w ≡ (
          if test_status has_sack_bit w.base
          then record (with_base ops
              (set_status still_doing_sack_bit (reset_status has_sack_bit w.base).1).1
              w) { current_window_cursor = u32 w.left_window_cursor }
          else with_base ops (reset_status has_sack_bit w.base).1 w)
  unfolding after_sack with_base
  after_sack_lem w = rw (reset_status_was has_sack_bit w.base (omega arith)) refl

  after_new_ack_lem :
      (w : ComplexWriter Factor)
      → after_new_ack ops w
        ≡ record (with_base ops (reset_status sack_has_new_ack_bit w.base).1 w) {
          current_window_cursor =
              if test_status sack_has_new_ack_bit w.base
              then w.old_current_window_cursor
              else w.current_window_cursor;
        }
  unfolding after_new_ack with_base
  after_new_ack_lem w =
      let e = reset_status_was sack_has_new_ack_bit w.base (omega arith) in
      elim (Bool-cases (test_status sack_has_new_ack_bit w.base)) [
        | inl t ↦ rw (e, t) refl
        | inr t ↦ rw (e, t) refl
      ]

  -- A writer after the tests: the message and the right end of the window are the same, no bit waits;
  -- the cursor is where it was if none waited, and at the left end of the window after a time-out
  -- alone.
  pub record Processed (w v : ComplexWriter Factor) : Type 0 where
    pub same : SameMessage w.base v.base
    pub right : v.right_window_cursor ≡ w.right_window_cursor
    pub quiet : IsQuiet v.base
    pub still : IsQuiet w.base → v.current_window_cursor ≡ w.current_window_cursor
    pub back :
        test_status has_time_out_bit w.base ≡ true
        → test_status sack_has_new_ack_bit w.base ≡ false
        → v.current_window_cursor ≡ u32 w.left_window_cursor

  pub process-Processed : (w : ComplexWriter Factor) → Processed w (process_sender_msg_bit ops w)
  unfolding process_sender_msg_bit with_base after_new_ack reset_status
  process-Processed w =
      let c1 = (reset_status has_time_out_bit w.base).1 in
      let c2 = (reset_status has_sack_bit c1).1 in
      let c3 = (set_status still_doing_sack_bit c2).1 in
      let x = record (with_base ops c1 w) {
        current_window_cursor =
            if test_status has_time_out_bit w.base
            then u32 w.left_window_cursor
            else w.current_window_cursor;
      } in
      let y = record (with_base ops c3 x) { current_window_cursor = u32 w.left_window_cursor } in
      let z = with_base ops c2 x in
      let k8 = test-reset_status has_time_out_bit has_sack_bit w.base (omega arith) in
      let k12 =
        test-reset_status has_sack_bit sack_has_new_ack_bit c1 (omega arith)
        ∙ test-reset_status has_time_out_bit sack_has_new_ack_bit w.base (omega arith) in
      let k12' = test-set_status still_doing_sack_bit sack_has_new_ack_bit c2 (omega arith) ∙ k12 in
      elim (Bool-cases (test_status has_sack_bit w.base)) [
        | inl t ↦
            let p = repairing_lem w.base in
            rw (after_time_out_lem w, after_sack_lem x, k8 ∙ t, after_new_ack_lem y)
              (record {
                same = p.0;
                right = refl;
                quiet = p.1;
                still = λ q. absurd (true≢false (sym t ∙ q.1));
                back = λ e f. rw (k12' ∙ f) refl;
              })
        | inr t ↦
            let p = plain_lem w.base in
            rw (after_time_out_lem w, after_sack_lem x, k8 ∙ t, after_new_ack_lem z)
              (record {
                same = p.0;
                right = refl;
                quiet = p.1;
                still = λ q. rw (k12 ∙ q.2, q.0) refl;
                back = λ e f. rw (k12 ∙ f, e) refl;
              })
      ]
