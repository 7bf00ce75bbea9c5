-- ===== src/SimpleTransfer/WriterFrame.antt =====
-- What the writer of hds_udp/connection/HDS_UDP_Simple_Connection.cpp leaves alone, and what it
-- sends.
use test_resend.Prelude.{
  ℕ, ◌≤◌, ◌<◌, ◌^◌, ◌≡◌, ◌⊎◌, inl, inr, refl, sym, ap, ◌∙◌, arith, ltb, false, Bool-cases, List, [],
  ◌∷◌, length, max,
}
use test_resend.Prelude.Words.{u32}
use test_resend.Atomic.{pre_increment}
use test_resend.Cursor.Max.{set_left_window_cursor_lem}
use test_resend.Connection.{
  Connection, Effect, Packet, trans_time_out, trans_successfully, TimerType, sender_keeping_timer,
  recver_check_dead_timer, connection_suspend_timer, force_reset_timer, recver_ack_timer,
  recver_succ_timer, suspend, add_to_sender_queue, test_status, force_stop_bit, set_status,
  reset_status, last_byte, fill_data,
}
use test_resend.Writer.{Writer, rto_double, rto_sample, count_run, writer_suspended}
use test_resend.SimpleWriter.{
  keep_sending, do_time_out, packet_kind, send_packet, do_send, acknowledged, do_network_data,
}
use test_resend.SimpleTransfer.{packets, deliveries, seq_of, seq_of_kind}
use test_resend.SimpleTransfer.Chunks.{chunk, copy_size_lem}

-- The buffer, its length and the cursor are the same.
pub record SameData (a b : Connection) : Type 0 where
  pub buf : a.transmit_buf ≡ b.transmit_buf
  pub len : a.transmit_buf_length ≡ b.transmit_buf_length
  pub cursor : a.left_window_cursor ≡ b.left_window_cursor

-- A connection with the same data, and effects that send and deliver nothing.
pub record Silent (a b : Connection) (es : List Effect) : Type 0 where
  pub same : SameData a b
  pub sends : packets es ≡ []
  pub delivers : deliveries es ≡ []

pub suspend-Silent : (c : Connection) → Silent (suspend c).0 c (suspend c).1
unfolding suspend set_status
suspend-Silent c = ground arith

queue-Silent : (c : Connection) → Silent (add_to_sender_queue c).0 c (add_to_sender_queue c).1
unfolding add_to_sender_queue set_status
queue-Silent c = ground arith

double-SameData : (w : Writer) → SameData (rto_double w).base w.base
unfolding rto_double set_status reset_status
double-SameData w = ground arith

sample-SameData : (clock time : ℕ) (w : Writer) → SameData (rto_sample clock time w).base w.base
unfolding rto_sample set_status reset_status
sample-SameData clock time w = ground arith

suspended-Silent : (c : Connection) → Silent (writer_suspended c).0 c (writer_suspended c).1
unfolding writer_suspended set_status
suspended-Silent c = ground arith

trans-Silent :
    {a b c : Connection} {es : List Effect} → Silent a b es → SameData b c → Silent a c es
trans-Silent s d = ground arith

keep-Silent : (w : Writer) → Silent (keep_sending w).0.base w.base (keep_sending w).1
unfolding keep_sending
keep-Silent w =
    let tried = record w { try_time = (pre_increment w.try_time).1 } in
    ground (
      arith,
      suspend-Silent (record w.base { trans_result_code = trans_time_out }),
      double-SameData tried,
      queue-Silent (rto_double tried).base,
    )

pub time_out-Silent :
    (type : TimerType) (running_count : ℕ) (w : Writer)
    → Silent (do_time_out type running_count w).0.base w.base (do_time_out type running_count w).1
unfolding do_time_out
time_out-Silent connection_suspend_timer rc w = suspended-Silent w.base
time_out-Silent sender_keeping_timer rc w = ground (arith, keep-Silent w)
time_out-Silent recver_check_dead_timer rc w = ground arith
time_out-Silent force_reset_timer rc w = ground arith
time_out-Silent recver_ack_timer rc w = ground arith
time_out-Silent recver_succ_timer rc w = ground arith

-- A packet that carries the bytes of the message at its place.
pub record Carries (message : List ℕ) (p : Packet) : Type 0 where
  pub inside : seq_of p < length message
  pub bytes : p.payload ≡ chunk message (seq_of p)

packet_kind-SameData : (seq : ℕ) (c : Connection) → SameData (packet_kind seq c).2 c
unfolding packet_kind set_status
packet_kind-SameData seq c = ground arith

packet_kind-seq :
    (seq : ℕ) (c : Connection) → seq_of_kind (packet_kind seq c).0 (packet_kind seq c).1 ≡ seq
unfolding packet_kind seq_of_kind
packet_kind-seq seq c = ground arith

-- What a round of sending does: the data stays, and at most one packet goes out, the one at the
-- cursor.
pub record Sends (message : List ℕ) (w w' : Writer) (es : List Effect) : Type 0 where
  pub same : SameData w'.base w.base
  pub delivers : deliveries es ≡ []
  pub sent :
      (packets es ≡ [])
      ⊎ ((p : Packet) × (packets es ≡ p ∷ [])
          × Carries message p
          × (seq_of p ≡ w.left_window_cursor))

fill_data-chunk :
    (message : List ℕ) (seq : ℕ) (c : Connection)
    → c.transmit_buf ≡ message
    → c.transmit_buf_length ≡ length message
    → seq ≤ length message
    → length message < 2 ^ 32
    → fill_data seq c ≡ chunk message seq
unfolding fill_data
fill_data-chunk message seq c b l h k = rw (b, l, copy_size_lem seq (length message) h k)

send_packet-Sends :
    (clock : ℕ) (message : List ℕ) (w : Writer)
    → w.transmit_buf ≡ message
    → w.transmit_buf_length ≡ length message
    → length message < 2 ^ 32
    → w.left_window_cursor < length message
    → Sends message w
        (send_packet clock w.left_window_cursor w).0
        (send_packet clock w.left_window_cursor w).1
unfolding send_packet count_run
send_packet-Sends clock message w b l k h =
    let d = packet_kind-SameData w.left_window_cursor w.base in
    record {
      same = record { buf = d.buf; len = d.len; cursor = d.cursor };
      delivers = refl;
      sent = inr (
        _,
        refl,
        record {
          inside = rw (packet_kind-seq w.left_window_cursor w.base) h;
          bytes =
              fill_data-chunk message w.left_window_cursor _ (d.buf ∙ b) (d.len ∙ l) (omega arith) k
              ∙ ap (chunk message) (sym (packet_kind-seq w.left_window_cursor w.base));
        },
        packet_kind-seq w.left_window_cursor w.base,
      );
    }

pub do_send-Sends :
    (clock : ℕ) (message : List ℕ) (w : Writer)
    → w.transmit_buf ≡ message
    → w.transmit_buf_length ≡ length message
    → 0 < length message
    → length message < 2 ^ 31
    → w.left_window_cursor < 2 ^ 32
    → Sends message w (do_send clock w).0 (do_send clock w).1
unfolding do_send
do_send-Sends clock message w b l positive k h =
    elim (Bool-cases (test_status force_stop_bit w.base)) [
      | inl stop ↦
          let q = suspend-Silent w.base in
          rw stop (record { same = q.same; delivers = q.delivers; sent = inl q.sends })
      | inr run ↦ elim (Bool-cases (ltb (last_byte w.base) (u32 w.left_window_cursor))) [
        | inl done ↦
            rw (run, done)
              (record {
                same = record { buf = refl; len = refl; cursor = refl };
                delivers = refl;
                sent = inl refl;
              })
        | inr more ↦
            let word : u32 w.left_window_cursor ≡ w.left_window_cursor = omega arith in
            rw (run, more, word)
              (send_packet-Sends clock message w b l (omega arith) (within word more))
      ]
    ]
  where
    within :
        u32 w.left_window_cursor ≡ w.left_window_cursor
        → ltb (last_byte w.base) (u32 w.left_window_cursor) ≡ false
        → w.left_window_cursor < length message
    within word more = ground arith

acknowledged-Silent :
    (clock seq time : ℕ) (w : Writer)
    → Silent (acknowledged clock seq time w).0.base w.base (acknowledged clock seq time w).1
unfolding acknowledged count_run
acknowledged-Silent clock seq time w =
    let c = count_run w.base in
    let sampled = rto_sample clock time (record w { base = c }) in
    ground (
      arith,
      suspend-Silent (record c { trans_result_code = trans_successfully }),
      sample-SameData clock time (record w { base = c }),
      queue-Silent sampled.base,
    )

-- An acknowledgement raises the cursor to its number at most, and sends nothing by itself.
pub record Raised (seq : ℕ) (w w' : Writer) (es : List Effect) : Type 0 where
  pub buf : w'.transmit_buf ≡ w.transmit_buf
  pub len : w'.transmit_buf_length ≡ w.transmit_buf_length
  pub cursor : w'.left_window_cursor ≡ max w.left_window_cursor seq
  pub sends : packets es ≡ []
  pub delivers : deliveries es ≡ []

pub do_network_data-Raised :
    (clock seq time : ℕ) (w : Writer)
    → Raised seq w (do_network_data clock seq time w).0 (do_network_data clock seq time w).1
unfolding do_network_data
do_network_data-Raised clock seq time w =
    let moved : Writer = record w {
      base = record w.base { left_window_cursor = max w.left_window_cursor seq };
      try_time = 0;
    } in
    rw (set_left_window_cursor_lem seq w.left_window_cursor, do_network_data)
      (ground (arith, acknowledged-Silent clock seq time moved))
