-- ===== src/Submitting/Outcome.antt =====
-- How `start_sender` of hds_udp/connection/HDS_UDP_Connection.cpp ends.
use mathlib.Core.Path.{subst}
use test_resend.Prelude.{
  ℕ, ◌<◌, ◌≤◌, ◌^◌, ◌≡◌, ◌≢◌, refl, sym, ◌⊎◌, inl, inr, arith, if◌then◌else◌, true, false,
  Bool-cases, List, [], ◌∷◌, Option, none, some,
}
use test_resend.Prelude.Words.{add64}
use test_resend.Atomic.{bit_test_and_set, bit_test}
use test_resend.Config.{packet_max_data_length, small_file_max_size, max_connection_count}
use test_resend.Wire.{ConnectionId}
use test_resend.Connection.{
  Effect, add_to_send_queue, add_to_sender_queue, connection_type_bit, in_sender_bit, set_status,
  test_status,
}
use test_resend.Atomic.{bit_test_and_set, bit_test}
use test_resend.Writer.{Writer}
use test_resend.Rto.Bounds.{InRange}
use test_resend.ComplexWriter.{FactorOps}
use test_resend.ComplexWriter.Window.{WindowSized}
use test_resend.Table.{empty, create_connection_id, create_connection_id_label}
use test_resend.Table.Lookup.{Created, create_connection_id_lem}
use test_resend.Submitting.{
  construct, Submission, Senders, Clock, NewWriter, simple, complex, fill_in, is_small,
  construct_complex, new_writer, counted, make_sender, enqueue_writer, queue_made, start_sender,
}

-- A writer that is ready for its first packet: the message, nothing sent and nothing acknowledged, a
-- timeout in its range, and in the queue of the senders.
pub record Ready (id0 : ℕ) (m : Submission) (w : Writer) : Type 0 where
  pub own_id : w.con_id.id0 ≡ id0
  pub message : w.transmit_buf ≡ m.block
  pub size : w.transmit_buf_length ≡ m.block_length
  pub unsent : w.running_count ≡ 0
  pub unacknowledged : w.left_window_cursor ≡ 0
  pub in_range : InRange w.rtt
  pub is_writer : test_status connection_type_bit w.base ≡ true
  pub queued : test_status in_sender_bit w.base ≡ true

-- By the size of the message: one packet at a time, or a window of one packet.
abbrev pub FirstWriter :
    {Factor : Type 0} → FactorOps Factor → ℕ → ℕ → Submission → NewWriter Factor → Type 0
FirstWriter ops bound id0 m (simple w) = (m.block_length ≤ small_file_max_size) × Ready id0 m w
FirstWriter ops bound id0 m (complex w) =
    (small_file_max_size < m.block_length)
    × Ready id0 m w.writer
    × WindowSized ops bound w
    × (w.window_site ≡ packet_max_data_length)
    × (w.current_window_cursor ≡ 0)

-- The bounds that the application's threshold and window keep.
pub record WithinBound (bound : ℕ) (m : Submission) : Type 0 where
  pub packet : packet_max_data_length ≤ bound
  pub wide : bound < 2 ^ 62
  pub ssthresh_ge : packet_max_data_length ≤ m.default_ssthresh
  pub ssthresh_le : m.default_ssthresh ≤ bound
  pub window_le : m.max_window_size ≤ bound

-- The ends of `start_sender` for a writer that the pool gives: no id, and nothing has changed but the clock
-- of the ids; or a writer in its slot, in the queue, and counted once.
abbrev pub Started :
    {Factor : Type 0}
    → FactorOps Factor
    → ℕ
    → ℕ
    → Submission
    → Senders
    → Option (ℕ × ConnectionId × NewWriter Factor × List Effect) × Senders
    → Type 0
Started ops bound addr m s (none, s') =
    (s.table.cid_array s.table.cid_array_offset ≢ empty)
    × (s'.table.cid_array ≡ s.table.cid_array)
    × (s'.simple_writer_count ≡ s.simple_writer_count)
    × (s'.complex_writer_count ≡ s.complex_writer_count)
Started ops bound addr m s (some (a, id, w, effects), s') =
    (a ≡ addr)
    × Created addr id.id0 s.table s'.table
    × FirstWriter ops bound id.id0 m w
    × (effects ≡ add_to_send_queue ∷ [])
    × (s'.simple_writer_count
        ≡ (if is_small m then add64 s.simple_writer_count 1 else s.simple_writer_count))
    × (s'.complex_writer_count
        ≡ (if is_small m then s.complex_writer_count else add64 s.complex_writer_count 1))

abbrev queued_writer : ConnectionId → Submission → Writer
queued_writer id m = record (fill_in id m construct) {
  base = (add_to_sender_queue (fill_in id m construct).base).0;
}

queued_writer-Ready : (id : ConnectionId) (m : Submission) → Ready id.id0 m (queued_writer id m)
unfolding add_to_sender_queue fill_in set_status bit_test_and_set test_status bit_test
queued_writer-Ready id m = record {
  own_id = refl;
  message = refl;
  size = refl;
  unsent = refl;
  unacknowledged = refl;
  in_range = (omega arith, omega arith);
  is_writer = refl;
  queued = refl;
}

is_small_lem :
    (m : Submission)
    → ((is_small m ≡ true) × (m.block_length ≤ small_file_max_size))
      ⊎ ((is_small m ≡ false) × (small_file_max_size < m.block_length))
is_small_lem m = ground arith

first_window :
    {Factor : Type 0} (ops : FactorOps Factor) (bound : ℕ) (id : ConnectionId) (m : Submission)
    (w : Writer)
    → WithinBound bound m
    → WindowSized ops bound (record (construct_complex ops) {
      writer = w;
      default_window_size = m.max_window_size;
      window_ssthresh = m.default_ssthresh;
    })
unfolding construct_complex
first_window ops bound id m w h = record {
  packet = h.packet;
  wide = h.wide;
  default_le = h.window_le;
  site_ge = omega arith;
  ssthresh_ge = h.ssthresh_ge;
  site_le = omega (arith, h.packet);
  ssthresh_le = omega (arith, h.ssthresh_le);
  slow_start = λ _. h.ssthresh_le;
}

effects_lem :
    (id : ConnectionId) (m : Submission)
    → (add_to_sender_queue (fill_in id m construct).base).1 ≡ add_to_send_queue ∷ []
unfolding add_to_sender_queue fill_in set_status bit_test_and_set
effects_lem id m = refl

new_writer_lem :
    {Factor : Type 0} (ops : FactorOps Factor) (bound : ℕ) (id : ConnectionId) (m : Submission)
    → WithinBound bound m
    → FirstWriter ops bound id.id0 m (enqueue_writer ops (new_writer ops id m)).0
      × ((enqueue_writer ops (new_writer ops id m)).1 ≡ add_to_send_queue ∷ [])
unfolding new_writer enqueue_writer construct_complex
new_writer_lem ops bound id m h = elim (is_small_lem m) [
  | inl (e, small) ↦
      rw (e, new_writer, enqueue_writer) ((small, queued_writer-Ready id m), effects_lem id m)
  | inr (e, large) ↦
      rw (e, new_writer, enqueue_writer)
        (
          (
            large,
            queued_writer-Ready id m,
            first_window ops bound id m (queued_writer id m) h,
            refl,
            refl,
          ),
          effects_lem id m,
        )
]

counted_lem :
    {Factor : Type 0} (ops : FactorOps Factor) (m : Submission) (s : Senders)
    → ((counted ops m s).table ≡ s.table)
      × ((counted ops m s).simple_writer_count
          ≡ (if is_small m then add64 s.simple_writer_count 1 else s.simple_writer_count))
      × ((counted ops m s).complex_writer_count
          ≡ (if is_small m then s.complex_writer_count else add64 s.complex_writer_count 1))
unfolding counted
counted_lem ops m s = elim (Bool-cases (is_small m)) [
  | inl e ↦ rw (e, counted) (refl, refl, refl)
  | inr e ↦ rw (e, counted) (refl, refl, refl)
]

made :
    {Factor : Type 0} (ops : FactorOps Factor) (addr id0 : ℕ) (now : Clock) (m : Submission)
    (s : Senders)
    → (create_connection_id addr s.table).0 ≡ some id0
    → make_sender ops (some addr) now m s ≡ (
      some (
        addr,
        (record { id0 = id0; id1 = 0 }),
        new_writer ops
            (record { id0 = id0; id1 = create_connection_id_label now.tv_sec now.tv_usec })
            m,
      ),
      counted ops m (record s { table = (create_connection_id addr s.table).1 }),
    )
unfolding make_sender
made ops addr id0 now m s e = rw (make_sender, e) refl

unmade :
    {Factor : Type 0} (ops : FactorOps Factor) (addr : ℕ) (now : Clock) (m : Submission)
    (s : Senders)
    → (create_connection_id addr s.table).0 ≡ none
    → make_sender ops (some addr) now m s
      ≡ (none, record s { table = (create_connection_id addr s.table).1 })
unfolding make_sender
unmade ops addr now m s e = rw (make_sender, e) refl

-- With an offset inside the table, a writer that the pool gives, and a window and a threshold from the
-- application within a bound: when the slot at the offset is empty, the writer is in it, has the message,
-- has sent nothing, keeps its timeout and its window within their bounds, is once in the queue of the
-- senders and is counted in its kind, by the size of the message; when the slot is in use there is no
-- writer, and the slots and the counts are as they were.
pub start_sender_lem :
    {Factor : Type 0} (ops : FactorOps Factor) (bound addr : ℕ) (now : Clock) (m : Submission)
    (s : Senders)
    → s.table.cid_array_offset < max_connection_count
    → WithinBound bound m
    → Started ops bound addr m s (start_sender ops (some addr) now m s)
unfolding start_sender queue_made
start_sender_lem ops bound addr now m s inside h =
    let t' = (create_connection_id addr s.table).1 in
    elim (create_connection_id_lem addr s.table inside) [
      | inl (id0, e, c) ↦
          let id : ConnectionId = record {
            id0 = id0;
            id1 = create_connection_id_label now.tv_sec now.tv_usec;
          } in
          let n = counted_lem ops m (record s { table = t' }) in
          let w = new_writer_lem ops bound id m h in
          rw (made ops addr id0 now m s e)
            (refl, subst (Created addr id0 s.table) (sym n.0) c, w.0, w.1, n.1, n.2)
      | inr (e, used, kept) ↦ rw (unmade ops addr now m s e) (used, kept, refl, refl)
    ]
