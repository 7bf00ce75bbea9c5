-- ===== src/SimpleTransfer/ReaderFrame.antt =====
-- What the reader of hds_udp/connection/HDS_UDP_Simple_Connection.cpp does to its buffer, its cursor
-- and the bit that marks the end of the transfer.
use test_resend.Prelude.{
  ℕ, ◌<◌, ◌≡◌, ◌⊎◌, inl, inr, refl, ap, ◌∙◌, arith, ◌==◌, leb, Bool, true, false, ◌||◌, Bool-cases,
  List, [], ◌∷◌, ◌++◌,
}
use test_resend.Prelude.Words.{u32, add32, add64, sub64}
use test_resend.Config.{packet_max_data_length}
use test_resend.Connection.{
  Connection, Effect, Packet, simple_file_ack, msg_reset, TimerType, recver_check_dead_timer,
  connection_suspend_timer, force_reset_timer, TransResultCode, trans_successfully, trans_time_out,
  release_connection_id, kernel_send, push_msg, suspend, set_status, reset_status, test_status,
  last_byte, memcpy_at, trans_suc_bit, force_stop_bit, in_recv_wait_ack_queue_bit, buf_clean_bit,
}
use test_resend.Connection.Status.{test-set_status, test-reset_status}
use test_resend.Writer.{count_run}
use test_resend.SimpleReader.{
  SimpleReader, failed_and_clean, fail_once, free_reader, reader_suspended, check_dead, do_time_out,
  reply_packet, finished_reply, complete, deliver, take_packet, do_network_data,
}
use test_resend.SimpleTransfer.{packets, deliveries}
use test_resend.SimpleTransfer.WriterFrame.{SameData, Silent, suspend-Silent}

-- The transfer has ended.
abbrev pub ended : Connection → Bool
ended c = test_status trans_suc_bit c

-- Nothing is sent or delivered, the data stays, and an end is not taken back.
pub record Idle (a b : Connection) (es : List Effect) : Type 0 where
  pub silent : Silent b a es
  pub keeps : ended a ≡ true → ended b ≡ true

clean_quiet :
    (code : TransResultCode)
    → (packets (failed_and_clean code) ≡ []) × (deliveries (failed_and_clean code) ≡ [])
unfolding failed_and_clean
clean_quiet trans_successfully = (refl, refl)
clean_quiet _ = (refl, refl)

set_status-SameData : (k : ℕ) (c : Connection) → SameData (set_status k c).1 c
unfolding set_status
set_status-SameData k c = record { buf = refl; len = refl; cursor = refl }

reset_status-SameData : (k : ℕ) (c : Connection) → SameData (reset_status k c).1 c
unfolding reset_status
reset_status-SameData k c = record { buf = refl; len = refl; cursor = refl }

pub fail_once-Silent : (c : Connection) → Silent (fail_once c).0 c (fail_once c).1
unfolding fail_once
fail_once-Silent c =
    ground (arith, clean_quiet c.trans_result_code, set_status-SameData trans_suc_bit c)

-- Once `set_connection_trans_succ` has run, the transfer has ended.
pub fail_once-ended : (c : Connection) → ended (fail_once c).0 ≡ true
unfolding fail_once
fail_once-ended c = test-set_status trans_suc_bit trans_suc_bit c (omega arith)

suspend-ended : (c : Connection) → ended (suspend c).0 ≡ ended c
unfolding suspend
suspend-ended c = test-set_status buf_clean_bit trans_suc_bit c (omega arith)

pub check_dead-Idle : (rc : ℕ) (c : Connection) → Idle c (check_dead rc c).0 (check_dead rc c).1
unfolding check_dead test_status
check_dead-Idle rc c =
    let timed_out : Connection = record c { trans_result_code = trans_time_out } in
    ground (arith, suspend-Silent timed_out, suspend-ended timed_out)

free_reader-Silent : (c : Connection) → Silent (free_reader c).0 c (free_reader c).1
unfolding free_reader
free_reader-Silent c = ground (arith, reset_status-SameData in_recv_wait_ack_queue_bit c)

free_reader-ended : (c : Connection) → ended (free_reader c).0 ≡ ended c
unfolding free_reader
free_reader-ended c = test-reset_status in_recv_wait_ack_queue_bit trans_suc_bit c (omega arith)

packets-append : (es fs : List Effect) → packets (es ++ fs) ≡ packets es ++ packets fs
packets-append [] fs = refl
packets-append (kernel_send p ∷ es) fs = ap (λ l. p ∷ l) (packets-append es fs)
packets-append (_ ∷ es) fs = packets-append es fs

deliveries-append : (es fs : List Effect) → deliveries (es ++ fs) ≡ deliveries es ++ deliveries fs
deliveries-append [] fs = refl
deliveries-append (push_msg bytes ∷ es) fs = ap (λ l. bytes ∷ l) (deliveries-append es fs)
deliveries-append (_ ∷ es) fs = deliveries-append es fs

pub reader_suspended-Idle : (c : Connection) → Idle c (reader_suspended c).0 (reader_suspended c).1
unfolding reader_suspended
reader_suspended-Idle c =
    let failed = fail_once c in
    let freed = free_reader failed.0 in
    ground (
      arith,
      fail_once-Silent c,
      fail_once-ended c,
      free_reader-Silent failed.0,
      free_reader-ended failed.0,
      packets-append failed.1 (release_connection_id ∷ freed.1),
      deliveries-append failed.1 (release_connection_id ∷ freed.1),
    )

-- A timer of the reader never sends or delivers, and never undoes an end.
pub time_out-Idle :
    (type : TimerType) (running_count : ℕ) (r : SimpleReader)
    → Idle r.base (do_time_out type running_count r).0.base (do_time_out type running_count r).1
      × ((do_time_out type running_count r).0.memcpy_count ≡ r.memcpy_count)
unfolding do_time_out
time_out-Idle force_reset_timer rc r =
    (record { silent = fail_once-Silent r.base; keeps = λ _. fail_once-ended r.base }, refl)
time_out-Idle recver_check_dead_timer rc r = (check_dead-Idle rc r.base, refl)
time_out-Idle connection_suspend_timer rc r = (reader_suspended-Idle r.base, refl)
time_out-Idle _ rc r = (
  record {
    silent = record {
      same = record { buf = refl; len = refl; cursor = refl };
      sends = refl;
      delivers = refl;
    };
    keeps = λ e. e;
  },
  refl,
)

-- A packet that the reader does not take: it answers, and changes nothing but its running count.
pub record Stays (r r' : SimpleReader) (es : List Effect) : Type 0 where
  pub same : SameData r'.base r.base
  pub count : r'.memcpy_count ≡ r.memcpy_count
  pub status : r'.status ≡ r.status
  pub delivers : deliveries es ≡ []
  pub answers :
      (p : Packet) × (packets es ≡ p ∷ [])
      × ((p.msgtype ≡ msg_reset) ⊎ (p.dt_note ≡ u32 r'.left_window_cursor))

-- A packet that it takes: the bytes are copied, the cursor moves, and at the end the buffer is
-- delivered.
pub record Takes (seq : ℕ) (payload : List ℕ) (r r' : SimpleReader) (es : List Effect)
    : Type 0 where
  pub at_cursor : r.left_window_cursor ≡ seq
  pub running : ended r.base ≡ false
  pub buf : r'.transmit_buf ≡ memcpy_at seq payload r.transmit_buf
  pub len : r'.transmit_buf_length ≡ r.transmit_buf_length
  pub cursor : r'.left_window_cursor ≡ add32 seq 1452
  pub count : r'.memcpy_count ≡ add64 r.memcpy_count 1
  pub delivers :
      (deliveries es ≡ [])
      ⊎ ((deliveries es ≡ r'.transmit_buf ∷ [])
          × (ended r'.base ≡ true)
          × (last_byte r'.base < r'.left_window_cursor))
  pub answers : (p : Packet) × (packets es ≡ p ∷ []) × (p.dt_note ≡ u32 r'.left_window_cursor)

-- What the test of the end does.
record Delivers (r r' : SimpleReader) (es : List Effect) : Type 0 where
  same : SameData r'.base r.base
  count : r'.memcpy_count ≡ r.memcpy_count
  sends : packets es ≡ []
  delivers :
      (deliveries es ≡ [])
      ⊎ ((deliveries es ≡ r.transmit_buf ∷ [])
          × (ended r'.base ≡ true)
          × (last_byte r.base < r.left_window_cursor))

complete-past : (r : SimpleReader) → complete r ≡ true → last_byte r.base < r.left_window_cursor
unfolding complete
complete-past r e = ground arith

deliver_lem : (r : SimpleReader) → Delivers r (deliver r).0 (deliver r).1
unfolding deliver test_status
deliver_lem r = elim (Bool-cases (complete r)) [
  | inl full ↦ rw full (
      ground (
        arith,
        complete-past r,
        set_status-SameData trans_suc_bit r.base,
        test-set_status trans_suc_bit trans_suc_bit r.base,
      ))
  | inr short ↦ rw short (ground arith)
]

finished_answer :
    (seq time : ℕ) (c : Connection)
    → ((p : Packet) × (packets (finished_reply seq time c ∷ []) ≡ p ∷ [])
        × ((p.msgtype ≡ msg_reset) ⊎ (p.dt_note ≡ u32 c.left_window_cursor)))
      × (deliveries (finished_reply seq time c ∷ []) ≡ [])
unfolding finished_reply
finished_answer seq time c =
    elim (Bool-cases
      (leb (sub64 c.left_window_cursor c.transmit_buf_length) packet_max_data_length)) [
        | inl near ↦ rw near ((_, refl, inr refl), refl)
        | inr far ↦ rw far ((_, refl, inl refl), refl)
      ]

module _ (seq time : ℕ) (payload : List ℕ) (r : SimpleReader) where
  finished :
      (test_status force_stop_bit r.base || ended r.base) ≡ true
      → let (r', es) = do_network_data seq time payload r in Stays r r' es
  unfolding do_network_data
  finished e = rw e (record {
    same = record { buf = refl; len = refl; cursor = refl };
    count = refl;
    status = refl;
    delivers = (finished_answer seq time r.base).1;
    answers = (finished_answer seq time r.base).0;
  })

  waiting :
      (test_status force_stop_bit r.base || ended r.base) ≡ false
      → (r.left_window_cursor == seq) ≡ false
      → let (r', es) = do_network_data seq time payload r in Stays r r' es
  unfolding do_network_data count_run
  waiting e n =
      rw (e, n)
        (record {
          same = record { buf = refl; len = refl; cursor = refl };
          count = refl;
          status = refl;
          delivers = refl;
          answers = (_, refl, inr refl);
        })

  filled : SimpleReader
  filled = record r {
    base = record (count_run r.base) {
      left_window_cursor = add32 seq packet_max_data_length;
      transmit_buf = memcpy_at seq payload r.transmit_buf;
    };
    memcpy_count = add64 r.memcpy_count 1;
  }

  taken :
      (test_status force_stop_bit r.base || ended r.base) ≡ false
      → (r.left_window_cursor == seq) ≡ true
      → let (r', es) = do_network_data seq time payload r in Takes seq payload r r' es
  unfolding do_network_data count_run take_packet filled
  taken e y =
      let d = deliver_lem filled in
      let done = (deliver filled).0 in
      let answer = reply_packet simple_file_ack time (u32 done.left_window_cursor) done.base in
      rw (e, y)
        (record {
          at_cursor = ground arith;
          running = ground arith;
          buf = d.same.buf;
          len = d.same.len;
          cursor = d.same.cursor;
          count = d.count;
          delivers =
              ground
                (arith, deliveries-append (deliver filled).1 (kernel_send answer ∷ []), d.delivers);
          answers = (
            answer,
            packets-append (deliver filled).1 (kernel_send answer ∷ [])
                ∙ ap (λ l. l ++ (answer ∷ [])) d.sends,
            refl,
          );
        })

pub network-cases :
    (seq time : ℕ) (payload : List ℕ) (r : SimpleReader)
    → let (r', es) = do_network_data seq time payload r in Stays r r' es ⊎ Takes seq payload r r' es
network-cases seq time payload r =
    elim (Bool-cases (test_status force_stop_bit r.base || ended r.base)) [
      | inl e ↦ inl (finished seq time payload r e)
      | inr e ↦ elim (Bool-cases (r.left_window_cursor == seq)) [
        | inl y ↦ inr (taken seq time payload r e y)
        | inr n ↦ inl (waiting seq time payload r e n)
      ]
    ]
