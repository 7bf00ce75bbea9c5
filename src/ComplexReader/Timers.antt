-- ===== src/ComplexReader/Timers.antt =====
-- The timers of the reader of hds_udp/connection/HDS_UDP_Complex_Connection.cpp.
use mathlib.Core.Bool.{false≢true}
use test_resend.Prelude.{
  ℕ, ◌/◌, ◌<◌, ◌^◌, ◌≡◌, inl, inr, refl, sym, ◌∙◌, arith, Bool, true, false, ◌||◌, Bool-cases, List,
  [], ◌∷◌, ◌++◌, length, Option, some,
}
use test_resend.Connection.{
  Connection, Effect, TimerType, recver_check_dead_timer, connection_suspend_timer,
  force_reset_timer, recver_ack_timer, recver_succ_timer, sender_keeping_timer, add_timer,
  release_connection_id, force_stop_bit, trans_suc_bit, test_status, set_status, reset_status,
  suspend, last_byte, set_recv_succ_timer_bit, reader_sack_bit, trans_successfully,
}
use test_resend.Connection.Status.{set_status_first, test-set_status, test-reset_status}
use test_resend.AckCollector.{AckInfoCollector, AckType, ack, sack}
use test_resend.AckCollector.Repr.{Represents}
use test_resend.AckCollector.Ack.{seq_at, time_of, get_next_ack_refines}
use test_resend.SimpleReader.{
  failed_and_clean, free_reader, fail_once, reader_suspended, check_dead,
}
use test_resend.SimpleTransfer.{deliveries}
use test_resend.SimpleTransfer.WriterFrame.{SameData}
use test_resend.SimpleTransfer.ReaderFrame.{
  ended, Idle, fail_once-Silent, fail_once-ended, check_dead-Idle, reader_suspended-Idle,
}
use test_resend.ComplexReader.{
  ComplexReader, succ_timer, ack_kind, after_ack, send_ack, ack_timer, do_time_out,
}
use test_resend.ComplexReader.Invariant.{
  State, acts, arms, AllArrived, Inv, Output, Quiet-Inv, complete,
}

-- A handler returns, and what it returns keeps the invariant.
abbrev pub Result : List ℕ → State → Option (ComplexReader × List Effect) → Type 0
Result message s o = (q : ComplexReader × List Effect) × (o ≡ some q) × Inv message (acts s q)

fail_arms : (c : Connection) → arms (fail_once c).1 ≡ false
unfolding fail_once failed_and_clean
fail_arms c = ground arith

dead_arms : (rc : ℕ) (c : Connection) → arms (check_dead rc c).1 ≡ false
unfolding check_dead suspend
dead_arms rc c = ground arith

arms-append : (es fs : List Effect) → arms (es ++ fs) ≡ (arms es || arms fs)
arms-append [] fs = refl
arms-append (add_timer due recver_succ_timer n ∷ es) fs = refl
arms-append (_ ∷ es) fs = arms-append es fs

free_arms : (c : Connection) → arms (free_reader c).1 ≡ false
unfolding free_reader
free_arms c = ground arith

suspended_arms : (c : Connection) → arms (reader_suspended c).1 ≡ false
unfolding reader_suspended
suspended_arms c = ground (
  arith,
  fail_arms c,
  free_arms (fail_once c).0,
  arms-append (fail_once c).1 (release_connection_id ∷ (free_reader (fail_once c).0).1),
)

succ-Output :
    (message : List ℕ) (c : Connection) (out : List (List ℕ))
    → c.transmit_buf ≡ message
    → Output message c out
    → Output message (succ_timer c).0 (deliveries (succ_timer c).1 ++ out)
unfolding succ_timer
succ-Output message c out whole o =
    ground (arith, set_status_first trans_suc_bit c, test-set_status trans_suc_bit trans_suc_bit c)

module _ (message : List ℕ) (s : State) (v : Inv message s) where
  idle-Inv :
      (c : Connection) (es : List Effect)
      → Idle s.reader.base c es
      → arms es ≡ false
      → Inv message (acts s (record s.reader { base = c }, es))
  idle-Inv c es q e = Quiet-Inv message s v {es = es} (record {
    same = q.silent.same;
    keeps = q.keeps;
    delivers = q.silent.delivers;
    arming = λ a. absurd (false≢true (sym e ∙ a));
    repr = v.repr;
  })

  pub nothing_done : Inv message (acts s (s.reader, []))
  nothing_done = Quiet-Inv message s v {es = []} (record {
    same = record { buf = refl; len = refl; cursor = refl };
    keeps = λ e. e;
    delivers = refl;
    arming = λ a. absurd (false≢true a);
    repr = v.repr;
  })

  delivered_now :
      s.armed ≡ true
      → Inv message (
          acts s
            (record s.reader { base = (succ_timer s.reader.base).0 }, (succ_timer s.reader.base).1))
  unfolding succ_timer set_status
  delivered_now a =
      let whole : s.reader.transmit_buf ≡ message = complete message s v (v.covered a) in
      record {
        recv = v.recv;
        repr = v.repr;
        len = v.len;
        size = v.size;
        right = v.right;
        covered = λ _. v.covered a;
        output = succ-Output message s.reader.base s.delivered whole v.output;
      }

-- The acknowledgement changes flags, and sets the timer that delivers when it covers every byte.
send_ack-SameData :
    (type : AckType) (seq time : ℕ) (c : Connection) → SameData (send_ack type seq time c).0 c
unfolding send_ack ack_kind after_ack set_status reset_status
send_ack-SameData type seq time c = ground arith

send_ack-quiet :
    (type : AckType) (seq time : ℕ) (c : Connection)
    → (deliveries (send_ack type seq time c).1 ≡ [])
      × (arms (send_ack type seq time c).1 ≡ true → last_byte c < seq)
unfolding send_ack ack_kind after_ack set_status reset_status
send_ack-quiet type seq time c = ground arith

after_ack-ended : (seq : ℕ) (c : Connection) → ended (after_ack seq c).0 ≡ ended c
unfolding after_ack test_status
after_ack-ended seq c =
    let done : Connection = record c { trans_result_code = trans_successfully } in
    ground (arith, test-set_status set_recv_succ_timer_bit trans_suc_bit done (omega arith))

ack_kind-ended : (type : AckType) (c : Connection) → ended (ack_kind type c).1 ≡ ended c
unfolding ack_kind
ack_kind-ended sack c = test-set_status reader_sack_bit trans_suc_bit c (omega arith)
ack_kind-ended ack c = test-reset_status reader_sack_bit trans_suc_bit c (omega arith)

send_ack-ended :
    (type : AckType) (seq time : ℕ) (c : Connection) → ended (send_ack type seq time c).0 ≡ ended c
unfolding send_ack
send_ack-ended type seq time c = after_ack-ended seq (ack_kind type c).1 ∙ ack_kind-ended type c

-- A position beyond the last byte covers every byte.
covers :
    (message : List ℕ) {recv : ℕ → Bool} {k : AckInfoCollector} (c : Connection)
    → c.transmit_buf_length ≡ length message
    → length message < 2 ^ 32
    → Represents recv k
    → last_byte c < seq_at k
    → AllArrived message recv
covers message c len small w past i h = w.below (i / 1452) (omega arith)

module _ (message : List ℕ) (small : length message < 2 ^ 32) (s : State) (v : Inv message s) where
  acked :
      (type : AckType) (time : ℕ) (k : AckInfoCollector)
      → Represents v.recv k
      → let (c, es) = send_ack type (seq_at k) time s.reader.base in
        Inv message (acts s (record { base = c; collector = k }, es))
  acked type time k w =
      let (quiet, covered) = send_ack-quiet type (seq_at k) time s.reader.base in
      Quiet-Inv message s v {es = (send_ack type (seq_at k) time s.reader.base).1} (record {
        same = send_ack-SameData type (seq_at k) time s.reader.base;
        keeps = λ e. send_ack-ended type (seq_at k) time s.reader.base ∙ e;
        delivers = quiet;
        arming = λ a. covers message s.reader.base v.len small w (covered a);
        repr = w;
      })

  ack_timer-Result : Result message s (ack_timer s.reader)
  unfolding ack_timer
  ack_timer-Result =
      elim (Bool-cases
        (test_status force_stop_bit s.reader.base || test_status trans_suc_bit s.reader.base)) [
          | inl e ↦ ((s.reader, []), rw (e, ack_timer), nothing_done message s v)
          | inr e ↦
              let (type, k, run, w, _, _, _) = get_next_ack_refines v.repr in
              let sent = send_ack type (seq_at k) (time_of s.reader.collector) s.reader.base in
              (
                (record { base = sent.0; collector = k }, sent.1),
                rw (e, run, ack_timer),
                acked type (time_of s.reader.collector) k w,
              )
        ]

  -- Every timer of the reader, the one that delivers when it was set.
  pub time_out-Result :
      (type : TimerType) (running_count : ℕ)
      → (type ≡ recver_succ_timer → s.armed ≡ true)
      → Result message s (do_time_out type running_count s.reader)
  unfolding do_time_out
  time_out-Result force_reset_timer rc h = (
    _,
    refl,
    idle-Inv message s v _ _
        (record {
          silent = fail_once-Silent s.reader.base;
          keeps = λ _. fail_once-ended s.reader.base;
        })
        (fail_arms s.reader.base),
  )
  time_out-Result recver_check_dead_timer rc h = (
    _,
    refl,
    idle-Inv message s v _ _ (check_dead-Idle rc s.reader.base) (dead_arms rc s.reader.base),
  )
  time_out-Result connection_suspend_timer rc h = (
    _,
    refl,
    idle-Inv message s v _ _ (reader_suspended-Idle s.reader.base) (suspended_arms s.reader.base),
  )
  time_out-Result recver_succ_timer rc h = (_, refl, delivered_now message s v (h refl))
  time_out-Result recver_ack_timer rc h = ack_timer-Result
  time_out-Result sender_keeping_timer rc h = (_, refl, nothing_done message s v)
