-- ===== src/ComplexReader/Delivery.antt =====
-- What the reader of hds_udp/connection/HDS_UDP_Complex_Connection.cpp promises, whatever order its
-- packets come in and whenever its timers fire.
use mathlib.Core.Path.{subst}
use test_resend.Prelude.{
  ℕ, ◌*◌, ◌<◌, ◌^◌, ◌≡◌, ◌⊎◌, refl, sym, ◌∙◌, arith, true, false, List, [], ◌∷◌, length, replicate,
  inl, length-replicate, Option, some, some-injective,
}
use test_resend.Wire.{ConnectionId}
use test_resend.Connection.{Effect, TimerType, recver_succ_timer}
use test_resend.AckCollector.{init}
use test_resend.AckCollector.Repr.{init-Represents}
use test_resend.SimpleTransfer.{fresh_connection}
use test_resend.SimpleTransfer.Chunks.{chunk}
use test_resend.ComplexReader.{ComplexReader, do_time_out, do_network_data}
use test_resend.ComplexReader.Invariant.{State, acts, Inv}
use test_resend.ComplexReader.Timers.{Result, time_out-Result}
use test_resend.ComplexReader.Packets.{network-Result}

-- The reader that `start_recver` makes for a message of this length.
abbrev pub start : List ℕ → ConnectionId → State
start message id = record {
  reader = record {
    base = record (fresh_connection (replicate (length message) 0) message id) { status = 16 };
    collector = init;
  };
  armed = false;
  delivered = [];
}

-- A packet of the message, with the number `p`, or a timer. The timer that delivers fires only when a
-- handler has set it.
pub data Step (message : List ℕ) (s : State) : State → Type 0 where
  packet :
      (p time : ℕ) {q : ComplexReader × List Effect}
      → p * 1452 < length message
      → do_network_data (p * 1452) time (chunk message (p * 1452)) s.reader ≡ some q
      → Step message s (acts s q)
  time_out :
      (type : TimerType) (running_count : ℕ) {q : ComplexReader × List Effect}
      → (type ≡ recver_succ_timer → s.armed ≡ true)
      → do_time_out type running_count s.reader ≡ some q
      → Step message s (acts s q)

pub data Reach (message : List ℕ) (s : State) : State → Type 0 where
  here : Reach message s s
  next : {t u : State} → Reach message s t → Step message t u → Reach message s u

start-Inv : (message : List ℕ) (id : ConnectionId) → Inv message (start message id)
start-Inv message id = record {
  recv = λ _. false;
  repr = init-Represents;
  len = refl;
  size = length-replicate (length message) 0;
  right = λ i h e. cc;
  covered = λ e. cc;
  output = inl refl;
}

-- The invariant at the result that an equation names.
Result-Inv :
    {message : List ℕ} (s : State) {o : Option (ComplexReader × List Effect)}
    {q : ComplexReader × List Effect}
    → Result message s o
    → o ≡ some q
    → Inv message (acts s q)
Result-Inv {message} s (q0, run, v) e =
    subst (λ q. Inv message (acts s q)) (some-injective (sym run ∙ e)) v

module _ (message : List ℕ) (small : length message < 2 ^ 32) where
  Step-Inv : {s t : State} → Inv message s → Step message s t → Inv message t
  Step-Inv {s} v (packet p time within e) =
      Result-Inv s (network-Result message small s v p within time) e
  Step-Inv {s} v (time_out type rc allowed e) =
      Result-Inv s (time_out-Result message small s v type rc allowed) e

  Reach-Inv : {s t : State} → Inv message s → Reach message s t → Inv message t
  Reach-Inv v here = v
  Reach-Inv v (next r q) = Step-Inv (Reach-Inv v r) q

  module _ (id : ConnectionId) (t : State) (run : Reach message (start message id) t) where
    reached : Inv message t
    reached = Reach-Inv (start-Inv message id) run

    -- After any run of a complex reader on the packets of a message below 2 ^ 32 bytes, in any order
    -- and any number of times, with any timers, either nothing was delivered or exactly one message
    -- was, and it is the message that the packets were cut from.
    pub complex_delivered_once : (t.delivered ≡ []) ⊎ (t.delivered ≡ message ∷ [])
    complex_delivered_once = ground (arith, reached.output)

    -- In the same runs, the handler of the next packet of the message returns.
    complex_packet_returns :
        (p time : ℕ)
        → p * 1452 < length message
        → (q : ComplexReader × List Effect) × (do_network_data
              (p * 1452)
              time
              (chunk message (p * 1452))
              t.reader
            ≡ some q)
    complex_packet_returns p time within =
        let (q, e, _) = network-Result message small t reached p within time in (q, e)

    -- In the same runs, the handler of the next timer returns, for the timer that delivers when it was
    -- set.
    complex_timer_returns :
        (type : TimerType) (running_count : ℕ)
        → (type ≡ recver_succ_timer → t.armed ≡ true)
        → (q : ComplexReader × List Effect) × (do_time_out type running_count t.reader ≡ some q)
    complex_timer_returns type rc allowed =
        let (q, e, _) = time_out-Result message small t reached type rc allowed in (q, e)
