-- ===== src/ComplexReader/Invariant.antt =====
-- What holds of the reader of hds_udp/connection/HDS_UDP_Complex_Connection.cpp while packets of one
-- message arrive in any order, any number of times, and its timers fire.
use test_resend.Prelude.{
  ℕ, ◌/◌, ◌<◌, ◌≡◌, ◌⊎◌, inl, inr, refl, ap, ◌∙◌, arith, Bool, true, false, ◌||◌, List, [], ◌∷◌,
  ◌++◌, length, get_or,
}
use test_resend.Connection.{Connection, Effect, recver_succ_timer, add_timer}
use test_resend.AckCollector.Repr.{Represents}
use test_resend.SimpleTransfer.{deliveries}
use test_resend.SimpleTransfer.WriterFrame.{SameData}
use test_resend.SimpleTransfer.ReaderFrame.{ended}
use test_resend.ComplexReader.{ComplexReader}
use test_resend.ComplexReader.Bytes.{equal_by_bytes}

-- Whether a handler sets the timer that delivers.
abbrev pub arms : List Effect → Bool
arms [] = false
arms (add_timer due recver_succ_timer n ∷ es) = true
arms (_ ∷ es) = arms es

pub record State : Type 0 where
  pub reader : ComplexReader
  pub armed : Bool
  pub delivered : List (List ℕ)

abbrev pub acts : State → ComplexReader × List Effect → State
acts s (r, es) = record {
  reader = r;
  armed = s.armed || arms es;
  delivered = deliveries es ++ s.delivered;
}

-- Every byte of every packet of the message has arrived.
abbrev pub AllArrived : List ℕ → (ℕ → Bool) → Type 0
AllArrived message recv = (i : ℕ) → i < length message → recv (i / 1452) ≡ true

abbrev pub Output : List ℕ → Connection → List (List ℕ) → Type 0
Output message c out = (out ≡ []) ⊎ ((out ≡ message ∷ []) × (ended c ≡ true))

pub record Inv (message : List ℕ) (s : State) : Type 0 where
  pub recv : ℕ → Bool
  pub repr : Represents recv s.reader.collector
  pub len : s.reader.transmit_buf_length ≡ length message
  pub size : length s.reader.transmit_buf ≡ length message
  pub right :
      (i : ℕ)
      → i < length message
      → recv (i / 1452) ≡ true
      → get_or s.reader.transmit_buf i 0 ≡ get_or message i 0
  pub covered : s.armed ≡ true → AllArrived message recv
  pub output : Output message s.reader.base s.delivered

-- A handler that leaves the data alone and delivers nothing.
pub record Quiet (message : List ℕ) (recv : ℕ → Bool) (r r' : ComplexReader) (es : List Effect)
    : Type 0 where
  pub same : SameData r'.base r.base
  pub keeps : ended r.base ≡ true → ended r'.base ≡ true
  pub delivers : deliveries es ≡ []
  pub arming : arms es ≡ true → AllArrived message recv
  pub repr : Represents recv r'.collector

or_cases : (a b : Bool) → (a || b) ≡ true → (a ≡ true) ⊎ (b ≡ true)
or_cases true b e = inl refl
or_cases false b e = inr e

module _ (message : List ℕ) (s : State) (v : Inv message s) where
  pub Quiet-Inv :
      {r' : ComplexReader} {es : List Effect}
      → Quiet message v.recv s.reader r' es
      → Inv message (acts s (r', es))
  Quiet-Inv {r'} {es} q = record {
    recv = v.recv;
    repr = q.repr;
    len = q.same.len ∙ v.len;
    size = ap length q.same.buf ∙ v.size;
    right = λ i h a. ap (λ b. get_or b i 0) q.same.buf ∙ v.right i h a;
    covered = λ e. elim (or_cases s.armed (arms es) e) [ inl a ↦ v.covered a | inr a ↦ q.arming a ];
    output = ground (arith, v.output, q.delivers, q.keeps);
  }

  -- The buffer, when every packet is there.
  pub complete : AllArrived message v.recv → s.reader.transmit_buf ≡ message
  complete a = equal_by_bytes s.reader.transmit_buf message v.size (λ i h. v.right i h (a i h))
