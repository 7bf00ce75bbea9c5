-- ===== src/SenderThreads.antt =====
-- hds_udp/connection/HDS_UDP_Connection_Sender.cpp: the queue of writers that want to send, by their
-- offsets in the id table, and the rounds of a thread that serves them. What a writer's `_do_send` does is
-- an argument, and `memory` holds the writers.
pub mod Serving
use test_resend.Prelude.{ℕ, zero, suc, ◌==◌, if◌then◌else◌, Bool, List, [], ◌∷◌, Option, none, some}
use test_resend.Connection.{Effect, add_to_send_queue}
use test_resend.Writer.{Writer}
use test_resend.Table.{Table, get_connection, offset_of, connection_do_sender}
use test_resend.SendQueue.{BlockingQueue, enqueue, dequeue}

-- `Sender::add_to_send_queue`: whether a thread is woken, and the queue.
unfoldable pub add_offset : ℕ → BlockingQueue ℕ → Bool × BlockingQueue ℕ
add_offset offset queue = enqueue offset queue

-- What a round does to a writer: its address, the writer and the effects.
abbrev pub Served : Type 0
Served = Option (ℕ × Writer × List Effect)

-- The offsets that the effects of a writer put into the queue: `add_to_send_queue` takes the one of its id.
unfoldable pub again_of : ℕ → List Effect → List ℕ
again_of offset [] = []
again_of offset (add_to_send_queue ∷ effects) = offset ∷ again_of offset effects
again_of offset (_ ∷ effects) = again_of offset effects

abbrev pub again : Served → List ℕ
again none = []
again (some (con, w, effects)) = again_of (offset_of w.con_id.id0) effects

-- The writer after its round is what `memory` has at its address.
unfoldable pub write_back : Served → (ℕ → Writer) → ℕ → Writer
write_back none memory a = memory a
write_back (some (con, w, effects)) memory a = if a == con then w else memory a

-- Some calls of `add_to_send_queue`.
unfoldable pub enqueue_all : List ℕ → BlockingQueue ℕ → BlockingQueue ℕ
enqueue_all [] queue = queue
enqueue_all (offset ∷ offsets) queue = enqueue_all offsets (add_offset offset queue).1

module _ (do_send : ℕ → Writer → Writer × List Effect) (t : Table) where
  -- `connection_do_sender` for an offset.
  unfoldable pub serve : (ℕ → Writer) → ℕ → Served
  serve memory offset = elim (get_connection offset t) [
    | none ↦ none
    | some con ↦
        let (w, effects) = connection_do_sender (do_send con) (memory con) in some (con, w, effects)
  ]

  -- A round of `_sender_routine`: `none` is a thread that goes on to wait.
  unfoldable pub sender_routine :
      (ℕ → Writer) → BlockingQueue ℕ → Option Served × (ℕ → Writer) × BlockingQueue ℕ
  sender_routine memory queue =
      let (head, rest) = dequeue queue in
      elim head [
        | none ↦ (none, memory, rest)
        | some offset ↦
            let served = serve memory offset in
            (some served, write_back served memory, enqueue_all (again served) rest)
      ]

  -- Some rounds, one after the other.
  unfoldable pub rounds :
      ℕ → (ℕ → Writer) → BlockingQueue ℕ → List Served × (ℕ → Writer) × BlockingQueue ℕ
  rounds zero memory queue = ([], memory, queue)
  rounds (suc n) memory queue =
      let (served, memory', rest) = sender_routine memory queue in
      let (more, memory'', left) = rounds n memory' rest in
      elim served [ none ↦ (more, memory'', left) | some s ↦ (s ∷ more, memory'', left) ]
