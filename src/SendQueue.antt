-- ===== src/SendQueue.antt =====
-- The queue between the handlers and the sender threads: hds_udp/common/HDS_Blocking_Queue.h, with
-- the two lists of hds_udp/common/s_list.h as lists. The branch for POSIX threads is modelled; what
-- runs under a lock is one step.
pub mod Fifo
pub mod Waking
use test_resend.Prelude.{Bool, true, false, List, [], ◌∷◌, ◌++◌, Option, none, some}

-- `s_list::push_back`, when the pool has memory.
abbrev pub push_back {ℓ} : {A : Type ℓ} → A → List A → List A
push_back t1 list = list ++ (t1 ∷ [])

-- `s_list::dequeue_head`: `none` is the result -1.
abbrev pub dequeue_head {ℓ} : {A : Type ℓ} → List A → Option A × List A
dequeue_head [] = (none, [])
dequeue_head (x ∷ rest) = (some x, rest)

-- The two cursors always differ, so the queues are named by their role.
pub record BlockingQueue {ℓ} (A : Type ℓ) : Type ℓ where
  pub read_queue : List A
  pub write_queue : List A
  pub reader_blocked : Bool

abbrev pub new_queue {ℓ} : {A : Type ℓ} → BlockingQueue A
new_queue = record { read_queue = []; write_queue = []; reader_blocked = false }

module _ {ℓ} {A : Type ℓ} where
  -- `enqueue`: whether it calls `wait_up`, and the queue.
  unfoldable pub enqueue : A → BlockingQueue A → Bool × BlockingQueue A
  enqueue data_in q = (
    q.reader_blocked,
    record q { write_queue = push_back data_in q.write_queue; reader_blocked = false },
  )

  -- The two cursors are exchanged.
  abbrev pub swap : BlockingQueue A → BlockingQueue A
  swap q = record q { read_queue = q.write_queue; write_queue = q.read_queue }

  abbrev pub take_head : BlockingQueue A → Option A × BlockingQueue A
  take_head q =
      let (head, rest) = dequeue_head q.read_queue in (head, record q { read_queue = rest })

  -- The read queue was empty.
  unfoldable pub dequeue_other : BlockingQueue A → Option A × BlockingQueue A
  dequeue_other q = elim q.reader_blocked [
    | true ↦ (none, q)
    | false ↦ elim q.write_queue [
      | [] ↦ (none, record q { reader_blocked = true })
      | ◌∷◌ x xs ↦ take_head (swap q)
    ]
  ]

  -- `dequeue` up to the wait: `none` means that the reader goes on to wait.
  unfoldable pub dequeue : BlockingQueue A → Option A × BlockingQueue A
  dequeue q = elim q.read_queue [ [] ↦ dequeue_other q | ◌∷◌ x xs ↦ take_head q ]

  -- `dequeue` after the wait: `none` is the result -1.
  unfoldable pub dequeue_woken : BlockingQueue A → Option A × BlockingQueue A
  dequeue_woken q = take_head q
