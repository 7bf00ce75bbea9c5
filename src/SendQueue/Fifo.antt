-- ===== src/SendQueue/Fifo.antt =====
-- hds_udp/common/HDS_Blocking_Queue.h as one queue, first in, first out.
use mathlib.Core.Bool.{false≢true}
use test_resend.Prelude.{
  ◌≡◌, ◌⊎◌, refl, sym, ap, Bool, true, false, List, [], ◌∷◌, ◌++◌, none, some, inl, inr,
}
use test_resend.SendQueue.{BlockingQueue, enqueue, dequeue, dequeue_other}

module _ {ℓ} {A : Type ℓ} where
  -- What is in the queue, the oldest first.
  abbrev pub contents : BlockingQueue A → List A
  contents q = q.read_queue ++ q.write_queue

  -- A reader is marked as blocked only while nothing is in the write queue.
  abbrev pub WellMarked : BlockingQueue A → Type ℓ
  WellMarked q = q.reader_blocked ≡ true → q.write_queue ≡ []

  append_assoc : (xs ys zs : List A) → (xs ++ ys) ++ zs ≡ xs ++ (ys ++ zs)
  append_assoc [] ys zs = refl
  append_assoc (x ∷ xs) ys zs = ap (λ l. x ∷ l) (append_assoc xs ys zs)

  append_nil : (xs : List A) → xs ++ [] ≡ xs
  append_nil [] = refl
  append_nil (x ∷ xs) = ap (λ l. x ∷ l) (append_nil xs)

  -- An enqueue adds its value at the end, and keeps the mark right.
  pub enqueue_lem :
      (x : A) (q : BlockingQueue A)
      → (contents (enqueue x q).1 ≡ contents q ++ (x ∷ [])) × WellMarked (enqueue x q).1
  unfolding enqueue
  enqueue_lem x q =
      (sym (append_assoc q.read_queue q.write_queue (x ∷ [])), λ e. absurd (false≢true e))

  abbrev Dequeued : BlockingQueue A → Type ℓ
  Dequeued q =
      WellMarked (dequeue q).1
      × (((x : A) × ((dequeue q).0 ≡ some x) × (contents q ≡ x ∷ contents (dequeue q).1))
          ⊎ (((dequeue q).0 ≡ none) × (contents q ≡ []) × (contents (dequeue q).1 ≡ [])))

  by_fields :
      (r w : List A) (b : Bool)
      → (b ≡ true → w ≡ [])
      → Dequeued (record { read_queue = r; write_queue = w; reader_blocked = b })
  unfolding dequeue dequeue_other
  by_fields (x ∷ xs) w b m = (m, inl (x, refl, refl))
  by_fields [] w true m = (m, inr (refl, m refl, m refl))
  by_fields [] [] false m = ((λ _. refl), inr (refl, refl, refl))
  by_fields [] (x ∷ xs) false m =
      ((λ _. refl), inl (x, refl, ap (λ l. x ∷ l) (sym (append_nil xs))))

  -- On a queue whose mark is right, a dequeue gives the oldest value and leaves the rest, or it goes
  -- on to wait, and then the queue is empty. The mark stays right.
  pub dequeue_lem :
      (q : BlockingQueue A)
      → WellMarked q
      → WellMarked (dequeue q).1
        × (((x : A) × ((dequeue q).0 ≡ some x) × (contents q ≡ x ∷ contents (dequeue q).1))
            ⊎ (((dequeue q).0 ≡ none) × (contents q ≡ []) × (contents (dequeue q).1 ≡ [])))
  dequeue_lem q m = by_fields q.read_queue q.write_queue q.reader_blocked m
