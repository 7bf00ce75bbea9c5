-- ===== src/SendQueue/Waking.antt =====
-- Which enqueue wakes a waiting reader of hds_udp/common/HDS_Blocking_Queue.h.
use test_resend.Prelude.{◌≡◌, refl, Bool, false, ◌||◌, List, [], ◌∷◌}
use test_resend.SendQueue.{BlockingQueue, enqueue, push_back}

module _ {ℓ} {A : Type ℓ} where
  -- Whether one of these enqueues calls `wait_up`.
  abbrev pub wakes : List A → BlockingQueue A → Bool
  wakes [] q = false
  wakes (x ∷ xs) q = (enqueue x q).0 || wakes xs (enqueue x q).1

  unmarked_silent :
      (xs : List A) (q : BlockingQueue A) → q.reader_blocked ≡ false → wakes xs q ≡ false
  unfolding enqueue
  unmarked_silent [] q e = refl
  unmarked_silent (x ∷ xs) q e = rw (
    e,
    unmarked_silent xs
        (record q { write_queue = push_back x q.write_queue; reader_blocked = false }) refl,
  )

  -- After an enqueue no later enqueue calls `wait_up`, however many there are, until a reader marks
  -- itself as blocked again.
  one_wake_up : (q : BlockingQueue A) (x : A) (later : List A) → wakes later (enqueue x q).1 ≡ false
  unfolding enqueue
  one_wake_up q x later = unmarked_silent later (enqueue x q).1 refl
