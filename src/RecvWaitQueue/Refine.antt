-- ===== src/RecvWaitQueue/Refine.antt =====
-- The queue of hds_udp/connection/HDS_UDP_Connection_Recv_Wait_ACK_Queue.cpp beside the list of those
-- who wait.
use test_resend.Prelude.{
  ℕ, ◌^◌, ◌<◌, ◌≡◌, ◌≢◌, ◌⊎◌, refl, sym, ap, ◌∙◌, inl, inr, arith, Bool, true, false, ◌&&◌, List,
  [], ◌∷◌, Option, none, some, Option-cases,
}
use test_resend.Wire.{ConnectionId}
use test_resend.HpMap.{Root}
use test_resend.HpMap.Entries.{
  entries, lookup, find_node_lem, insert_entry, IsSorted, lookup-Above, Above-le, compare_cases,
}
use test_resend.HpMap.Insert.{my_rb_insert}
use test_resend.HpMap.Insert.Descent.{absent}
use test_resend.HpMap.Refine.{IsValid, Inserted, my_rb_insert_refines}
use test_resend.HpMap.Erase.{find_and_del, erase, returned}
use test_resend.HpMap.Erase.Removing.{remove_entry}
use test_resend.HpMap.Erase.Refine.{Erased, find_and_del_refines}
use test_resend.RecvWaitQueue.{wait_key, find, map_insert, insert, erase_id, waiting_insert}

-- Two words each.
abbrev pub IsId : ConnectionId → Type 0
IsId i = (i.id0 < 2 ^ 32) × (i.id1 < 2 ^ 32)

-- Different ids have different keys.
wait_key-injective :
    (i j : ConnectionId)
    → IsId i
    → IsId j
    → wait_key i ≡ wait_key j
    → (i.id0 ≡ j.id0) × (i.id1 ≡ j.id1)
wait_key-injective i j h g e =
    (omega (arith, h.0, h.1, g.0, g.1, e), omega (arith, h.0, h.1, g.0, g.1, e))

abbrev pub found : Option ℕ → Bool
found none = false
found (some offset) = true

-- A result of a call that is there: what it returns, and the queue.
abbrev pub Answers : Bool → List (ℕ × ℕ) → Option (Bool × Root ℕ) → Type 0
Answers flag m none = true ≡ false
Answers flag m (some (b, q)) = (b ≡ flag) × (entries q.rb_node ≡ m) × IsValid q

Inserted-Answers :
    (flag : Bool) (m : List (ℕ × ℕ)) (o : Option (Bool × Root ℕ))
    → Inserted flag m o
    → Answers flag m o
Inserted-Answers flag m none h = absurd (h tt)
Inserted-Answers flag m (some (b, q)) h = h

Erased-Answers :
    (v : Option ℕ) (m : List (ℕ × ℕ)) (o : Option (Option ℕ × Root ℕ))
    → Erased v m o
    → Answers (found v) m (returned o)
Erased-Answers v m none h = absurd (h tt)
Erased-Answers v m (some (none, q)) h = (ap found h.0, h.1, h.2)
Erased-Answers v m (some (some offset, q)) h = (ap found h.0, h.1, h.2)

pub insert-Answers :
    (has_node : Bool) (key offset : ℕ) (q : Root ℕ)
    → IsValid q
    → Answers
        (has_node && absent (lookup key (entries q.rb_node)))
        (waiting_insert has_node key offset (entries q.rb_node))
        (map_insert has_node key offset q)
unfolding map_insert waiting_insert
insert-Answers true key offset q h =
    Inserted-Answers (absent (lookup key (entries q.rb_node)))
      (insert_entry key offset (entries q.rb_node)) (my_rb_insert key offset q)
      (my_rb_insert_refines key offset q h)
insert-Answers false key offset q h = (refl, refl, h)

-- A key that an operation is not about.
lookup-insert_other :
    (key offset other : ℕ) (m : List (ℕ × ℕ))
    → key ≢ other
    → lookup other (insert_entry key offset m) ≡ lookup other m
unfolding lookup insert_entry
lookup-insert_other key offset other [] n = ground arith
lookup-insert_other key offset other ((k, v) ∷ m) n =
    ground (arith, lookup-insert_other key offset other m n)

lookup-remove_other :
    (key other : ℕ) (m : List (ℕ × ℕ))
    → key ≢ other
    → lookup other (remove_entry key m) ≡ lookup other m
unfolding lookup remove_entry
lookup-remove_other key other [] n = refl
lookup-remove_other key other ((k, v) ∷ m) n = ground (arith, lookup-remove_other key other m n)

apart_keys :
    (con other : ConnectionId)
    → IsId con
    → IsId other
    → (con.id0 ≢ other.id0) ⊎ (con.id1 ≢ other.id1)
    → wait_key con ≢ wait_key other
apart_keys con other g l (inl n) e = n (wait_key-injective con other g l e).0
apart_keys con other g l (inr n) e = n (wait_key-injective con other g l e).1

-- The calls beside the list.
calls_lem :
    (has_node : Bool) (con : ConnectionId) (offset : ℕ) (q : Root ℕ)
    → IsValid q
    → (find con q ≡ lookup (wait_key con) (entries q.rb_node))
      × Answers
          (has_node && absent (lookup (wait_key con) (entries q.rb_node)))
          (waiting_insert has_node (wait_key con) offset (entries q.rb_node))
          (insert has_node con offset q)
      × Answers
          (found (lookup (wait_key con) (entries q.rb_node)))
          (remove_entry (wait_key con) (entries q.rb_node))
          (erase_id con q)
unfolding find insert erase_id erase
calls_lem has_node con offset q h = (
  find_node_lem (wait_key con) q.rb_node h.sorted,
  insert-Answers has_node (wait_key con) offset q h,
  Erased-Answers (lookup (wait_key con) (entries q.rb_node))
      (remove_entry (wait_key con) (entries q.rb_node)) (find_and_del (wait_key con) q)
      (find_and_del_refines (wait_key con) q h),
)

-- Another id finds after a call what it found before.
abbrev pub KeepsOther : ConnectionId → Root ℕ → Option (Bool × Root ℕ) → Type 0
KeepsOther other q none = true ≡ false
KeepsOther other q (some (b, q')) = find other q' ≡ find other q

kept_other :
    (other : ConnectionId) (q : Root ℕ) (flag : Bool) (m : List (ℕ × ℕ))
    (o : Option (Bool × Root ℕ))
    → IsValid q
    → lookup (wait_key other) m ≡ lookup (wait_key other) (entries q.rb_node)
    → Answers flag m o
    → KeepsOther other q o
unfolding find
kept_other other q flag m none h e a = a
kept_other other q flag m (some (b, q')) h e a =
    find_node_lem (wait_key other) q'.rb_node a.2.sorted
    ∙ ap (lookup (wait_key other)) a.1
    ∙ e
    ∙ sym (find_node_lem (wait_key other) q.rb_node h.sorted)

waiting_insert_other :
    (has_node : Bool) (key offset other : ℕ) (m : List (ℕ × ℕ))
    → key ≢ other
    → lookup other (waiting_insert has_node key offset m) ≡ lookup other m
unfolding waiting_insert
waiting_insert_other true key offset other m n = lookup-insert_other key offset other m n
waiting_insert_other false key offset other m n = refl

-- On a valid queue every call returns, a find gives the offset that the list of those who wait has for
-- the id, an insertion puts the id into the list unless it is there or no node is left, and tells which,
-- a removal takes it out and tells whether it was there, and the queue stays valid. An id that differs in one
-- of its two words of 32 bits finds after an insertion and after a removal what it found before.
pub queue_refines :
    (has_node : Bool) (con other : ConnectionId) (offset : ℕ) (q : Root ℕ)
    → IsValid q
    → IsId con
    → IsId other
    → (con.id0 ≢ other.id0) ⊎ (con.id1 ≢ other.id1)
    → (find con q ≡ lookup (wait_key con) (entries q.rb_node))
      × Answers
          (has_node && absent (lookup (wait_key con) (entries q.rb_node)))
          (waiting_insert has_node (wait_key con) offset (entries q.rb_node))
          (insert has_node con offset q)
      × Answers
          (found (lookup (wait_key con) (entries q.rb_node)))
          (remove_entry (wait_key con) (entries q.rb_node))
          (erase_id con q)
      × KeepsOther other q (insert has_node con offset q)
      × KeepsOther other q (erase_id con q)
queue_refines has_node con other offset q h g l d =
    let m = entries q.rb_node in
    let apart : wait_key con ≢ wait_key other = apart_keys con other g l d in
    let r = calls_lem has_node con offset q h in
    (
      r.0,
      r.1,
      r.2,
      kept_other other q _ _ (insert has_node con offset q) h
          (waiting_insert_other has_node (wait_key con) offset (wait_key other) m apart) r.1,
      kept_other other q _ _ (erase_id con q) h
          (lookup-remove_other (wait_key con) (wait_key other) m apart) r.2,
    )

-- What a call leaves for the next.
pub lookup-insert_self :
    (key offset : ℕ) (m : List (ℕ × ℕ))
    → lookup key m ≡ none
    → lookup key (insert_entry key offset m) ≡ some offset
unfolding lookup insert_entry
lookup-insert_self key offset [] h = ground arith
lookup-insert_self key offset ((k, v) ∷ m) h = ground (arith, h, lookup-insert_self key offset m)

pub lookup-remove_self :
    (key : ℕ) (m : List (ℕ × ℕ)) → IsSorted m → lookup key (remove_entry key m) ≡ none
unfolding lookup remove_entry
lookup-remove_self key [] h = refl
lookup-remove_self key ((k, v) ∷ m) h =
    ground (arith, lookup-Above k m h.0, lookup-remove_self key m h.1)

-- The offset, or the value, that an insertion leaves for its key.
abbrev pub kept : ℕ → Option ℕ → ℕ
kept value none = value
kept value (some old) = old

lookup-insert_old :
    (key value old : ℕ) (m : List (ℕ × ℕ))
    → IsSorted m
    → lookup key m ≡ some old
    → lookup key (insert_entry key value m) ≡ some old
unfolding lookup insert_entry
lookup-insert_old key value old [] h e = cc
lookup-insert_old key value old ((k, v) ∷ m) h e = elim (compare_cases key k) [
  | inl (c, lt) ↦
      absurd (none_some (sym (lookup-Above key ((k, v) ∷ m) (lt, Above-le key k m lt h.0)) ∙ e))
  | inr (inl (c, same)) ↦ rw (c, insert_entry) e
  | inr (inr (c, gt)) ↦
      rw (c, insert_entry) (ground (arith, gt, e, lookup-insert_old key value old m h.1))
]
  where
    none_some : none ≡ some old → ⊥
    none_some x = cc

pub lookup-insert_entry :
    (key value : ℕ) (m : List (ℕ × ℕ))
    → IsSorted m
    → lookup key (insert_entry key value m) ≡ some (kept value (lookup key m))
lookup-insert_entry key value m h = elim (Option-cases (lookup key m)) [
  | inl e ↦ lookup-insert_self key value m e ∙ ap (λ o. some (kept value o)) (sym e)
  | inr (old, e) ↦ lookup-insert_old key value old m h e ∙ ap (λ o. some (kept value o)) (sym e)
]
