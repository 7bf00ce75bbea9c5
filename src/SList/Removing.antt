-- ===== src/SList/Removing.antt =====
-- find and find_and_del of hds_udp/common/s_list.h on the memory of the nodes.
use mathlib.Core.Path.{subst}
use test_resend.Prelude.{
  ℕ, zero, suc, ◌+◌, ◌-◌, ◌^◌, ◌<◌, ◌≤◌, ◌≡◌, refl, sym, ap, ◌∙◌, arith, ◌==◌, if◌then◌else◌, Bool,
  true, false, Bool-cases, inl, inr, List, [], ◌∷◌, ◌++◌, map, length, Option, none, some,
}
use test_resend.Prelude.Words.{u32}
use test_resend.SendQueue
use test_resend.SList.{
  SList, write, push_back, dequeue_head, find_from, find_value, unlink_node, del_from,
  find_and_del_value,
}
use test_resend.SList.Refine.{
  write_self, write_other, NotIn, Chain, Chain-write, Holds, Taken, slist_refines,
}

module _ {ℓ} {B : Type ℓ} {b : Bool} (x y : B) where
  if_same : b ≡ true → (if b then x else y) ≡ x
  if_same e = rw e

  if_other : b ≡ false → (if b then x else y) ≡ y
  if_other e = rw e

module _ {ℓ} {A : Type ℓ} (same : A → A → Bool) (t1 : A) where
  -- Whether a value is there, and the list without its first one.
  abbrev pub holds : List A → Bool
  holds [] = false
  holds (v ∷ m) = if same v t1 then true else holds m

  abbrev pub without : List A → List A
  without [] = []
  without (v ∷ m) = if same v t1 then m else v ∷ without m

  abbrev pub nodes_without : (ℕ → A) → List ℕ → List ℕ
  nodes_without value [] = []
  nodes_without value (a ∷ rest) = if same (value a) t1 then rest else a ∷ nodes_without value rest

  map-nodes_without :
      (value : ℕ → A) (nodes : List ℕ)
      → map value (nodes_without value nodes) ≡ without (map value nodes)
  map-nodes_without value [] = refl
  map-nodes_without value (a ∷ rest) = elim (Bool-cases (same (value a) t1)) [
    | inl e ↦ rw e
    | inr e ↦ rw e (ap (λ m. value a ∷ m) (map-nodes_without value rest))
  ]

  NotIn-without :
      (value : ℕ → A) (x : ℕ) (nodes : List ℕ) → NotIn x nodes → NotIn x (nodes_without value nodes)
  NotIn-without value x [] n = n
  NotIn-without value x (a ∷ rest) n = elim (Bool-cases (same (value a) t1)) [
    | inl e ↦ rw e n.1
    | inr e ↦ rw e (n.0, NotIn-without value x rest n.1)
  ]

  length-without :
      (value : ℕ → A) (nodes : List ℕ)
      → length (nodes_without value nodes) + (if holds (map value nodes) then 1 else 0)
        ≡ length nodes
  length-without value [] = omega arith
  length-without value (a ∷ rest) = elim (Bool-cases (same (value a) t1)) [
    | inl e ↦ rw e (omega arith)
    | inr e ↦ rw e (omega (arith, length-without value rest))
  ]

  -- The loop of `find` tells whether the value is there.
  find_from-holds :
      (fuel : ℕ) (s : SList A) (p : ℕ) (nodes : List ℕ)
      → length nodes < fuel
      → Chain s.next p nodes
      → find_from same t1 fuel s p ≡ some (holds (map s.value nodes))
  unfolding find_from
  find_from-holds zero s p nodes h c = absurd (omega arith)
  find_from-holds (suc fuel) s p [] h c = rw c
  find_from-holds (suc fuel) s p (a ∷ rest) h c =
      let there : (a == 0) ≡ false = ground (arith, c.1) in
      rw (c.0, there)
        (elim (Bool-cases (same (s.value a) t1)) [
          | inl e ↦ rw e
          | inr e ↦ rw e (find_from-holds fuel s (s.next a) rest (omega (arith, h)) c.3)
        ])

  -- What the removal behind the node `x` leaves: the chain from `x` on, all that is not in it, and
  -- the size.
  abbrev Behind : SList A → ℕ → List ℕ → Option (Bool × SList A) → Type ℓ
  Behind s x rest none = Unit {ℓ} → ⊥
  Behind s x rest (some (found, s')) =
      (found ≡ holds (map s.value rest))
      × Chain s'.next x (x ∷ nodes_without s.value rest)
      × ((y : ℕ) → NotIn y (x ∷ rest) → s'.next y ≡ s.next y)
      × (s'.value ≡ s.value)
      × (s'.head ≡ s.head)
      × (s'.tail ≡ s.tail)
      × (s'.cur_size ≡ s.cur_size - (if holds (map s.value rest) then 1 else 0))

  unlinked :
      (s : SList A) (x a : ℕ)
      → (a == s.head) ≡ false
      → unlink_node s x a
        ≡ record s { next = write x (s.next a) s.next; cur_size = u32 (s.cur_size + 2 ^ 32 - 1) }
  unfolding unlink_node
  unlinked s x a inside = rw inside

  unlinked-Behind :
      (s : SList A) (x a : ℕ) (rest : List ℕ)
      → same (s.value a) t1 ≡ true
      → (a == s.head) ≡ false
      → 0 < s.cur_size
      → s.cur_size < 2 ^ 32
      → Chain s.next x (x ∷ (a ∷ rest))
      → Behind s x (a ∷ rest) (some (true, unlink_node s x a))
  unlinked-Behind s x a rest e inside pos small c =
      subst (λ r. Behind s x (a ∷ rest) (some (true, r))) (sym (unlinked s x a inside))
        (rw e (
          refl,
          (
            refl,
            c.1,
            c.2.1,
            rw (write_self x (s.next a) s.next)
                (Chain-write x (s.next a) s.next (s.next a) rest c.2.1 c.3.3),
          ),
          (λ y n. write_other x y (s.next a) s.next n.0),
          refl,
          refl,
          refl,
          omega arith,
        ))

  -- A turn of the loop at a node.
  del_from-step :
      (fuel : ℕ) (s : SList A) (x a : ℕ)
      → 0 < a
      → del_from same t1 (suc fuel) s x a ≡ (
          if same (s.value a) t1
          then some (true, unlink_node s x a)
          else del_from same t1 fuel s a (s.next a))
  unfolding del_from
  del_from-step fuel s x a h = let there : (a == 0) ≡ false = ground arith in rw there

  pass-Behind :
      (s : SList A) (x a : ℕ) (rest : List ℕ) (o : Option (Bool × SList A))
      → same (s.value a) t1 ≡ false
      → Chain s.next x (x ∷ (a ∷ rest))
      → Behind s a rest o
      → Behind s x (a ∷ rest) o
  pass-Behind s x a rest none e c b = b
  pass-Behind s x a rest (some (found, s')) e c b = rw e (
    b.0,
    (refl, c.1, (c.2.0, NotIn-without s.value x rest c.2.1), rw (b.2 x c.2 ∙ c.3.0) b.1),
    (λ y n. b.2 y n.1),
    b.3,
    b.4,
    b.5,
    b.6,
  )

  del_from-Behind :
      (fuel : ℕ) (s : SList A) (x : ℕ) (rest : List ℕ)
      → length rest < fuel
      → NotIn s.head rest
      → length rest ≤ s.cur_size
      → s.cur_size < 2 ^ 32
      → Chain s.next x (x ∷ rest)
      → Behind s x rest (del_from same t1 fuel s x (s.next x))
  unfolding del_from
  del_from-Behind zero s x rest h n l small c = absurd (omega arith)
  del_from-Behind (suc fuel) s x [] h n l small c =
      rw c.3 (refl, (refl, c.1, tt, c.3), (λ y n. refl), refl, refl, refl, omega arith)
  del_from-Behind (suc fuel) s x (a ∷ rest) h n l small c =
      let inside : (a == s.head) ≡ false = ground (arith, n.0) in
      let start =
        ap (λ p. del_from same t1 (suc fuel) s x p) c.3.0 ∙ del_from-step fuel s x a c.3.1 in
      elim (Bool-cases (same (s.value a) t1)) [
        | inl e ↦
            subst (Behind s x (a ∷ rest)) (sym (start ∙ if_same _ _ e))
              (unlinked-Behind s x a rest e inside (omega (arith, l)) small c)
        | inr e ↦ subst (Behind s x (a ∷ rest)) (sym (start ∙ if_other _ _ e)) (
            pass-Behind s x a rest (del_from same t1 fuel s a (s.next a)) e c (
              del_from-Behind fuel s a rest (omega (arith, h)) n.1 (omega (arith, l)) small
                (refl, c.3.1, c.3.2, c.3.3)))
      ]

  -- The result of `find_and_del`: whether the value was there, memory that holds the list without its
  -- first node that has it, and the old tail.
  abbrev pub Removed : SList A → List ℕ → Option (Bool × SList A) → Type ℓ
  Removed s nodes none = Unit {ℓ} → ⊥
  Removed s nodes (some (found, s')) =
      (found ≡ holds (map s.value nodes))
      × Chain s'.next s'.head (nodes_without s.value nodes)
      × (s'.cur_size ≡ length (nodes_without s.value nodes))
      × (map s'.value (nodes_without s.value nodes) ≡ without (map s.value nodes))
      × (s'.tail ≡ s.tail)

  at_head :
      (s : SList A) (a : ℕ) (rest : List ℕ)
      → same (s.value a) t1 ≡ true
      → length (a ∷ rest) < 2 ^ 32
      → Holds s (a ∷ rest) (map s.value (a ∷ rest))
      → Removed s (a ∷ rest) (some (true, unlink_node s 0 a))
  unfolding unlink_node
  at_head s a rest e small h =
      let here : (a == s.head) ≡ true = ground (arith, h.chain.0) in
      rw (e, unlink_node, here) (refl, rw h.chain.0 h.chain.3, omega (arith, h.size), refl, refl)

  past_head :
      (s : SList A) (a : ℕ) (rest : List ℕ) (o : Option (Bool × SList A))
      → same (s.value a) t1 ≡ false
      → Holds s (a ∷ rest) (map s.value (a ∷ rest))
      → Behind s a rest o
      → Removed s (a ∷ rest) o
  past_head s a rest none e h b = b
  past_head s a rest (some (found, s')) e h b = rw e (
    b.0,
    rw (b.4 ∙ h.chain.0) b.1,
    omega (arith, b.6, h.size, length-without s.value rest),
    ap (λ (f : ℕ → A). map f (a ∷ nodes_without s.value rest)) b.3
        ∙ ap (λ m. s.value a ∷ m) (map-nodes_without s.value rest),
    b.5,
  )

  -- In memory that holds a list, of fewer nodes than an unsigned int counts, `find` and `find_and_del`
  -- end within one turn more than there are nodes. They tell whether the value is there;
  -- `find_and_del` leaves memory that is linked as the list without its first node that has the value,
  -- and with its size; the tail stays where it was, also when the last node is taken out.
  find_and_del_value_lem :
      (s : SList A) (nodes : List ℕ)
      → Holds s nodes (map s.value nodes)
      → length nodes < 2 ^ 32
      → (find_value same t1 (length nodes + 1) s ≡ some (holds (map s.value nodes)))
        × Removed s nodes (find_and_del_value same t1 (length nodes + 1) s)
  unfolding find_value find_and_del_value del_from
  find_and_del_value_lem s [] h small =
      let end : (s.head == 0) ≡ true = ground (arith, h.chain) in
      (
        find_from-holds (0 + 1) s s.head [] (omega arith) h.chain,
        rw end (refl, h.chain, h.size, refl, refl),
      )
  find_and_del_value_lem s (a ∷ rest) h small =
      let n = length (a ∷ rest) in
      let rest_of = del_from same t1 n s a (s.next a) in
      let more : n + 1 ≡ suc n = omega arith in
      let start =
        ap (λ f. del_from same t1 f s 0 s.head) more
        ∙ ap (λ p. del_from same t1 (suc n) s 0 p) h.chain.0
        ∙ del_from-step n s 0 a h.chain.1 in
      (
        find_from-holds (n + 1) s s.head (a ∷ rest) (omega arith) h.chain,
        elim (Bool-cases (same (s.value a) t1)) [
          | inl e ↦
              subst (Removed s (a ∷ rest)) (sym (start ∙ if_same _ _ e))
                (at_head s a rest e small h)
          | inr e ↦ subst (Removed s (a ∷ rest)) (sym (start ∙ if_other _ _ e)) (
              past_head s a rest rest_of e h (
                del_from-Behind n s a rest (omega arith) (rw h.chain.0 h.chain.2)
                  (omega (arith, h.size)) (omega (arith, h.size, small))
                  (refl, h.chain.1, h.chain.2, h.chain.3)))
        ],
      )

  -- In memory that holds a list, of fewer nodes than an unsigned int counts, `push_back` of a node that is
  -- not in it leaves memory that holds the list with the value behind it; `dequeue_head` gives the first
  -- value and leaves memory that holds the rest, or gives nothing when there is none; `find` and
  -- `find_and_del` end within one turn more than there are nodes and tell whether the value is there, and
  -- `find_and_del` leaves memory that is linked as the list without its first node that has the value, with
  -- its size, and the tail where it was, also when the last node is taken out.
  pub operations_refine :
      (s : SList A) (nodes : List ℕ) (temp : ℕ)
      → Holds s nodes (map s.value nodes)
      → 0 < temp
      → NotIn temp nodes
      → length nodes + 1 < 2 ^ 32
      → Holds
          (push_back (some temp) t1 s).1
          (nodes ++ (temp ∷ []))
          (SendQueue.push_back t1 (map s.value nodes))
        × Taken s nodes (map s.value nodes) (dequeue_head s)
        × (find_value same t1 (length nodes + 1) s ≡ some (holds (map s.value nodes)))
        × Removed s nodes (find_and_del_value same t1 (length nodes + 1) s)
  operations_refine s nodes temp h pos n small =
      let ends = slist_refines s nodes temp t1 h pos n small in
      let searches = find_and_del_value_lem s nodes h (omega arith) in
      (ends.0, ends.1, searches.0, searches.1)
