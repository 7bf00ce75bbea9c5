-- ===== src/SList/Refine.antt =====
-- The nodes of hds_udp/common/s_list.h in memory, and the list that they stand for.
use mathlib.Core.Path.{subst}
use test_resend.Prelude.{
  ℕ, ◌+◌, ◌<◌, ◌^◌, ◌≡◌, ◌≢◌, refl, sym, ap, ◌∙◌, arith, ◌==◌, true, false, List, [], ◌∷◌, ◌++◌,
  map, length, length-append, Option, some,
}
use test_resend.SList.{SList, write, new_node, push_back, dequeue_head}
use test_resend.SendQueue

pub write_self {ℓ} : {B : Type ℓ} → (p : ℕ) (v : B) (f : ℕ → B) → write p v f p ≡ v
unfolding write
write_self p v f = ground arith

pub write_other {ℓ} : {B : Type ℓ} → (p x : ℕ) (v : B) (f : ℕ → B) → x ≢ p → write p v f x ≡ f x
unfolding write
write_other p x v f h = ground arith

-- An address that is none of these.
abbrev pub NotIn : ℕ → List ℕ → Type 0
NotIn a [] = Unit {0}
NotIn a (b ∷ bs) = (a ≢ b) × NotIn a bs

-- The nodes at these addresses are linked from `p` on, and each stands there once.
abbrev pub Chain : (ℕ → ℕ) → ℕ → List ℕ → Type 0
Chain next p [] = p ≡ 0
Chain next p (a ∷ rest) = (p ≡ a) × (0 < a) × NotIn a rest × Chain next (next a) rest

-- The last address, or 0.
abbrev pub last : List ℕ → ℕ
last [] = 0
last (a ∷ []) = a
last (a ∷ (b ∷ rest)) = last (b ∷ rest)

NotIn-last : (a b : ℕ) (rest : List ℕ) → NotIn a (b ∷ rest) → a ≢ last (b ∷ rest)
NotIn-last a b [] h = h.0
NotIn-last a b (c ∷ rest) h = NotIn-last a c rest h.1

NotIn-append : (a t : ℕ) (rest : List ℕ) → NotIn a rest → a ≢ t → NotIn a (rest ++ (t ∷ []))
NotIn-append a t [] h n = (n, tt)
NotIn-append a t (b ∷ rest) h n = (h.0, NotIn-append a t rest h.1 n)

-- Stores elsewhere.
pub Chain-write :
    (q v : ℕ) (next : ℕ → ℕ) (p : ℕ) (rest : List ℕ)
    → NotIn q rest
    → Chain next p rest
    → Chain (write q v next) p rest
Chain-write q v next p [] n h = h
Chain-write q v next p (a ∷ rest) n h = (
  h.0,
  h.1,
  h.2,
  Chain-write q v next (write q v next a) rest n.1
      (rw (write_other q a v next (λ e. n.0 (sym e))) h.3),
)

-- The store that links a new node behind the last one.
Chain-link :
    (temp : ℕ) (next : ℕ → ℕ) (p a : ℕ) (rest : List ℕ)
    → 0 < temp
    → next temp ≡ 0
    → NotIn temp (a ∷ rest)
    → Chain next p (a ∷ rest)
    → Chain (write (last (a ∷ rest)) temp next) p ((a ∷ rest) ++ (temp ∷ []))
Chain-link temp next p a [] pos end n h = (
  h.0,
  h.1,
  ((λ e. n.0 (sym e)), tt),
  (write_self a temp next, pos, tt, write_other a temp temp next n.0 ∙ end),
)
Chain-link temp next p a (b ∷ rest) pos end n h = (
  h.0,
  h.1,
  NotIn-append a temp (b ∷ rest) h.2 (λ e. n.0 (sym e)),
  rw (write_other (last (b ∷ rest)) a temp next (NotIn-last a b rest h.2))
      (Chain-link temp next (next a) b rest pos end n.1 h.3),
)

last-append : (t : ℕ) (rest : List ℕ) → last (rest ++ (t ∷ [])) ≡ t
last-append t [] = refl
last-append t (a ∷ []) = refl
last-append t (a ∷ (b ∷ rest)) = last-append t (b ∷ rest)

abbrev pub behind : List ℕ → List ℕ
behind [] = []
behind (a ∷ rest) = rest

Chain-tail :
    (tail temp : ℕ) (next : ℕ → ℕ) (p a : ℕ) (rest : List ℕ)
    → tail ≡ last (a ∷ rest)
    → Chain (write (last (a ∷ rest)) temp next) p ((a ∷ rest) ++ (temp ∷ []))
    → Chain (write tail temp next) p ((a ∷ rest) ++ (temp ∷ []))
Chain-tail tail temp next p a rest e h =
    subst (λ q. Chain (write q temp next) p ((a ∷ rest) ++ (temp ∷ []))) (sym e) h

module _ {ℓ} {A : Type ℓ} where
  map-write :
      (t : ℕ) (v : A) (f : ℕ → A) (rest : List ℕ)
      → NotIn t rest
      → map (write t v f) (rest ++ (t ∷ [])) ≡ map f rest ++ (v ∷ [])
  map-write t v f [] n = ap (λ x. x ∷ []) (write_self t v f)
  map-write t v f (a ∷ rest) n =
      ap (λ x. x ∷ map (write t v f) (rest ++ (t ∷ []))) (write_other t a v f (λ e. n.0 (sym e)))
      ∙ ap (λ l. f a ∷ l) (map-write t v f rest n.1)

  -- The memory holds these nodes, linked from `head` to `tail`, with these values.
  pub record Holds (s : SList A) (nodes : List ℕ) (m : List A) : Type ℓ where
    pub chain : Chain s.next s.head nodes
    pub ends : s.tail ≡ last nodes
    pub size : s.cur_size ≡ length nodes
    pub values : map s.value nodes ≡ m

  push_back-Holds :
      (temp : ℕ) (t1 : A) (s : SList A) (nodes : List ℕ) (m : List A)
      → 0 < temp
      → NotIn temp nodes
      → length nodes + 1 < 2 ^ 32
      → Holds s nodes m
      → Holds (push_back (some temp) t1 s).1 (nodes ++ (temp ∷ [])) (SendQueue.push_back t1 m)
  unfolding push_back new_node
  push_back-Holds temp t1 s [] m pos n small h =
      let empty_now : (s.cur_size == 0) ≡ true = ground (arith, h.size) in
      rw (empty_now, push_back)
        (record {
          chain = (refl, pos, tt, write_self temp 0 s.next);
          ends = refl;
          size = omega (arith, h.size);
          values = map-write temp t1 s.value [] tt ∙ ap (λ l. l ++ (t1 ∷ [])) h.values;
        })
  push_back-Holds temp t1 s (a ∷ rest) m pos n small h =
      let filled : (s.cur_size == 0) ≡ false = ground (arith, h.size) in
      rw (filled, push_back)
        (record {
          chain = Chain-tail s.tail temp (write temp 0 s.next) s.head a rest h.ends (
              Chain-link temp (write temp 0 s.next) s.head a rest pos (write_self temp 0 s.next) n
                (Chain-write temp 0 s.next s.head (a ∷ rest) n h.chain));
          ends = sym (last-append temp (a ∷ rest));
          size = omega (arith, h.size, small, length-append (a ∷ rest) (temp ∷ []));
          values = map-write temp t1 s.value (a ∷ rest) n ∙ ap (λ l. l ++ (t1 ∷ [])) h.values;
        })

  -- A removal at the head.
  abbrev pub Taken : SList A → List ℕ → List A → Option A × SList A → Type ℓ
  Taken s nodes m (result, s') =
      (result ≡ (SendQueue.dequeue_head m).0) × Holds s' (behind nodes) (SendQueue.dequeue_head m).1

  dequeue_head-Taken :
      (s : SList A) (nodes : List ℕ)
      → Holds s nodes (map s.value nodes)
      → Taken s nodes (map s.value nodes) (dequeue_head s)
  unfolding dequeue_head
  dequeue_head-Taken s [] h =
      let empty_now : (s.cur_size == 0) ≡ true = ground (arith, h.size) in
      rw (empty_now, dequeue_head) (refl, h)
  dequeue_head-Taken s (a ∷ []) h =
      let filled : (s.cur_size == 0) ≡ false = ground (arith, h.size) in
      let one : (s.cur_size == 1) ≡ true = ground (arith, h.size) in
      rw (filled, dequeue_head, one)
        (
          ap (λ p. some (s.value p)) h.chain.0,
          record { chain = refl; ends = refl; size = refl; values = refl },
        )
  dequeue_head-Taken s (a ∷ (b ∷ rest)) h =
      let filled : (s.cur_size == 0) ≡ false = ground (arith, h.size) in
      let more : (s.cur_size == 1) ≡ false = ground (arith, h.size) in
      rw (filled, dequeue_head, more)
        (
          ap (λ p. some (s.value p)) h.chain.0,
          record {
            chain = rw h.chain.0 h.chain.3;
            ends = h.ends;
            size = omega (arith, h.size);
            values = refl;
          },
        )

  -- In memory that holds a list, of fewer nodes than an unsigned int counts, `push_back` of a node that is
  -- not in it leaves memory that holds the list with the value behind it, and `dequeue_head` gives the first
  -- value and leaves memory that holds the rest, or gives nothing when there is none.
  pub slist_refines :
      (s : SList A) (nodes : List ℕ) (temp : ℕ) (t1 : A)
      → Holds s nodes (map s.value nodes)
      → 0 < temp
      → NotIn temp nodes
      → length nodes + 1 < 2 ^ 32
      → Holds
          (push_back (some temp) t1 s).1
          (nodes ++ (temp ∷ []))
          (SendQueue.push_back t1 (map s.value nodes))
        × Taken s nodes (map s.value nodes) (dequeue_head s)
  slist_refines s nodes temp t1 h pos n small = (
    push_back-Holds temp t1 s nodes (map s.value nodes) pos n small h,
    dequeue_head-Taken s nodes h,
  )
