-- ===== src/Connection/Chain.antt =====
-- `CONNECTION_FILL_DATA` of hds_udp/connection/HDS_UDP_Connection.h for a chain of message nodes,
-- which stands for one message without being copied together.
use test_resend.Prelude.{
  ℕ, ◌+◌, ◌-◌, ◌≤◌, ◌<◌, ◌≡◌, ◌==◌, ltb, leb, if◌then◌else◌, arith, Bool-cases, false, inl, inr,
  Option, none, some, List, [], ◌∷◌, ◌++◌, length, take, drop, length-append, length-drop, ap,
  take-append_le, take-append_ge, drop-append_le, drop-append_ge,
}

-- The first loop: the node and the place in it where byte `offset` stands, with the nodes behind.
-- A node is its `source_data`. Past the chain there is no start (`none` inside); the outer `none`
-- is a read through the null `next` of the last node.
pub find_start : ℕ → List (List ℕ) → Option (Option (List ℕ × List (List ℕ)))
find_start offset [] = some none
find_start offset (node ∷ []) =
    if ltb offset (length node)
    then some (some (drop offset node, []))
    else if offset == length node
    then none
    else some none
find_start offset (node ∷ (next ∷ rest)) =
    if ltb offset (length node)
    then some (some (drop offset node, next ∷ rest))
    else if offset == length node
    then some (some (next, rest))
    else find_start (offset - length node) (next ∷ rest)

-- The second loop: bytes from `start_pos` on, going over to the nodes behind; `none` again is the
-- read through a null `next`.
pub gather : ℕ → List ℕ → List (List ℕ) → Option (List ℕ)
gather copy_size start [] =
    if leb copy_size (length start) then some (take copy_size start) else none
gather copy_size start (next ∷ rest) =
    let more : Option (List ℕ) = elim (gather (copy_size - length start) next rest) [
      | none ↦ none
      | some bytes ↦ some (start ++ bytes)
    ] in
    if leb copy_size (length start) then some (take copy_size start) else more

-- The macro's branch for `_trans_message_node`, with `copy_size` already cut to a packet.
pub fill_chain : ℕ → ℕ → List (List ℕ) → Option (List ℕ)
fill_chain seq copy_size nodes = elim (find_start seq nodes) [
  | none ↦ none
  | some none ↦ some []
  | some (some (start, rest)) ↦ gather copy_size start rest
]

-- The message that the chain stands for.
unfoldable pub joined : List (List ℕ) → List ℕ
joined [] = []
joined (node ∷ rest) = node ++ joined rest

gather_lem :
    (copy_size : ℕ) (start : List ℕ) (rest : List (List ℕ))
    → copy_size ≤ length start + length (joined rest)
    → gather copy_size start rest ≡ some (take copy_size (start ++ joined rest))
unfolding gather joined
gather_lem n start [] h = ground (arith, take-append_le n start [])
gather_lem n start (next ∷ rest) h = elim (Bool-cases (leb n (length start))) [
  | inl fits ↦ rw (fits, take-append_le n start (next ++ joined rest) (ground arith))
  | inr more ↦ rw (
    more,
    gather_lem (n - length start) next rest
        (omega (arith, length-append next (joined rest), short more)),
    take-append_ge n start (next ++ joined rest) (omega (arith, short more)),
  )
]
  where
    short : leb n (length start) ≡ false → length start < n
    short e = ground arith

drop_nothing : (n : ℕ) (xs : List ℕ) → n ≡ 0 → drop n xs ≡ xs
drop_nothing n xs e = ap (λ k. drop k xs) e

-- Within the message the two loops never read past the chain, and copy the bytes that a message in
-- one piece would give.
pub fill_chain_lem :
    (seq copy_size : ℕ) (nodes : List (List ℕ))
    → seq < length (joined nodes)
    → copy_size ≤ length (joined nodes) - seq
    → fill_chain seq copy_size nodes ≡ some (take copy_size (drop seq (joined nodes)))
unfolding fill_chain find_start joined
fill_chain_lem seq n [] h k = absurd (omega arith)
fill_chain_lem seq n (node ∷ []) h k = ground (
  arith,
  gather_lem n (drop seq node) [],
  drop-append_le seq node [],
  length-drop seq node,
  length-append node [],
)
fill_chain_lem seq n (node ∷ (next ∷ rest)) h k = ground (
  arith,
  length-append node (next ++ joined rest),
  length-append next (joined rest),
  length-drop seq node,
  gather_lem n (drop seq node) (next ∷ rest),
  gather_lem n next rest,
  drop-append_le seq node (next ++ joined rest),
  drop-append_ge seq node (next ++ joined rest),
  drop_nothing (seq - length node) (next ++ joined rest),
  fill_chain_lem (seq - length node) n (next ∷ rest),
)
