-- ===== src/HpMap/Erase.antt =====
-- Removal from the map of hds_udp/common/HP_Map.h.
pub mod Same
pub mod Over
pub mod Colors
pub mod Loop
pub mod Places
pub mod Successor
pub mod Unlinking
pub mod Removing
pub mod Refine
use Prim.Native.Nat.{compare, Ordering}
use test_resend.Prelude.{
  ℕ, zero, suc, ◌+◌, ◌-◌, Bool, true, false, List, [], ◌∷◌, ◌++◌, Option, none, some, length,
}
use test_resend.HpMap.{
  Color, red, black, Tree, leaf, node, Frame, from_left, from_right, Root, weight, color, set_color,
  rebuild, rotate_left, rotate_right,
}
use test_resend.HpMap.Insert.{Place, free, taken, sibling, lighter_above}

-- What a turn of the loop of `__rb_erase_color` does once the sibling is black: it reads through a
-- missing sibling, goes on with the parent, or leaves the loop.
pub data Turn {ℓ} (V : Type ℓ) : Type ℓ where
  null_read : Turn V
  climb settled : Tree V → Turn V

-- The node that is taken out of its place, with the child that follows it there.
pub record Unlinked {ℓ} (V : Type ℓ) : Type ℓ where
  pub color : Color
  pub child : Tree V
  pub above : List (Frame V)

-- The first node of a subtree, with the frames between them.
pub record First {ℓ} (V : Type ℓ) : Type ℓ where
  pub color : Color
  pub key : ℕ
  pub value : V
  pub weight : ℕ
  pub right : Tree V
  pub inner : List (Frame V)

module _ {ℓ} {V : Type ℓ} where
  -- A red sibling is rotated over the parent: the two frames that the node then has above it.
  abbrev pub lower : Frame V → Tree V → Frame V
  lower (from_left c k v w (node d m k' v' w' r)) t = from_left red k v (weight t + weight m + 1) m
  lower (from_right c (node d l k' v' w' m) k v w) t =
      from_right red m k v (weight m + weight t + 1)
  lower f t = f

  abbrev pub upper : Frame V → Tree V → Frame V
  upper (from_left c k v w (node d m k' v' w' r)) t =
      from_left black k' v' (weight t + weight m + weight r + 2) r
  upper (from_right c (node d l k' v' w' m) k v w) t =
      from_right black l k' v' (weight l + weight m + weight t + 2)
  upper f t = f

  -- The sibling, with a red child on its outer side.
  abbrev pub outer_right : Tree V → Tree V
  outer_right leaf = leaf
  outer_right (node d a k v w b) = elim (color b) [
    | black ↦ rotate_right (node red (set_color black a) k v w b)
    | red ↦ node d a k v w b
  ]

  abbrev pub outer_left : Tree V → Tree V
  outer_left leaf = leaf
  outer_left (node d a k v w b) = elim (color a) [
    | black ↦ rotate_left (node red a k v w (set_color black b))
    | red ↦ node d a k v w b
  ]

  -- The sibling takes the colour of the parent, and its outer child becomes black.
  abbrev pub lend_right : Color → Tree V → Tree V
  lend_right c leaf = leaf
  lend_right c (node d a k v w b) = node c a k v w (set_color black b)

  abbrev pub lend_left : Color → Tree V → Tree V
  lend_left c leaf = leaf
  lend_left c (node d a k v w b) = node c (set_color black a) k v w b

  -- The turn with a black sibling: one with two black children becomes red, one with a red child is
  -- rotated over the parent.
  unfoldable pub sibling_turn : Frame V → Tree V → Turn V
  sibling_turn (from_left c k v w leaf) t = null_read
  sibling_turn (from_left c k v w (node d a k' v' w' b)) t =
      let over =
        settled
          (rotate_left (node black t k v w (lend_right c (outer_right (node d a k' v' w' b))))) in
      elim (color a) [
        | red ↦ over
        | black ↦ elim (color b) [
          | red ↦ over
          | black ↦ climb (node c t k v w (node red a k' v' w' b))
        ]
      ]
  sibling_turn (from_right c leaf k v w) t = null_read
  sibling_turn (from_right c (node d a k' v' w' b) k v w) t =
      let over =
        settled
          (rotate_right (node black (lend_left c (outer_left (node d a k' v' w' b))) k v w t)) in
      elim (color a) [
        | red ↦ over
        | black ↦ elim (color b) [
          | red ↦ over
          | black ↦ climb (node c (node red a k' v' w' b) k v w t)
        ]
      ]

  -- The end of a turn, with what the next turns do from the parent on.
  abbrev pub after_turn : (Tree V → Option (Tree V)) → List (Frame V) → Turn V → Option (Tree V)
  after_turn go above null_read = none
  after_turn go above (climb u) = go u
  after_turn go above (settled u) = some (set_color black (rebuild u above))

  -- `__rb_erase_color`, with a bound on the turns of its loop, and the tree from its root on.
  unfoldable pub rb_erase_color : ℕ → Tree V → List (Frame V) → Option (Tree V)
  rb_erase_color zero t above = none
  rb_erase_color (suc n) t [] = some (set_color black t)
  rb_erase_color (suc n) t (f ∷ above) = elim (color t) [
    | red ↦ some (rebuild (set_color black t) (f ∷ above))
    | black ↦ elim (color (sibling f)) [
      | red ↦
          after_turn (λ u. rb_erase_color n u (upper f t ∷ above)) (upper f t ∷ above)
            (sibling_turn (lower f t) t)
      | black ↦ after_turn (λ u. rb_erase_color n u above) above (sibling_turn f t)
    ]
  ]

  -- The walk to the left that finds the successor below a right child.
  unfoldable pub first : Color → Tree V → ℕ → V → ℕ → Tree V → List (Frame V) → First V
  first c leaf k v w r inner = record {
    color = c;
    key = k;
    value = v;
    weight = w;
    right = r;
    inner = inner;
  }
  first c (node c' l' k' v' w' r') k v w r inner =
      first c' l' k' v' w' r' (from_left c k v w r ∷ inner)

  -- The successor takes the place, the colour and the weight of the node.
  abbrev pub replaced : Color → Tree V → First V → ℕ → List (Frame V) → Unlinked V
  replaced c l s w above = record {
    color = s.color;
    child = s.right;
    above = lighter_above (s.inner ++ (from_right c l s.key s.value w ∷ above));
  }

  -- `rb_erase` up to its last test: each parent of the place loses one of its weight.
  abbrev pub unlink : Color → Tree V → ℕ → V → ℕ → Tree V → List (Frame V) → Unlinked V
  unlink c leaf k v w r above = record { color = c; child = r; above = lighter_above above }
  unlink c l k v w leaf above = record { color = c; child = l; above = lighter_above above }
  unlink c l k v w (node c' l' k' v' w' r') above =
      replaced c l (first c' l' k' v' w' r' []) w above

  -- The loop is given a turn for each frame and one more.
  abbrev pub recolored : Unlinked V → Option (Tree V)
  recolored u = elim u.color [
    | red ↦ some (rebuild u.child u.above)
    | black ↦ rb_erase_color (suc (length u.above)) u.child u.above
  ]

  -- `rb_erase` of the node at a place; `none` is a read through a null pointer.
  abbrev pub rb_erase : Tree V → List (Frame V) → Option (Tree V)
  rb_erase leaf above = none
  rb_erase (node c l k v w r) above = recolored (unlink c l k v w r above)

  -- `my_rb_find`, with the parents of the node that it returns.
  unfoldable pub locate : ℕ → Tree V → List (Frame V) → Place V
  locate key leaf above = free above
  locate key (node c l k v w r) above = elim (compare key k) [
    | Ordering.lt ↦ locate key l (from_left c k v w r ∷ above)
    | Ordering.eq ↦ taken (node c l k v w r) above
    | Ordering.gt ↦ locate key r (from_right c l k v w ∷ above)
  ]

  abbrev pub value_of : Tree V → Option V
  value_of leaf = none
  value_of (node c l k v w r) = some v

  abbrev pub shrunk : Root V → Option V → Option (Tree V) → Option (Option V × Root V)
  shrunk root value none = none
  shrunk root value (some t) = some (value, record { rb_node = t; size = root.size - 1 })

  abbrev pub erase_at : Root V → Place V → Option (Option V × Root V)
  erase_at root (free above) = some (none, root)
  erase_at root (taken t above) = shrunk root (value_of t) (rb_erase t above)

  -- `find_and_del` with its second argument: the value, where it returns 0, and the root.
  unfoldable pub find_and_del : ℕ → Root V → Option (Option V × Root V)
  find_and_del key root = erase_at root (locate key root.rb_node [])

  abbrev pub returned : Option (Option V × Root V) → Option (Bool × Root V)
  returned none = none
  returned (some (none, root)) = some (false, root)
  returned (some (some v, root)) = some (true, root)

  -- `erase`: whether it returns 0, and the root.
  unfoldable pub erase : ℕ → Root V → Option (Bool × Root V)
  erase key root = returned (find_and_del key root)
