-- ===== src/HpMap/Insert.antt =====
-- Insertion into the map of hds_udp/common/HP_Map.h.
pub mod Balance
pub mod Keeping
pub mod Weights
pub mod Descent
use Prim.Native.Nat.{compare, Ordering}
use test_resend.Prelude.{ℕ, ◌+◌, ◌-◌, Bool, true, false, List, [], ◌∷◌, Option, none, some}
use test_resend.HpMap.{
  Color, red, black, Tree, leaf, node, Frame, from_left, from_right, Root, weight, color, set_color,
  plug, rebuild, rotate_left, rotate_right,
}

-- Where the descent of `my_rb_insert` ends: at an empty place or at a node with the key.
pub data Place {ℓ} (V : Type ℓ) : Type ℓ where
  free : List (Frame V) → Place V
  taken : Tree V → List (Frame V) → Place V

module _ {ℓ} {V : Type ℓ} where
  -- The first loop of `my_rb_insert`, which raises the weights on its way.
  unfoldable pub descend : ℕ → Tree V → List (Frame V) → Place V
  descend key leaf above = free above
  descend key (node c l k v w r) above = elim (compare key k) [
    | Ordering.lt ↦ descend key l (from_left c k v (w + 1) r ∷ above)
    | Ordering.eq ↦ taken (node c l k v (w + 1) r) above
    | Ordering.gt ↦ descend key r (from_right c l k v (w + 1) ∷ above)
  ]

  -- `weight--` of a node, and of every parent.
  abbrev pub lighter : Tree V → Tree V
  lighter leaf = leaf
  lighter (node c l k v w r) = node c l k v (w - 1) r

  abbrev pub lighter_frame : Frame V → Frame V
  lighter_frame (from_left c k v w r) = from_left c k v (w - 1) r
  lighter_frame (from_right c l k v w) = from_right c l k v (w - 1)

  abbrev pub lighter_above : List (Frame V) → List (Frame V)
  lighter_above [] = []
  lighter_above (f ∷ above) = lighter_frame f ∷ lighter_above above

  abbrev pub frame_color : Frame V → Color
  frame_color (from_left c k v w r) = c
  frame_color (from_right c l k v w) = c

  -- The other child of the parent.
  abbrev pub sibling : Frame V → Tree V
  sibling (from_left c k v w r) = r
  sibling (from_right c l k v w) = l

  -- Parent and uncle become black, the grandparent red.
  abbrev pub recolor : Frame V → Frame V → Tree V → Tree V
  recolor (from_left _ k v w r) f t =
      node red (set_color black (plug f t)) k v w (set_color black r)
  recolor (from_right _ l k v w) f t =
      node red (set_color black l) k v w (set_color black (plug f t))

  -- The inner grandchild is rotated to the outside first.
  abbrev pub straighten : Frame V → Frame V → Tree V → Tree V
  straighten (from_left _ _ _ _ _) (from_right c l k v w) t = rotate_left (node c l k v w t)
  straighten (from_right _ _ _ _ _) (from_left c k v w r) t = rotate_right (node c t k v w r)
  straighten _ f t = plug f t

  -- The two rotations, with the colours of parent and grandparent exchanged.
  abbrev pub rotate_up : Frame V → Frame V → Tree V → Tree V
  rotate_up (from_left c k v w r) f t =
      rotate_right (node red (set_color black (straighten (from_left c k v w r) f t)) k v w r)
  rotate_up (from_right c l k v w) f t =
      rotate_left (node red l k v w (set_color black (straighten (from_right c l k v w) f t)))

  -- `rb_insert_color`, and the tree from its root on; `none` is a read through the null parent of a
  -- red root.
  unfoldable pub rb_insert_color : Tree V → List (Frame V) → Option (Tree V)
  rb_insert_color t [] = some (set_color black t)
  rb_insert_color t (f ∷ []) = elim (frame_color f) [
    | black ↦ some (set_color black (plug f t))
    | red ↦ none
  ]
  rb_insert_color t (f ∷ (g ∷ above)) = elim (frame_color f) [
    | black ↦ some (set_color black (rebuild t (f ∷ (g ∷ above))))
    | red ↦ elim (color (sibling g)) [
      | red ↦ rb_insert_color (recolor g f t) above
      | black ↦ some (set_color black (rebuild (rotate_up g f t) above))
    ]
  ]

  abbrev pub grown : Root V → Option (Tree V) → Option (Bool × Root V)
  grown root none = none
  grown root (some t) = some (true, record { rb_node = t; size = root.size + 1 })

  abbrev pub insert_at : ℕ → V → Root V → Place V → Option (Bool × Root V)
  insert_at key value root (taken t above) =
      some (false, record root { rb_node = rebuild (lighter t) (lighter_above above) })
  insert_at key value root (free above) =
      grown root (rb_insert_color (node red leaf key value 1 leaf) above)

  -- `my_rb_insert`: whether it returns 0, and the root.
  unfoldable pub my_rb_insert : ℕ → V → Root V → Option (Bool × Root V)
  my_rb_insert key value root = insert_at key value root (descend key root.rb_node [])
