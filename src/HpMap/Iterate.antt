-- ===== src/HpMap/Iterate.antt =====
-- The iterators of hds_udp/common/HP_Map.h: a node with its parents, and the steps to its neighbours in the
-- order of the keys.
pub mod Order
use test_resend.Prelude.{ℕ, zero, suc, List, [], ◌∷◌, Option, none, some}
use test_resend.HpMap.{Color, Tree, leaf, node, Frame, from_left, from_right, Root}

-- `current_node`, which is there.
pub record Cursor {ℓ} (V : Type ℓ) : Type ℓ where
  pub color : Color
  pub left : Tree V
  pub key : ℕ
  pub value : V
  pub weight : ℕ
  pub right : Tree V
  pub above : List (Frame V)

module _ {ℓ} {V : Type ℓ} where
  -- The loops `while (n->rb_left) n = n->rb_left;` and `while (n->rb_right) n = n->rb_right;`.
  unfoldable pub go_left : Color → Tree V → ℕ → V → ℕ → Tree V → List (Frame V) → Cursor V
  go_left c leaf k v w r above = record {
    color = c;
    left = leaf;
    key = k;
    value = v;
    weight = w;
    right = r;
    above = above;
  }
  go_left c (node c' l' k' v' w' r') k v w r above =
      go_left c' l' k' v' w' r' (from_left c k v w r ∷ above)

  unfoldable pub go_right : Color → Tree V → ℕ → V → ℕ → Tree V → List (Frame V) → Cursor V
  go_right c l k v w leaf above = record {
    color = c;
    left = l;
    key = k;
    value = v;
    weight = w;
    right = leaf;
    above = above;
  }
  go_right c l k v w (node c' l' k' v' w' r') above =
      go_right c' l' k' v' w' r' (from_right c l k v w ∷ above)

  -- `rb_first` and `rb_last`
  abbrev pub rb_first : Tree V → Option (Cursor V)
  rb_first leaf = none
  rb_first (node c l k v w r) = some (go_left c l k v w r [])

  abbrev pub rb_last : Tree V → Option (Cursor V)
  rb_last leaf = none
  rb_last (node c l k v w r) = some (go_right c l k v w r [])

  -- The loops over the parents.
  unfoldable pub up_from_right : Tree V → List (Frame V) → Option (Cursor V)
  up_from_right t [] = none
  up_from_right t (from_right c l k v w ∷ above) = up_from_right (node c l k v w t) above
  up_from_right t (from_left c k v w r ∷ above) =
      some
        (record { color = c; left = t; key = k; value = v; weight = w; right = r; above = above })

  unfoldable pub up_from_left : Tree V → List (Frame V) → Option (Cursor V)
  up_from_left t [] = none
  up_from_left t (from_left c k v w r ∷ above) = up_from_left (node c t k v w r) above
  up_from_left t (from_right c l k v w ∷ above) =
      some
        (record { color = c; left = l; key = k; value = v; weight = w; right = t; above = above })

  -- `rb_next` and `rb_prev`
  unfoldable pub rb_next : Cursor V → Option (Cursor V)
  rb_next n = elim n.right [
    | leaf ↦ up_from_right (node n.color n.left n.key n.value n.weight leaf) n.above
    | node c l k v w r ↦
        some (go_left c l k v w r (from_right n.color n.left n.key n.value n.weight ∷ n.above))
  ]

  unfoldable pub rb_prev : Cursor V → Option (Cursor V)
  rb_prev n = elim n.left [
    | leaf ↦ up_from_left (node n.color leaf n.key n.value n.weight n.right) n.above
    | node c l k v w r ↦
        some (go_right c l k v w r (from_left n.color n.key n.value n.weight n.right ∷ n.above))
  ]

  -- A loop over an iterator, with at most so many rounds; each takes the entry and makes a step.
  unfoldable pub walk : (Cursor V → Option (Cursor V)) → ℕ → Option (Cursor V) → List (ℕ × V)
  walk step zero place = []
  walk step (suc n) none = []
  walk step (suc n) (some c) = (c.key, c.value) ∷ walk step n (step c)
