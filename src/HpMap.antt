-- ===== src/HpMap.antt =====
-- The red-black map of hds_udp/common/HP_Map.h. Its keys, message types and connection ids, are
-- machine integers: a key is a number, and one that is signed is taken with an offset that keeps the
-- order. A node with its chain of parents is a subtree with the frames above it, the nearest first.
pub mod Insert
pub mod Erase
pub mod Entries
pub mod Refine
pub mod Search
pub mod Iterate
pub mod Change
use test_resend.Prelude.{
  ℕ, zero, suc, ◌+◌, ◌-◌, ◌==◌, if◌then◌else◌, ltb, Bool, true, false, List, [], ◌∷◌, Option, none,
  some,
}
use Prim.Native.Nat.{compare, Ordering}

pub data Color : Type 0 where
  red black : Color

-- `rb_node` and what hangs below it.
pub data Tree {ℓ} (V : Type ℓ) : Type ℓ where
  leaf : Tree V
  node : Color → Tree V → ℕ → V → ℕ → Tree V → Tree V

-- A parent, seen from its left or from its right child.
pub data Frame {ℓ} (V : Type ℓ) : Type ℓ where
  from_left : Color → ℕ → V → ℕ → Tree V → Frame V
  from_right : Color → Tree V → ℕ → V → ℕ → Frame V

-- `rb_root`
pub record Root {ℓ} (V : Type ℓ) : Type ℓ where
  pub rb_node : Tree V
  pub size : ℕ

module _ {ℓ} {V : Type ℓ} where
  abbrev pub weight : Tree V → ℕ
  weight leaf = 0
  weight (node c l k v w r) = w

  -- A child that is absent counts as black.
  abbrev pub color : Tree V → Color
  color leaf = black
  color (node c l k v w r) = c

  abbrev pub set_color : Color → Tree V → Tree V
  set_color c leaf = leaf
  set_color c (node _ l k v w r) = node c l k v w r

  abbrev pub plug : Frame V → Tree V → Tree V
  plug (from_left c k v w r) t = node c t k v w r
  plug (from_right c l k v w) t = node c l k v w t

  -- The tree as it is seen from the root again.
  abbrev pub rebuild : Tree V → List (Frame V) → Tree V
  rebuild t [] = t
  rebuild t (f ∷ above) = rebuild (plug f t) above

  -- `__rb_rotate_left` of the node at the top; it is called where a right child stands.
  abbrev pub rotate_left : Tree V → Tree V
  rotate_left (node c l k v w (node c' m k' v' w' r)) =
      node c' (node c l k v (weight l + weight m + 1) m) k' v' (weight l + weight m + weight r + 2)
        r
  rotate_left t = t

  -- `__rb_rotate_right`
  abbrev pub rotate_right : Tree V → Tree V
  rotate_right (node c (node c' l k' v' w' m) k v w r) =
      node c' l k' v' (weight l + weight m + weight r + 2)
        (node c m k v (weight m + weight r + 1) r)
  rotate_right t = t

  -- `my_rb_find`
  unfoldable pub find_node : ℕ → Tree V → Option V
  find_node key leaf = none
  find_node key (node c l k v w r) = elim (compare key k) [
    | Ordering.lt ↦ find_node key l
    | Ordering.eq ↦ some v
    | Ordering.gt ↦ find_node key r
  ]

  -- `select`, with the test of `order` first.
  unfoldable pub select_node : ℕ → Tree V → Option (ℕ × V)
  select_node order leaf = none
  select_node order (node c l k v w r) = elim (compare (weight l + 1) order) [
    | Ordering.eq ↦ some (k, v)
    | Ordering.gt ↦ select_node order l
    | Ordering.lt ↦ select_node (order - (weight l + 1)) r
  ]

  unfoldable pub select : ℕ → Root V → Option (ℕ × V)
  select order root =
      if order == 0
      then none
      else if ltb root.size order
      then none
      else select_node order root.rb_node
