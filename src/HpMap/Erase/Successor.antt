-- ===== src/HpMap/Erase/Successor.antt =====
-- The successor that `rb_erase` of hds_udp/common/HP_Map.h puts into the place of a node with two
-- children.
use mathlib.Core.List.{append_assoc}
use test_resend.Prelude.{ℕ, ◌+◌, ◌≡◌, refl, sym, ap, ◌∙◌, List, [], ◌∷◌, ◌++◌}
use test_resend.HpMap.{
  Color, black, Tree, leaf, node, Frame, from_left, from_right, weight, rebuild,
}
use test_resend.HpMap.Entries.{entries, before, after}
use test_resend.HpMap.Insert.{sibling, frame_color}
use test_resend.HpMap.Insert.Balance.{raise, height, UnderBlack, Fits}
use test_resend.HpMap.Insert.Weights.{Counts, frame_weight}
use test_resend.HpMap.Erase.{first}
use test_resend.HpMap.Erase.Colors.{top_color}
use test_resend.HpMap.Erase.Places.{Spot, Beside-under}

module _ {ℓ} {V : Type ℓ} where
  -- The walk only moves the place.
  pub first-rebuild :
      (c : Color) (l : Tree V) (k : ℕ) (v : V) (w : ℕ) (r : Tree V) (inner base : List (Frame V))
      → (let s = first c l k v w r inner in
          rebuild (node s.color leaf s.key s.value s.weight s.right) (s.inner ++ base))
        ≡ rebuild (node c l k v w r) (inner ++ base)
  unfolding first
  first-rebuild c leaf k v w r inner base = refl
  first-rebuild c (node c' l' k' v' w' r') k v w r inner base =
      first-rebuild c' l' k' v' w' r' (from_left c k v w r ∷ inner) base

  pub before-first :
      (c : Color) (l : Tree V) (k : ℕ) (v : V) (w : ℕ) (r : Tree V) (inner base : List (Frame V))
      → before ((first c l k v w r inner).inner ++ base) ≡ before (inner ++ base)
  unfolding first
  before-first c leaf k v w r inner base = refl
  before-first c (node c' l' k' v' w' r') k v w r inner base =
      before-first c' l' k' v' w' r' (from_left c k v w r ∷ inner) base

  -- The successor is the first entry below the right child.
  pub first-entry :
      (c : Color) (l : Tree V) (k : ℕ) (v : V) (w : ℕ) (r : Tree V) (inner base : List (Frame V))
      → (let s = first c l k v w r inner in
          (s.key, s.value) ∷ (entries s.right ++ after (s.inner ++ base)))
        ≡ entries (node c l k v w r) ++ after (inner ++ base)
  unfolding first
  first-entry c leaf k v w r inner base = refl
  first-entry c (node c' l' k' v' w' r') k v w r inner base =
      first-entry c' l' k' v' w' r' (from_left c k v w r ∷ inner) base
      ∙ sym (
          append_assoc (entries (node c' l' k' v' w' r')) ((k, v) ∷ entries r)
            (after (inner ++ base)))

  -- Another entry in the frame of the node.
  module _ (c : Color) (l : Tree V) (k k' : ℕ) (v v' : V) (w : ℕ) (above : List (Frame V)) where
    pub after-rekey :
        (inner : List (Frame V))
        → after (inner ++ (from_right c l k v w ∷ above))
          ≡ after (inner ++ (from_right c l k' v' w ∷ above))
    after-rekey [] = refl
    after-rekey (from_left d i x y r ∷ inner) =
        ap (λ m. (i, x) ∷ (entries r ++ m)) (after-rekey inner)
    after-rekey (from_right d m i x y ∷ inner) = after-rekey inner

    UnderBlack-rekey :
        (inner : List (Frame V))
        → UnderBlack (inner ++ (from_right c l k v w ∷ above))
        → UnderBlack (inner ++ (from_right c l k' v' w ∷ above))
    UnderBlack-rekey [] h = h
    UnderBlack-rekey (f ∷ inner) h = h

    Fits-rekey :
        (n : ℕ) (inner : List (Frame V))
        → Fits n (inner ++ (from_right c l k v w ∷ above))
        → Fits n (inner ++ (from_right c l k' v' w ∷ above))
    Fits-rekey n [] h = h
    Fits-rekey n (f ∷ inner) h = (
      h.0,
      h.1,
      Beside-under (frame_color f) (sibling f) (inner ++ (from_right c l k v w ∷ above))
          (inner ++ (from_right c l k' v' w ∷ above)) (UnderBlack-rekey inner) h.2,
      Fits-rekey (raise (frame_color f) n) inner h.3,
    )

    Counts-rekey :
        (n : ℕ) (inner : List (Frame V))
        → Counts n (inner ++ (from_right c l k v w ∷ above))
        → Counts n (inner ++ (from_right c l k' v' w ∷ above))
    Counts-rekey n [] h = h
    Counts-rekey n (f ∷ inner) h = (h.0, h.1, Counts-rekey (frame_weight f) inner h.2)

    top_color-rekey :
        (d : Color) (inner : List (Frame V))
        → top_color d (inner ++ (from_right c l k v w ∷ above)) ≡ black
        → top_color d (inner ++ (from_right c l k' v' w ∷ above)) ≡ black
    top_color-rekey d [] h = h
    top_color-rekey d (f ∷ inner) h = top_color-rekey (frame_color f) inner h

    pub Spot-rekey :
        (d : Color) (x : Tree V) (inner : List (Frame V))
        → Spot d x (inner ++ (from_right c l k v w ∷ above))
        → Spot d x (inner ++ (from_right c l k' v' w ∷ above))
    Spot-rekey d x inner h = record {
      balanced = h.balanced;
      lone = h.lone;
      fits = Fits-rekey (raise d (height x)) inner h.fits;
      top = top_color-rekey d inner h.top;
      weighted = h.weighted;
      counts = Counts-rekey (weight x + 1) inner h.counts;
    }
