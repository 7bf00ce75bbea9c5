-- ===== src/HpMap/Insert/Weights.antt =====
-- The weights of the map of hds_udp/common/HP_Map.h: each node counts the nodes below it and itself.
use test_resend.Prelude.{
  ℕ, ◌+◌, ◌≡◌, refl, ◌∙◌, inl, inr, arith, List, [], ◌∷◌, Option, none, some, length, length-append,
}
use test_resend.HpMap.{
  Color, red, black, Tree, leaf, node, Frame, from_left, from_right, weight, color, set_color, plug,
  rebuild, rotate_left, rotate_right,
}
use test_resend.HpMap.Entries.{entries}
use test_resend.HpMap.Insert.{frame_color, sibling, recolor, straighten, rotate_up, rb_insert_color}
use test_resend.HpMap.Insert.Balance.{color_cases}

module _ {ℓ} {V : Type ℓ} where
  abbrev pub Weighted : Tree V → Type 0
  Weighted leaf = Unit {0}
  Weighted (node c l k v w r) = (w ≡ weight l + weight r + 1) × Weighted l × Weighted r

  abbrev pub frame_weight : Frame V → ℕ
  frame_weight (from_left c k v w r) = w
  frame_weight (from_right c l k v w) = w

  -- The frames count a subtree of weight `n` at their place.
  abbrev pub Counts : ℕ → List (Frame V) → Type 0
  Counts n [] = Unit {0}
  Counts n (f ∷ above) =
      (frame_weight f ≡ n + weight (sibling f) + 1)
      × Weighted (sibling f)
      × Counts (frame_weight f) above

  abbrev pub ResultWeighted : Option (Tree V) → Type 0
  ResultWeighted none = Unit {0}
  ResultWeighted (some t) = Weighted t

  pub weight_lem : (t : Tree V) → Weighted t → weight t ≡ length (entries t)
  weight_lem leaf h = refl
  weight_lem (node c l k v w r) h =
      h.0
      ∙ omega (
        arith,
        weight_lem l h.1,
        weight_lem r h.2,
        length-append (entries l) ((k, v) ∷ entries r),
      )

  plug-Weighted :
      (t : Tree V) (f : Frame V) (above : List (Frame V))
      → Weighted t
      → Counts (weight t) (f ∷ above)
      → Weighted (plug f t) × Counts (weight (plug f t)) above
  plug-Weighted t (from_left c k v w r) above b h = ((h.0, b, h.1), h.2)
  plug-Weighted t (from_right c l k v w) above b h = ((omega (arith, h.0), h.1, b), h.2)

  pub rebuild-Weighted :
      (t : Tree V) (above : List (Frame V))
      → Weighted t
      → Counts (weight t) above
      → Weighted (rebuild t above)
  rebuild-Weighted t [] b h = b
  rebuild-Weighted t (f ∷ above) b h =
      let p = plug-Weighted t f above b h in rebuild-Weighted (plug f t) above p.0 p.1

  pub set_color-Weighted :
      (c : Color) (t : Tree V)
      → Weighted t
      → Weighted (set_color c t) × (weight (set_color c t) ≡ weight t)
  set_color-Weighted c leaf h = (tt, refl)
  set_color-Weighted c (node _ l k v w r) h = (h, refl)

  pub rotate_left-Weighted :
      (t : Tree V) → Weighted t → Weighted (rotate_left t) × (weight (rotate_left t) ≡ weight t)
  rotate_left-Weighted leaf h = (tt, refl)
  rotate_left-Weighted (node c l k v w leaf) h = (h, refl)
  rotate_left-Weighted (node c l k v w (node c' m k' v' w' r)) h =
      ((omega arith, (refl, h.1, h.2.1), h.2.2), omega (arith, h.0, h.2.0))

  pub rotate_right-Weighted :
      (t : Tree V) → Weighted t → Weighted (rotate_right t) × (weight (rotate_right t) ≡ weight t)
  rotate_right-Weighted leaf h = (tt, refl)
  rotate_right-Weighted (node c leaf k v w r) h = (h, refl)
  rotate_right-Weighted (node c (node c' l k' v' w' m) k v w r) h =
      ((omega arith, h.1.1, (refl, h.1.2, h.2)), omega (arith, h.0, h.1.0))

  -- The parts of a step: each keeps the weight of the subtree.
  recolor-Weighted :
      (f g : Frame V) (t : Tree V)
      → Weighted (plug g (plug f t))
      → Weighted (recolor g f t) × (weight (recolor g f t) ≡ weight (plug g (plug f t)))
  recolor-Weighted f (from_left c k v w u) t h =
      let p = set_color-Weighted black (plug f t) h.1 in
      let q = set_color-Weighted black u h.2 in ((omega (arith, h.0, p.1, q.1), p.0, q.0), refl)
  recolor-Weighted f (from_right c u k v w) t h =
      let p = set_color-Weighted black (plug f t) h.2 in
      let q = set_color-Weighted black u h.1 in ((omega (arith, h.0, p.1, q.1), q.0, p.0), refl)

  straighten-Weighted :
      (f g : Frame V) (t : Tree V)
      → Weighted (plug f t)
      → Weighted (straighten g f t) × (weight (straighten g f t) ≡ weight (plug f t))
  straighten-Weighted (from_left c k v w r) (from_left c' k' v' w' r') t h = (h, refl)
  straighten-Weighted (from_left c k v w r) (from_right c' l' k' v' w') t h =
      rotate_right-Weighted (node c t k v w r) h
  straighten-Weighted (from_right c l k v w) (from_right c' l' k' v' w') t h = (h, refl)
  straighten-Weighted (from_right c l k v w) (from_left c' k' v' w' r') t h =
      rotate_left-Weighted (node c l k v w t) h

  rotate_up-Weighted :
      (f g : Frame V) (t : Tree V)
      → Weighted (plug g (plug f t))
      → Weighted (rotate_up g f t) × (weight (rotate_up g f t) ≡ weight (plug g (plug f t)))
  rotate_up-Weighted f (from_left c k v w r) t h =
      let p = straighten-Weighted f (from_left c k v w r) t h.1 in
      let q = set_color-Weighted black (straighten (from_left c k v w r) f t) p.0 in
      rotate_right-Weighted
        (node red (set_color black (straighten (from_left c k v w r) f t)) k v w r)
        (omega (arith, h.0, p.1, q.1), q.0, h.2)
  rotate_up-Weighted f (from_right c l k v w) t h =
      let p = straighten-Weighted f (from_right c l k v w) t h.2 in
      let q = set_color-Weighted black (straighten (from_right c l k v w) f t) p.0 in
      rotate_left-Weighted
        (node red l k v w (set_color black (straighten (from_right c l k v w) f t)))
        (omega (arith, h.0, p.1, q.1), h.1, q.0)

  pub rb_insert_color-ResultWeighted :
      (t : Tree V) (above : List (Frame V))
      → Weighted t
      → Counts (weight t) above
      → ResultWeighted (rb_insert_color t above)
  unfolding rb_insert_color
  rb_insert_color-ResultWeighted t [] b h = (set_color-Weighted black t b).0
  rb_insert_color-ResultWeighted t (f ∷ []) b h = elim (color_cases (frame_color f)) [
    | inl c ↦ rw (c, rb_insert_color) tt
    | inr c ↦
        rw (c, rb_insert_color) (set_color-Weighted black (plug f t) (plug-Weighted t f [] b h).0).0
  ]
  rb_insert_color-ResultWeighted t (f ∷ (g ∷ above)) b h =
      let p = plug-Weighted t f (g ∷ above) b h in
      let q = plug-Weighted (plug f t) g above p.0 p.1 in
      elim (color_cases (frame_color f)) [
        | inl c ↦ elim (color_cases (color (sibling g))) [
          | inl u ↦
              let s = recolor-Weighted f g t q.0 in
              rw (c, u, rb_insert_color)
                (rb_insert_color-ResultWeighted (recolor g f t) above s.0 (rw s.1 q.1))
          | inr u ↦
              let s = rotate_up-Weighted f g t q.0 in
              let whole = rebuild-Weighted (rotate_up g f t) above s.0 (rw s.1 q.1) in
              rw (c, u, rb_insert_color)
                (set_color-Weighted black (rebuild (rotate_up g f t) above) whole).0
        ]
        | inr c ↦
            rw (c, rb_insert_color)
              (set_color-Weighted black (rebuild (plug g (plug f t)) above)
                (rebuild-Weighted (plug g (plug f t)) above q.0 q.1)).0
      ]
