-- ===== src/HpMap/Erase/Places.antt =====
-- A place in the tree of hds_udp/common/HP_Map.h from which `rb_erase` takes a node, and the frames above
-- it when their weights are lowered.
use test_resend.Prelude.{ℕ, ◌+◌, ◌-◌, ◌≡◌, refl, sym, ◌∙◌, arith, List, [], ◌∷◌}
use test_resend.HpMap.{
  Color, red, black, Tree, leaf, node, Frame, from_left, from_right, weight, color, rebuild,
}
use test_resend.HpMap.Insert.{frame_color, lighter_frame, lighter_above}
use test_resend.HpMap.Insert.Balance.{raise, height, Balanced, UnderBlack, Beside, Fits}
use test_resend.HpMap.Insert.Weights.{Weighted, Counts}
use test_resend.HpMap.Insert.Descent.{
  RedUnder, black_top, red_children, red_child, Colored-left, Colored-right,
}
use test_resend.HpMap.Erase.Colors.{top_color, color-rebuild}

module _ {ℓ} {V : Type ℓ} where
  -- A subtree of a balanced tree, and the frames above it.
  rebuild-Placed :
      (t : Tree V) (above : List (Frame V))
      → Balanced (rebuild t above)
      → color (rebuild t above) ≡ black
      → Balanced t × Fits (height t) above × RedUnder (color t) above
  rebuild-Placed t [] b top = (b, tt, black_top t top)
  rebuild-Placed t (from_left c k v w r ∷ above) b top =
      let p = rebuild-Placed (node c t k v w r) above b top in
      (
        p.0.2,
        (p.0.0, p.0.3, (red_children c t r above p.0.1 p.2).0, p.1),
        red_child (color t) c (from_left c k v w r) above refl (Colored-left c t r p.0.1),
      )
  rebuild-Placed t (from_right c l k v w ∷ above) b top =
      let p = rebuild-Placed (node c l k v w t) above b top in
      (
        p.0.3,
        (sym p.0.0, p.0.2, (red_children c l t above p.0.1 p.2).1, rw (← p.0.0) p.1),
        red_child (color t) c (from_right c l k v w) above refl (Colored-right c l t p.0.1),
      )

  rebuild-Counted :
      (t : Tree V) (above : List (Frame V))
      → Weighted (rebuild t above)
      → Weighted t × Counts (weight t) above
  rebuild-Counted t [] h = (h, tt)
  rebuild-Counted t (from_left c k v w r ∷ above) h =
      let p = rebuild-Counted (node c t k v w r) above h in (p.0.1, (p.0.0, p.0.2, p.1))
  rebuild-Counted t (from_right c l k v w ∷ above) h =
      let p = rebuild-Counted (node c l k v w t) above h in
      (p.0.2, (omega (arith, p.0.0), p.0.1, p.1))

  Counts-at : (m n : ℕ) (above : List (Frame V)) → m ≡ n → Counts m above → Counts n above
  Counts-at m n above e h = rw (← e) h

  -- The place of a node with one child, which is all that is left there.
  pub record Spot (c : Color) (x : Tree V) (above : List (Frame V)) : Type 0 where
    pub balanced : Balanced x
    pub lone : c ≡ red → color x ≡ black
    pub fits : Fits (raise c (height x)) above
    pub top : top_color c above ≡ black
    pub weighted : Weighted x
    pub counts : Counts (weight x + 1) above

  pub Spot-right :
      (c : Color) (k : ℕ) (v : V) (w : ℕ) (r : Tree V) (above : List (Frame V))
      → Balanced (rebuild (node c leaf k v w r) above)
      → color (rebuild (node c leaf k v w r) above) ≡ black
      → Weighted (rebuild (node c leaf k v w r) above)
      → Spot c r above
  Spot-right c k v w r above b top h =
      let t = node c leaf k v w r in
      let p = rebuild-Placed t above b top in
      let q = rebuild-Counted t above h in
      record {
        balanced = p.0.3;
        lone = Colored-right c leaf r p.0.1;
        fits = rw (← p.0.0) p.1;
        top = sym (color-rebuild t above) ∙ top;
        weighted = q.0.2;
        counts = Counts-at w (weight r + 1) above (omega (arith, q.0.0)) q.1;
      }

  pub Spot-left :
      (c : Color) (l : Tree V) (k : ℕ) (v : V) (w : ℕ) (above : List (Frame V))
      → Balanced (rebuild (node c l k v w leaf) above)
      → color (rebuild (node c l k v w leaf) above) ≡ black
      → Weighted (rebuild (node c l k v w leaf) above)
      → Spot c l above
  Spot-left c l k v w above b top h =
      let t = node c l k v w leaf in
      let p = rebuild-Placed t above b top in
      let q = rebuild-Counted t above h in
      record {
        balanced = p.0.2;
        lone = Colored-left c l leaf p.0.1;
        fits = p.1;
        top = sym (color-rebuild t above) ∙ top;
        weighted = q.0.1;
        counts = Counts-at w (weight l + 1) above (omega (arith, q.0.0)) q.1;
      }

  -- Lower weights leave the colours as they are.
  pub Beside-under :
      (c : Color) (s : Tree V) (a b : List (Frame V))
      → (UnderBlack a → UnderBlack b)
      → Beside c s a
      → Beside c s b
  Beside-under black s a b u h = tt
  Beside-under red s a b u h = (h.0, u h.1)

  frame_color-lighter : (f : Frame V) → frame_color (lighter_frame f) ≡ frame_color f
  frame_color-lighter (from_left c k v w r) = refl
  frame_color-lighter (from_right c l k v w) = refl

  UnderBlack-lighter :
      (above : List (Frame V)) → UnderBlack above → UnderBlack (lighter_above above)
  UnderBlack-lighter [] h = h
  UnderBlack-lighter (f ∷ above) h = frame_color-lighter f ∙ h

  Fits-lighter : (n : ℕ) (above : List (Frame V)) → Fits n above → Fits n (lighter_above above)
  Fits-lighter n [] h = tt
  Fits-lighter n (from_left c k v w r ∷ above) h = (
    h.0,
    h.1,
    Beside-under c r above (lighter_above above) (UnderBlack-lighter above) h.2,
    Fits-lighter (raise c n) above h.3,
  )
  Fits-lighter n (from_right c l k v w ∷ above) h = (
    h.0,
    h.1,
    Beside-under c l above (lighter_above above) (UnderBlack-lighter above) h.2,
    Fits-lighter (raise c n) above h.3,
  )

  top_color-lighter :
      (c : Color) (above : List (Frame V)) → top_color c (lighter_above above) ≡ top_color c above
  top_color-lighter c [] = refl
  top_color-lighter c (from_left d k v w r ∷ above) = top_color-lighter d above
  top_color-lighter c (from_right d l k v w ∷ above) = top_color-lighter d above

  Counts-lighter :
      (n : ℕ) (above : List (Frame V)) → Counts (n + 1) above → Counts n (lighter_above above)
  Counts-lighter n [] h = tt
  Counts-lighter n (from_left c k v w r ∷ above) h = (
    omega (arith, h.0),
    h.1,
    Counts-lighter (w - 1) above (Counts-at w (w - 1 + 1) above (omega (arith, h.0)) h.2),
  )
  Counts-lighter n (from_right c l k v w ∷ above) h = (
    omega (arith, h.0),
    h.1,
    Counts-lighter (w - 1) above (Counts-at w (w - 1 + 1) above (omega (arith, h.0)) h.2),
  )

  -- Once the weights are lowered the place counts what is left.
  pub record Freed (c : Color) (x : Tree V) (above : List (Frame V)) : Type 0 where
    pub balanced : Balanced x
    pub lone : c ≡ red → color x ≡ black
    pub fits : Fits (raise c (height x)) above
    pub top : top_color c above ≡ black
    pub weighted : Weighted x
    pub counts : Counts (weight x) above

  pub Spot-Freed :
      (c : Color) (x : Tree V) (above : List (Frame V))
      → Spot c x above
      → Freed c x (lighter_above above)
  Spot-Freed c x above h = record {
    balanced = h.balanced;
    lone = h.lone;
    fits = Fits-lighter (raise c (height x)) above h.fits;
    top = top_color-lighter c above ∙ h.top;
    weighted = h.weighted;
    counts = Counts-lighter (weight x) above h.counts;
  }
