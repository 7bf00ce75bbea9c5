-- ===== src/HpMap/Erase/Loop.antt =====
-- The loop of `__rb_erase_color` of hds_udp/common/HP_Map.h, from its first turn to its end.
use mathlib.Core.Path.{subst}
use test_resend.Prelude.{
  ℕ, zero, suc, ◌+◌, ◌<◌, ◌≡◌, refl, sym, ◌∙◌, inl, inr, arith, List, [], ◌∷◌, Option, none, some,
  length,
}
use test_resend.HpMap.{
  Color, red, black, Tree, leaf, node, Frame, from_left, from_right, color, set_color, plug,
  rebuild, rotate_left, rotate_right,
}
use test_resend.HpMap.Insert.{frame_color, sibling}
use test_resend.HpMap.Insert.Balance.{
  raise, height, Balanced, Fits, color_cases, red≢black, rebuild-Balanced, blacken, blacken-height,
  black-Meets, Meets, Meets-black, Beside, Beside-red,
}
use test_resend.HpMap.Erase.{
  Turn, null_read, climb, settled, sibling_turn, lower, upper, after_turn, rb_erase_color,
}
use test_resend.HpMap.Erase.Same.{
  Same, Same-refl, Same-trans, rotate_left-Same, rotate_right-Same, set_color-Same, node-Same,
  rebuild-Same,
}
use test_resend.HpMap.Erase.Colors.{
  top_color, color-rebuild, top_black, color-set_color, set_color_idle, Turned, sibling_turn-Turned,
}

raise_more : (c : Color) (m : ℕ) → raise c m + 1 ≡ raise c (m + 1)
raise_more red m = refl
raise_more black m = refl

module _ {ℓ} {V : Type ℓ} where
  -- A result that is there: balanced, with a black root, in place of another tree.
  abbrev pub Mended : Tree V → Option (Tree V) → Type ℓ
  Mended whole none = Unit {ℓ} → ⊥
  Mended whole (some t) = Balanced t × (color t ≡ black) × Same t whole

  Mended-Same : (s t : Tree V) (o : Option (Tree V)) → Same s t → Mended s o → Mended t o
  Mended-Same s t none p h = h
  Mended-Same s t (some u) p h = (h.0, h.1, Same-trans u s t h.2 p)

  -- The end of the loop by its `break`.
  settled-Mended :
      (u : Tree V) (above : List (Frame V))
      → Balanced u
      → Fits (height u) above
      → Meets u above
      → Mended (rebuild u above) (some (set_color black (rebuild u above)))
  settled-Mended u above b h m =
      let p = blacken u above b h m in (p.0, p.1, set_color-Same black (rebuild u above))

  -- The end of the loop at a red node.
  red-Mended :
      (n : ℕ) (t : Tree V) (above : List (Frame V))
      → 0 < n
      → color t ≡ red
      → Balanced (set_color black t)
      → Fits (height t + 1) above
      → top_color black above ≡ black
      → Mended (rebuild t above) (rb_erase_color n t above)
  unfolding rb_erase_color
  red-Mended zero t above lt e b h top = absurd (omega (arith, lt))
  red-Mended (suc n) t [] lt e b h top = (b, color-set_color t, set_color-Same black t)
  red-Mended (suc n) t (f ∷ above) lt e b h top =
      let s = set_color black t in
      rw (e, rb_erase_color)
        (
          rebuild-Balanced s (f ∷ above) b (rw (blacken-height t e) h)
              (black-Meets s (f ∷ above) (color-set_color t)),
          color-rebuild s (f ∷ above) ∙ top,
          rebuild-Same (f ∷ above) s t (set_color-Same black t),
        )

  -- A red sibling has a black parent; the frames after its rotation.
  abbrev Lowered : Frame V → Tree V → List (Frame V) → Type ℓ
  Lowered f t above =
      Fits (height t + 1) (lower f t ∷ (upper f t ∷ above))
      × (color (sibling (lower f t)) ≡ black)
      × (frame_color (lower f t) ≡ red)
      × (frame_color (upper f t) ≡ black)
      × Same (plug (upper f t) (plug (lower f t) t)) (plug f t)

  lower-Lowered :
      (f : Frame V) (t : Tree V) (above : List (Frame V))
      → color (sibling f) ≡ red
      → Fits (height t + 1) (f ∷ above)
      → Lowered f t above
  lower-Lowered (from_left c k v w leaf) t above e h = absurd (red≢black (sym e))
  lower-Lowered (from_left c k v w (node black m k' v' w' r)) t above e h =
      absurd (red≢black (sym e))
  lower-Lowered (from_left red k v w (node red m k' v' w' r)) t above e h = absurd (red≢black h.2.0)
  lower-Lowered (from_left black k v w (node red m k' v' w' r)) t above e h = (
    (h.0, h.1.2, (h.1.1.0, refl), (h.0 ∙ h.1.0, h.1.3, tt, h.3)),
    h.1.1.0,
    refl,
    refl,
    Same-trans (rotate_left (node red t k v w (node black m k' v' w' r)))
        (node red t k v w (node black m k' v' w' r)) (node black t k v w (node red m k' v' w' r))
        (rotate_left-Same (node red t k v w (node black m k' v' w' r)))
        (node-Same red black t t k v w (node black m k' v' w' r) (node red m k' v' w' r)
          (Same-refl t) (set_color-Same black (node red m k' v' w' r))),
  )
  lower-Lowered (from_right c leaf k v w) t above e h = absurd (red≢black (sym e))
  lower-Lowered (from_right c (node black l k' v' w' m) k v w) t above e h =
      absurd (red≢black (sym e))
  lower-Lowered (from_right red (node red l k' v' w' m) k v w) t above e h =
      absurd (red≢black h.2.0)
  lower-Lowered (from_right black (node red l k' v' w' m) k v w) t above e h = (
    (h.0 ∙ h.1.0, h.1.3, (h.1.1.1, refl), (h.0, h.1.2, tt, h.3)),
    h.1.1.1,
    refl,
    refl,
    Same-trans (rotate_right (node red (node black l k' v' w' m) k v w t))
        (node red (node black l k' v' w' m) k v w t) (node black (node red l k' v' w' m) k v w t)
        (rotate_right-Same (node red (node black l k' v' w' m) k v w t))
        (node-Same red black (node black l k' v' w' m) (node red l k' v' w' m) k v w t t
          (set_color-Same black (node red l k' v' w' m)) (Same-refl t)),
  )

  -- What a turn leaves above the parent.
  Fits-raise :
      (f : Frame V) (n m : ℕ) (above : List (Frame V))
      → n ≡ raise (frame_color f) m
      → Fits (raise (frame_color f) m) above
      → Fits n above
  Fits-raise f n m above e h = rw e h

  Fits-climb :
      (f : Frame V) (t u : Tree V) (above : List (Frame V))
      → height u ≡ raise (frame_color f) (height t)
      → Fits (raise (frame_color f) (height t + 1)) above
      → Fits (height u + 1) above
  Fits-climb f t u above e h = rw (e, raise_more (frame_color f) (height t)) h

  Meets-turned :
      (f : Frame V) (u : Tree V) (above : List (Frame V))
      → color u ≡ frame_color f
      → Beside (frame_color f) (sibling f) above
      → Meets u above
  Meets-turned f u above e h = elim (color_cases (frame_color f)) [
    | inl c ↦ Meets-black u above (Beside-red (frame_color f) (sibling f) above c h).1
    | inr c ↦ black-Meets u above (e ∙ c)
  ]

  -- A turn that leaves the loop.
  settled-sibling_turn :
      (f : Frame V) (t u : Tree V) (above : List (Frame V))
      → Fits (height t + 1) (f ∷ above)
      → Turned f t (settled u)
      → Mended (rebuild t (f ∷ above)) (some (set_color black (rebuild u above)))
  settled-sibling_turn f t u above h p =
      Mended-Same (rebuild u above) (rebuild t (f ∷ above))
        (some (set_color black (rebuild u above))) (rebuild-Same above u (plug f t) p.3)
        (settled-Mended u above p.0 (Fits-raise f (height u) (height t + 1) above p.2 h.3)
          (Meets-turned f u above p.1 h.2))

  low_top :
      (f : Frame V) (t : Tree V) (above : List (Frame V))
      → frame_color (upper f t) ≡ black
      → top_color (frame_color f) above ≡ black
      → top_color (frame_color (upper f t)) above ≡ black
  low_top f t above e h = rw e (top_black (frame_color f) above h)

  after_turn-Mended :
      (f : Frame V) (t : Tree V) (above : List (Frame V)) (go : Tree V → Option (Tree V))
      (o : Turn V)
      → Fits (height t + 1) (f ∷ above)
      → Turned f t o
      → ((u : Tree V)
          → Balanced (set_color black u)
          → color u ≡ frame_color f
          → Fits (height u + 1) above
          → Mended (rebuild u above) (go u))
      → Mended (rebuild t (f ∷ above)) (after_turn go above o)
  after_turn-Mended f t above go null_read h p step = absurd (p tt)
  after_turn-Mended f t above go (settled u) h p step = settled-sibling_turn f t u above h p
  after_turn-Mended f t above go (climb u) h p step =
      Mended-Same (rebuild u above) (rebuild t (f ∷ above)) (go u)
        (rebuild-Same above u (plug f t) p.3) (step u p.0 p.1 (Fits-climb f t u above p.2 h.3))

  -- With a turn for each frame and one more the loop returns a balanced tree with a black root, and
  -- reads no sibling that is missing.
  pub rb_erase_color-Mended :
      (n : ℕ) (t : Tree V) (above : List (Frame V))
      → length above < n
      → Balanced (set_color black t)
      → Fits (height t + 1) above
      → top_color black above ≡ black
      → Mended (rebuild t above) (rb_erase_color n t above)
  unfolding rb_erase_color
  rb_erase_color-Mended zero t above lt b h top = absurd (omega (arith, lt))
  rb_erase_color-Mended (suc n) t [] lt b h top = (b, color-set_color t, set_color-Same black t)
  rb_erase_color-Mended (suc n) t (f ∷ above) lt b h top = elim (color_cases (color t)) [
    | inl e ↦ red-Mended (suc n) t (f ∷ above) (omega arith) e b h top
    | inr e ↦
        let bt = subst Balanced (set_color_idle t e) b in
        elim (color_cases (color (sibling f))) [
          | inl s ↦
              let low = lower-Lowered f t above s h in
              rw (e, s, rb_erase_color)
                (Mended-Same (rebuild t (lower f t ∷ (upper f t ∷ above))) (rebuild t (f ∷ above))
                  (after_turn (λ u. rb_erase_color n u (upper f t ∷ above)) (upper f t ∷ above)
                    (sibling_turn (lower f t) t))
                  (rebuild-Same above (plug (upper f t) (plug (lower f t) t)) (plug f t) low.4)
                  (after_turn-Mended (lower f t) t (upper f t ∷ above)
                    (λ u. rb_erase_color n u (upper f t ∷ above)) (sibling_turn (lower f t) t) low.0
                    (sibling_turn-Turned (lower f t) t bt low.0.0 low.0.1 low.1)
                    (λ u d c g.
                      red-Mended n u (upper f t ∷ above) (omega (arith, lt)) (c ∙ low.2) d g
                        (low_top f t above low.3 top))))
          | inr s ↦
              rw (e, s, rb_erase_color)
                (after_turn-Mended f t above (λ u. rb_erase_color n u above) (sibling_turn f t) h
                  (sibling_turn-Turned f t bt h.0 h.1 s)
                  (λ u d c g.
                    rb_erase_color-Mended n u above (omega (arith, lt)) d g
                      (top_black (frame_color f) above top)))
        ]
  ]
