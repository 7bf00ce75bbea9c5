-- ===== src/HpMap/Insert/Balance.antt =====
-- The rules of a red-black tree, for a subtree of hds_udp/common/HP_Map.h and for the frames above it, and
-- the loop of `rb_insert_color`.
use test_resend.Prelude.{
  ℕ, ◌+◌, ◌≡◌, ◌≢◌, refl, sym, ap, ◌∙◌, ◌⊎◌, inl, inr, List, [], ◌∷◌, Option, none, some,
}
use test_resend.HpMap.{
  Color, red, black, Tree, leaf, node, Frame, from_left, from_right, color, set_color, plug,
  rebuild,
}
use test_resend.HpMap.Insert.{frame_color, sibling, recolor, rotate_up, rb_insert_color}

-- The black nodes above a place, counted.
abbrev pub raise : Color → ℕ → ℕ
raise black n = n + 1
raise red n = n

pub color_cases : (c : Color) → (c ≡ red) ⊎ (c ≡ black)
color_cases red = inl refl
color_cases black = inr refl

pub red≢black : red ≢ black
red≢black e = cc

module _ {ℓ} {V : Type ℓ} where
  -- The black nodes on the way to the leftmost leaf.
  abbrev pub height : Tree V → ℕ
  height leaf = 0
  height (node c l k v w r) = raise c (height l)

  -- A red node has black children.
  abbrev pub Colored : Color → Tree V → Tree V → Type 0
  Colored black l r = Unit {0}
  Colored red l r = (color l ≡ black) × (color r ≡ black)

  abbrev pub Balanced : Tree V → Type 0
  Balanced leaf = Unit {0}
  Balanced (node c l k v w r) = (height l ≡ height r) × Colored c l r × Balanced l × Balanced r

  -- The parent is there and black.
  abbrev pub UnderBlack : List (Frame V) → Type 0
  UnderBlack [] = red ≡ black
  UnderBlack (f ∷ above) = frame_color f ≡ black

  abbrev pub Beside : Color → Tree V → List (Frame V) → Type 0
  Beside black s above = Unit {0}
  Beside red s above = (color s ≡ black) × UnderBlack above

  -- The frames take a subtree of height `n`; a red node at the place is all that may be wrong.
  abbrev pub Fits : ℕ → List (Frame V) → Type 0
  Fits n [] = Unit {0}
  Fits n (f ∷ above) =
      (n ≡ height (sibling f))
      × Balanced (sibling f)
      × Beside (frame_color f) (sibling f) above
      × Fits (raise (frame_color f) n) above

  abbrev pub Meets : Tree V → List (Frame V) → Type 0
  Meets t [] = Unit {0}
  Meets t (f ∷ above) = (color t ≡ black) ⊎ (frame_color f ≡ black)

  abbrev pub BlackRooted : Option (Tree V) → Type 0
  BlackRooted none = red ≡ black
  BlackRooted (some t) = Balanced t × (color t ≡ black)

  pub black-Meets : (t : Tree V) (above : List (Frame V)) → color t ≡ black → Meets t above
  black-Meets t [] e = tt
  black-Meets t (f ∷ above) e = inl e

  pub Meets-black : (t : Tree V) (above : List (Frame V)) → UnderBlack above → Meets t above
  Meets-black t [] e = tt
  Meets-black t (f ∷ above) e = inr e

  pub rebuild-Balanced :
      (t : Tree V) (above : List (Frame V))
      → Balanced t
      → Fits (height t) above
      → Meets t above
      → Balanced (rebuild t above)
  rebuild-Balanced t [] b h m = b
  rebuild-Balanced t (from_left black k v w r ∷ above) b h m =
      rebuild-Balanced (node black t k v w r) above (h.0, tt, b, h.1) h.3
        (black-Meets (node black t k v w r) above refl)
  rebuild-Balanced t (from_left red k v w r ∷ above) b h m = elim m [
    | inl e ↦
        rebuild-Balanced (node red t k v w r) above (h.0, (e, h.2.0), b, h.1) h.3
          (Meets-black (node red t k v w r) above h.2.1)
    | inr e ↦ cc
  ]
  rebuild-Balanced t (from_right black l k v w ∷ above) b h m =
      rebuild-Balanced (node black l k v w t) above (sym h.0, tt, h.1, b) (rw (← h.0) h.3)
        (black-Meets (node black l k v w t) above refl)
  rebuild-Balanced t (from_right red l k v w ∷ above) b h m = elim m [
    | inl e ↦
        rebuild-Balanced (node red l k v w t) above (sym h.0, (h.2.0, e), h.1, b) (rw (← h.0) h.3)
          (Meets-black (node red l k v w t) above h.2.1)
    | inr e ↦ cc
  ]

  pub set_color-Balanced :
      (t : Tree V) → Balanced t → Balanced (set_color black t) × (color (set_color black t) ≡ black)
  set_color-Balanced leaf b = (tt, refl)
  set_color-Balanced (node c l k v w r) b = ((b.0, tt, b.2, b.3), refl)

  pub blacken :
      (t : Tree V) (above : List (Frame V))
      → Balanced t
      → Fits (height t) above
      → Meets t above
      → BlackRooted (some (set_color black (rebuild t above)))
  blacken t above b h m = set_color-Balanced (rebuild t above) (rebuild-Balanced t above b h m)

  -- The two rotations of a black grandparent with a black uncle.
  rotate_up-Balanced :
      (f g : Frame V) (t : Tree V) (above : List (Frame V))
      → color t ≡ red
      → frame_color f ≡ red
      → color (sibling g) ≡ black
      → Balanced t
      → Fits (height t) (f ∷ (g ∷ above))
      → Balanced (rotate_up g f t)
        × (color (rotate_up g f t) ≡ black)
        × (height (rotate_up g f t) ≡ height t + 1)
  rotate_up-Balanced (from_left red k v w s) (from_left c k' v' w' u) (node red a x y z b) above e
        e' d bal h =
      ((h.0, tt, bal, (sym h.0 ∙ h.3.0, (h.2.0, d), h.1, h.3.1)), refl, refl)
  rotate_up-Balanced (from_left red k v w s) (from_right c u k' v' w') (node red a x y z b) above e
        e' d bal h =
      (
        (
          sym h.3.0 ∙ bal.0,
          tt,
          (sym h.3.0, (d, bal.1.0), h.3.1, bal.2),
          (sym bal.0 ∙ h.0, (bal.1.1, h.2.0), bal.3, h.1),
        ),
        refl,
        ap (◌+ 1) (sym h.3.0),
      )
  rotate_up-Balanced (from_right red s k v w) (from_left c k' v' w' u) (node red a x y z b) above e
        e' d bal h =
      (
        (
          sym h.0 ∙ bal.0,
          tt,
          (sym h.0, (h.2.0, bal.1.0), h.1, bal.2),
          (sym bal.0 ∙ h.3.0, (bal.1.1, d), bal.3, h.3.1),
        ),
        refl,
        ap (◌+ 1) (sym h.0),
      )
  rotate_up-Balanced (from_right red s k v w) (from_right c u k' v' w') (node red a x y z b) above e
        e' d bal h =
      ((sym h.3.0, tt, (sym h.3.0 ∙ h.0, (d, h.2.0), h.3.1, h.1), bal), refl, ap (◌+ 1) (sym h.3.0))
  rotate_up-Balanced (from_left black k v w s) g t above e e' d bal h = cc
  rotate_up-Balanced (from_right black s k v w) g t above e e' d bal h = cc
  rotate_up-Balanced f g (node black a x y z b) above e e' d bal h = cc
  rotate_up-Balanced f g leaf above e e' d bal h = cc

  -- A red node that becomes black is a level higher.
  pub blacken-height : (t : Tree V) → color t ≡ red → height (set_color black t) ≡ height t + 1
  blacken-height leaf e = cc
  blacken-height (node red l k v w r) e = refl
  blacken-height (node black l k v w r) e = cc

  parent-Balanced :
      (f : Frame V) (t : Tree V) (above : List (Frame V))
      → Balanced t
      → Fits (height t) (f ∷ above)
      → Balanced (set_color black (plug f t)) × (height (set_color black (plug f t)) ≡ height t + 1)
  parent-Balanced (from_left c k v w r) t above bal h = ((h.0, tt, bal, h.1), refl)
  parent-Balanced (from_right c l k v w) t above bal h =
      ((sym h.0, tt, h.1, bal), ap (◌+ 1) (sym h.0))

  black_top : (f : Frame V) (t : Tree V) → color (set_color black (plug f t)) ≡ black
  black_top (from_left c k v w r) t = refl
  black_top (from_right c l k v w) t = refl

  -- Recolouring moves the red node two levels up.
  recolor-Balanced :
      (f g : Frame V) (t : Tree V) (above : List (Frame V))
      → color (sibling g) ≡ red
      → height t ≡ height (sibling g)
      → Balanced (sibling g)
      → Balanced t
      → Fits (height t) (f ∷ above)
      → Balanced (recolor g f t)
        × (color (recolor g f t) ≡ red)
        × (height (recolor g f t) ≡ height t + 1)
  recolor-Balanced f (from_left c k v w u) t above e same bu bal h =
      let p = parent-Balanced f t above bal h in
      let q = set_color-Balanced u bu in
      ((p.1 ∙ ap (◌+ 1) same ∙ sym (blacken-height u e), (black_top f t, q.1), p.0, q.0), refl, p.1)
  recolor-Balanced f (from_right c u k v w) t above e same bu bal h =
      let p = parent-Balanced f t above bal h in
      let q = set_color-Balanced u bu in
      let up = blacken-height u e ∙ ap (◌+ 1) (sym same) in
      ((up ∙ sym p.1, (q.1, black_top f t), q.0, p.0), refl, up)

  -- What a red and a black frame mean for the place below.
  pub Beside-red :
      (c : Color) (s : Tree V) (above : List (Frame V))
      → c ≡ red
      → Beside c s above
      → (color s ≡ black) × UnderBlack above
  Beside-red red s above e h = h
  Beside-red black s above e h = cc

  pub Fits-red :
      (c : Color) (n : ℕ) (above : List (Frame V)) → c ≡ red → Fits (raise c n) above → Fits n above
  Fits-red red n above e h = h
  Fits-red black n above e h = cc

  pub Fits-black :
      (c : Color) (n : ℕ) (above : List (Frame V))
      → c ≡ black
      → Fits (raise c n) above
      → Fits (n + 1) above
  Fits-black red n above e h = cc
  Fits-black black n above e h = h

  -- The loop ends with a balanced tree under a black root; no parent that is missing is read.
  pub rb_insert_color-BlackRooted :
      (t : Tree V) (above : List (Frame V))
      → color t ≡ red
      → Balanced t
      → Fits (height t) above
      → BlackRooted (rb_insert_color t above)
  unfolding rb_insert_color
  rb_insert_color-BlackRooted t [] e bal h = set_color-Balanced t bal
  rb_insert_color-BlackRooted t (f ∷ []) e bal h = elim (color_cases (frame_color f)) [
    | inl c ↦ absurd (red≢black (Beside-red (frame_color f) (sibling f) [] c h.2).1)
    | inr c ↦ rw (c, rb_insert_color) (blacken t (f ∷ []) bal h (inr c))
  ]
  rb_insert_color-BlackRooted t (f ∷ (g ∷ above)) e bal h = elim (color_cases (frame_color f)) [
    | inl c ↦
        let under = Beside-red (frame_color f) (sibling f) (g ∷ above) c h.2 in
        let outer = Fits-red (frame_color f) (height t) (g ∷ above) c h.3 in
        let far = Fits-black (frame_color g) (height t) above under.1 outer.3 in
        elim (color_cases (color (sibling g))) [
          | inl u ↦
              let p = recolor-Balanced f g t (g ∷ above) u outer.0 outer.1 bal h in
              rw (c, u, rb_insert_color)
                (rb_insert_color-BlackRooted (recolor g f t) above p.1 p.0 (rw p.2 far))
          | inr u ↦
              let p = rotate_up-Balanced f g t above e c u bal h in
              rw (c, u, rb_insert_color)
                (blacken (rotate_up g f t) above p.0 (rw p.2 far)
                  (black-Meets (rotate_up g f t) above p.1))
        ]
    | inr c ↦ rw (c, rb_insert_color) (blacken t (f ∷ (g ∷ above)) bal h (inr c))
  ]
