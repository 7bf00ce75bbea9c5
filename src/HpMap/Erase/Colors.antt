-- ===== src/HpMap/Erase/Colors.antt =====
-- The loop of `__rb_erase_color` of hds_udp/common/HP_Map.h.
use test_resend.Prelude.{ℕ, ◌+◌, ◌≡◌, refl, sym, ap, ◌∙◌, ◌⊎◌, inl, inr, arith, List, [], ◌∷◌}
use test_resend.HpMap.{
  Color, red, black, Tree, leaf, node, Frame, from_left, from_right, color, set_color, plug,
  rebuild,
}
use test_resend.HpMap.Insert.{frame_color, sibling}
use test_resend.HpMap.Insert.Balance.{raise, height, Balanced, color_cases, red≢black}
use test_resend.HpMap.Erase.{Turn, null_read, climb, settled, sibling_turn}
use test_resend.HpMap.Erase.Over.{
  over_left, over_right, over_left-Same, over_right-Same, over_left-Stands, over_right-Stands,
}
use test_resend.HpMap.Erase.Same.{Same, Same-refl, set_color-Same, node-Same}

one_less : (m n : ℕ) → m + 1 ≡ n + 1 → m ≡ n
one_less m n e = omega (arith, e)

module _ {ℓ} {V : Type ℓ} where
  -- The colour of the root, from a colour at a place below it.
  abbrev pub top_color : Color → List (Frame V) → Color
  top_color c [] = c
  top_color c (f ∷ above) = top_color (frame_color f) above

  color-plug : (f : Frame V) (t : Tree V) → color (plug f t) ≡ frame_color f
  color-plug (from_left c k v w r) t = refl
  color-plug (from_right c l k v w) t = refl

  pub color-rebuild :
      (t : Tree V) (above : List (Frame V)) → color (rebuild t above) ≡ top_color (color t) above
  color-rebuild t [] = refl
  color-rebuild t (f ∷ above) =
      color-rebuild (plug f t) above ∙ ap (λ c. top_color c above) (color-plug f t)

  pub top_black :
      (c : Color) (above : List (Frame V))
      → top_color c above ≡ black
      → top_color black above ≡ black
  top_black c [] h = refl
  top_black c (f ∷ above) h = h

  pub color-set_color : (t : Tree V) → color (set_color black t) ≡ black
  color-set_color leaf = refl
  color-set_color (node c l k v w r) = refl

  pub set_color_idle : (t : Tree V) → color t ≡ black → set_color black t ≡ t
  set_color_idle leaf e = refl
  set_color_idle (node black l k v w r) e = refl
  set_color_idle (node red l k v w r) e = cc

  abbrev pub Turned : Frame V → Tree V → Turn V → Type ℓ
  Turned f t null_read = Unit {ℓ} → ⊥
  Turned f t (climb u) =
      Balanced (set_color black u)
      × (color u ≡ frame_color f)
      × (height u ≡ raise (frame_color f) (height t))
      × Same u (plug f t)
  Turned f t (settled u) =
      Balanced u
      × (color u ≡ frame_color f)
      × (height u ≡ raise (frame_color f) (height t + 1))
      × Same u (plug f t)

  over_left-Turned :
      (c : Color) (t : Tree V) (k : ℕ) (v : V) (w : ℕ) (a : Tree V) (k' : ℕ) (v' : V) (w' : ℕ)
      (b : Tree V)
      → Balanced t
      → height t ≡ height a
      → Balanced (node black a k' v' w' b)
      → (color a ≡ red) ⊎ (color b ≡ red)
      → Turned
          (from_left c k v w (node black a k' v' w' b))
          t
          (settled (over_left c t k v w (node black a k' v' w' b)))
  over_left-Turned c t k v w a k' v' w' b bt same h o =
      let s = node black a k' v' w' b in
      let p = over_left-Stands c t k v w a k' v' w' b bt same h o in
      (p.0, p.1, p.2, over_left-Same c t k v w s)

  over_right-Turned :
      (c : Color) (t : Tree V) (k : ℕ) (v : V) (w : ℕ) (a : Tree V) (k' : ℕ) (v' : V) (w' : ℕ)
      (b : Tree V)
      → Balanced t
      → height t ≡ height a
      → Balanced (node black a k' v' w' b)
      → (color a ≡ red) ⊎ (color b ≡ red)
      → Turned
          (from_right c (node black a k' v' w' b) k v w)
          t
          (settled (over_right c (node black a k' v' w' b) k v w t))
  over_right-Turned c t k v w a k' v' w' b bt same h o =
      let s = node black a k' v' w' b in
      let p = over_right-Stands c a k' v' w' b k v w t bt same h o in
      (p.0, p.1, p.2, over_right-Same c s k v w t)

  pub sibling_turn-Turned :
      (f : Frame V) (t : Tree V)
      → Balanced t
      → height t + 1 ≡ height (sibling f)
      → Balanced (sibling f)
      → color (sibling f) ≡ black
      → Turned f t (sibling_turn f t)
  unfolding sibling_turn
  sibling_turn-Turned (from_left c k v w leaf) t bt e h d = absurd (omega (arith, e))
  sibling_turn-Turned (from_left c k v w (node red a k' v' w' b)) t bt e h d = absurd (red≢black d)
  sibling_turn-Turned (from_left c k v w (node black a k' v' w' b)) t bt e h d =
      let s = node black a k' v' w' b in
      let same = one_less (height t) (height a) e in
      let over = over_left-Turned c t k v w a k' v' w' b bt same h in
      elim (color_cases (color a)) [
        | inl x ↦ rw (x, sibling_turn) (over (inl x))
        | inr x ↦ elim (color_cases (color b)) [
          | inl y ↦ rw (x, y, sibling_turn) (over (inr y))
          | inr y ↦
              rw (x, y, sibling_turn)
                (
                  (same, tt, bt, (h.0, (x, y), h.2, h.3)),
                  refl,
                  refl,
                  node-Same c c t t k v w (node red a k' v' w' b) s (Same-refl t)
                      (set_color-Same red s),
                )
        ]
      ]
  sibling_turn-Turned (from_right c leaf k v w) t bt e h d = absurd (omega (arith, e))
  sibling_turn-Turned (from_right c (node red a k' v' w' b) k v w) t bt e h d = absurd (red≢black d)
  sibling_turn-Turned (from_right c (node black a k' v' w' b) k v w) t bt e h d =
      let s = node black a k' v' w' b in
      let same = one_less (height t) (height a) e in
      let over = over_right-Turned c t k v w a k' v' w' b bt same h in
      elim (color_cases (color a)) [
        | inl x ↦ rw (x, sibling_turn) (over (inl x))
        | inr x ↦ elim (color_cases (color b)) [
          | inl y ↦ rw (x, y, sibling_turn) (over (inr y))
          | inr y ↦
              rw (x, y, sibling_turn)
                (
                  (sym same, tt, (h.0, (x, y), h.2, h.3), bt),
                  refl,
                  ap (raise c) (sym same),
                  node-Same c c (node red a k' v' w' b) s k v w t t (set_color-Same red s)
                      (Same-refl t),
                )
        ]
      ]
