-- ===== src/HpMap/Erase/Over.antt =====
-- The rotation that ends the loop of `__rb_erase_color` of hds_udp/common/HP_Map.h.
use test_resend.Prelude.{ℕ, ◌+◌, ◌≡◌, refl, sym, ap, ◌∙◌, ◌⊎◌, inl, inr}
use test_resend.HpMap.{
  Color, red, black, Tree, leaf, node, color, set_color, rotate_left, rotate_right,
}
use test_resend.HpMap.Insert.Balance.{raise, height, Colored, Balanced, color_cases, red≢black}
use test_resend.HpMap.Erase.{outer_right, outer_left, lend_right, lend_left}
use test_resend.HpMap.Erase.Same.{
  Same, Same-refl, Same-trans, rotate_left-Same, rotate_right-Same, set_color-Same, node-Same,
}

no_red : (black ≡ red) ⊎ (black ≡ red) → ⊥
no_red (inl d) = red≢black (sym d)
no_red (inr d) = red≢black (sym d)

module _ {ℓ} {V : Type ℓ} where
  Colored-black : (c : Color) (l r : Tree V) → color l ≡ black → color r ≡ black → Colored c l r
  Colored-black red l r e d = (e, d)
  Colored-black black l r e d = tt

  outer_right-Same : (s : Tree V) → Same (outer_right s) s
  outer_right-Same leaf = Same-refl leaf
  outer_right-Same (node d a k v w b) = elim (color_cases (color b)) [
    | inl e ↦ rw (e, outer_right) (Same-refl (node d a k v w b))
    | inr e ↦
        rw (e, outer_right)
          (Same-trans (rotate_right (node red (set_color black a) k v w b))
            (node red (set_color black a) k v w b) (node d a k v w b)
            (rotate_right-Same (node red (set_color black a) k v w b))
            (node-Same red d (set_color black a) a k v w b b (set_color-Same black a)
              (Same-refl b)))
  ]

  outer_left-Same : (s : Tree V) → Same (outer_left s) s
  outer_left-Same leaf = Same-refl leaf
  outer_left-Same (node d a k v w b) = elim (color_cases (color a)) [
    | inl e ↦ rw (e, outer_left) (Same-refl (node d a k v w b))
    | inr e ↦
        rw (e, outer_left)
          (Same-trans (rotate_left (node red a k v w (set_color black b)))
            (node red a k v w (set_color black b)) (node d a k v w b)
            (rotate_left-Same (node red a k v w (set_color black b)))
            (node-Same red d a a k v w (set_color black b) b (Same-refl a)
              (set_color-Same black b)))
  ]

  lend_right-Same : (c : Color) (s : Tree V) → Same (lend_right c s) s
  lend_right-Same c leaf = Same-refl leaf
  lend_right-Same c (node d a k v w b) =
      node-Same c d a a k v w (set_color black b) b (Same-refl a) (set_color-Same black b)

  lend_left-Same : (c : Color) (s : Tree V) → Same (lend_left c s) s
  lend_left-Same c leaf = Same-refl leaf
  lend_left-Same c (node d a k v w b) =
      node-Same c d (set_color black a) a k v w b b (set_color-Same black a) (Same-refl b)

  -- The sibling rotated over the parent, which stands to its left or to its right.
  abbrev pub over_left : Color → Tree V → ℕ → V → ℕ → Tree V → Tree V
  over_left c t k v w s = rotate_left (node black t k v w (lend_right c (outer_right s)))

  abbrev pub over_right : Color → Tree V → ℕ → V → ℕ → Tree V → Tree V
  over_right c s k v w t = rotate_right (node black (lend_left c (outer_left s)) k v w t)

  pub over_left-Same :
      (c : Color) (t : Tree V) (k : ℕ) (v : V) (w : ℕ) (s : Tree V)
      → Same (over_left c t k v w s) (node c t k v w s)
  over_left-Same c t k v w s =
      let m = lend_right c (outer_right s) in
      Same-trans (over_left c t k v w s) (node black t k v w m) (node c t k v w s)
        (rotate_left-Same (node black t k v w m))
        (node-Same black c t t k v w m s (Same-refl t)
          (Same-trans m (outer_right s) s (lend_right-Same c (outer_right s)) (outer_right-Same s)))

  pub over_right-Same :
      (c : Color) (s : Tree V) (k : ℕ) (v : V) (w : ℕ) (t : Tree V)
      → Same (over_right c s k v w t) (node c s k v w t)
  over_right-Same c s k v w t =
      let m = lend_left c (outer_left s) in
      Same-trans (over_right c s k v w t) (node black m k v w t) (node c s k v w t)
        (rotate_right-Same (node black m k v w t))
        (node-Same black c m s k v w t t
          (Same-trans m (outer_left s) s (lend_left-Same c (outer_left s)) (outer_left-Same s))
          (Same-refl t))

  -- A balanced tree with a colour and a height.
  abbrev pub Stands : Color → ℕ → Tree V → Type 0
  Stands c n u = Balanced u × (color u ≡ c) × (height u ≡ raise c n)

  pub over_left-Stands :
      (c : Color) (t : Tree V) (k : ℕ) (v : V) (w : ℕ) (a : Tree V) (k' : ℕ) (v' : V) (w' : ℕ)
      (b : Tree V)
      → Balanced t
      → height t ≡ height a
      → Balanced (node black a k' v' w' b)
      → (color a ≡ red) ⊎ (color b ≡ red)
      → Stands c (height t + 1) (over_left c t k v w (node black a k' v' w' b))
  over_left-Stands c t k v w a k' v' w' (node red x i j y z) bt e h o = (
    (
      ap (◌+ 1) (e ∙ h.0),
      Colored-black c (node black t k v _ a) (node black x i j y z) refl refl,
      (e, tt, bt, h.2),
      (h.3.0, tt, h.3.2, h.3.3),
    ),
    refl,
    refl,
  )
  over_left-Stands c t k v w (node red x i j y z) k' v' w' (node black m p q n s) bt e h o = (
    (
      ap (◌+ 1) (e ∙ h.2.0),
      Colored-black c (node black t k v _ x) (node black z k' v' _ (node black m p q n s)) refl
          refl,
      (e, tt, bt, h.2.2),
      (sym h.2.0 ∙ h.0, tt, h.2.3, h.3),
    ),
    refl,
    refl,
  )
  over_left-Stands c t k v w (node red x i j y z) k' v' w' leaf bt e h o = (
    (
      ap (◌+ 1) (e ∙ h.2.0),
      Colored-black c (node black t k v _ x) (node black z k' v' _ leaf) refl refl,
      (e, tt, bt, h.2.2),
      (sym h.2.0 ∙ h.0, tt, h.2.3, tt),
    ),
    refl,
    refl,
  )
  over_left-Stands c t k v w (node black x i j y z) k' v' w' (node black m p q n s) bt e h o =
      absurd (no_red o)
  over_left-Stands c t k v w (node black x i j y z) k' v' w' leaf bt e h o = absurd (no_red o)
  over_left-Stands c t k v w leaf k' v' w' (node black m p q n s) bt e h o = absurd (no_red o)
  over_left-Stands c t k v w leaf k' v' w' leaf bt e h o = absurd (no_red o)

  pub over_right-Stands :
      (c : Color) (a : Tree V) (k' : ℕ) (v' : V) (w' : ℕ) (b : Tree V) (k : ℕ) (v : V) (w : ℕ)
      (t : Tree V)
      → Balanced t
      → height t ≡ height a
      → Balanced (node black a k' v' w' b)
      → (color a ≡ red) ⊎ (color b ≡ red)
      → Stands c (height t + 1) (over_right c (node black a k' v' w' b) k v w t)
  over_right-Stands c (node red x i j y z) k' v' w' b k v w t bt e h o = (
    (
      ap (◌+ 1) h.0,
      Colored-black c (node black x i j y z) (node black b k v _ t) refl refl,
      (h.2.0, tt, h.2.2, h.2.3),
      (sym h.0 ∙ sym e, tt, h.3, bt),
    ),
    refl,
    ap (λ n. raise c (n + 1)) (sym e),
  )
  over_right-Stands c (node black m p q n s) k' v' w' (node red x i j y z) k v w t bt e h o = (
    (
      ap (◌+ 1) (h.0 ∙ h.3.0),
      Colored-black c (node black (node black m p q n s) k' v' _ x) (node black z k v _ t) refl
          refl,
      (h.0, tt, h.2, h.3.2),
      (sym h.3.0 ∙ sym h.0 ∙ sym e, tt, h.3.3, bt),
    ),
    refl,
    ap (λ n. raise c (n + 1)) (sym e),
  )
  over_right-Stands c leaf k' v' w' (node red x i j y z) k v w t bt e h o = (
    (
      ap (◌+ 1) (h.0 ∙ h.3.0),
      Colored-black c (node black leaf k' v' _ x) (node black z k v _ t) refl refl,
      (h.0, tt, tt, h.3.2),
      (sym h.3.0 ∙ sym h.0 ∙ sym e, tt, h.3.3, bt),
    ),
    refl,
    ap (λ n. raise c (n + 1)) (sym e),
  )
  over_right-Stands c (node black x i j y z) k' v' w' (node black m p q n s) k v w t bt e h o =
      absurd (no_red o)
  over_right-Stands c (node black x i j y z) k' v' w' leaf k v w t bt e h o = absurd (no_red o)
  over_right-Stands c leaf k' v' w' (node black m p q n s) k v w t bt e h o = absurd (no_red o)
  over_right-Stands c leaf k' v' w' leaf k v w t bt e h o = absurd (no_red o)
