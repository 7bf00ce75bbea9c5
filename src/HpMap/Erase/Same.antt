-- ===== src/HpMap/Erase/Same.antt =====
-- Trees of hds_udp/common/HP_Map.h that stand for each other in a rotation or a change of colour.
use test_resend.Prelude.{ℕ, ◌≡◌, refl, ap, ◌∙◌, arith, List, [], ◌∷◌, ◌++◌}
use test_resend.HpMap.{
  Color, Tree, node, Frame, from_left, from_right, weight, set_color, plug, rebuild, rotate_left,
  rotate_right,
}
use test_resend.HpMap.Entries.{
  entries, entries-rotate_left, entries-rotate_right, entries-set_color,
}
use test_resend.HpMap.Insert.Weights.{
  Weighted, rotate_left-Weighted, rotate_right-Weighted, set_color-Weighted,
}

module _ {ℓ} {V : Type ℓ} where
  -- The same entries, and the same weight where the weights are true.
  pub record Same (s t : Tree V) : Type ℓ where
    pub listed : entries s ≡ entries t
    pub weighed : Weighted t → Weighted s × (weight s ≡ weight t)

  pub Same-refl : (t : Tree V) → Same t t
  Same-refl t = record { listed = refl; weighed = λ h. (h, refl) }

  pub Same-trans : (r s t : Tree V) → Same r s → Same s t → Same r t
  Same-trans r s t p q = record {
    listed = p.listed ∙ q.listed;
    weighed = λ h. let a = q.weighed h in let b = p.weighed a.0 in (b.0, b.1 ∙ a.1);
  }

  pub rotate_left-Same : (t : Tree V) → Same (rotate_left t) t
  rotate_left-Same t = record { listed = entries-rotate_left t; weighed = rotate_left-Weighted t }

  pub rotate_right-Same : (t : Tree V) → Same (rotate_right t) t
  rotate_right-Same t = record {
    listed = entries-rotate_right t;
    weighed = rotate_right-Weighted t;
  }

  pub set_color-Same : (c : Color) (t : Tree V) → Same (set_color c t) t
  set_color-Same c t = record { listed = entries-set_color c t; weighed = set_color-Weighted c t }

  -- Under a node, whose own colour does not matter.
  pub node-Same :
      (c d : Color) (l m : Tree V) (k : ℕ) (v : V) (w : ℕ) (r s : Tree V)
      → Same l m
      → Same r s
      → Same (node c l k v w r) (node d m k v w s)
  node-Same c d l m k v w r s p q = record {
    listed =
        ap (λ a. a ++ ((k, v) ∷ entries r)) p.listed ∙ ap (λ b. entries m ++ ((k, v) ∷ b)) q.listed;
    weighed = λ h.
        let a = p.weighed h.1 in
        let b = q.weighed h.2 in ((omega (arith, h.0, a.1, b.1), a.0, b.0), refl);
  }

  plug-Same : (f : Frame V) (s t : Tree V) → Same s t → Same (plug f s) (plug f t)
  plug-Same (from_left c k v w r) s t h = node-Same c c s t k v w r r h (Same-refl r)
  plug-Same (from_right c l k v w) s t h = node-Same c c l l k v w s t (Same-refl l) h

  pub rebuild-Same :
      (above : List (Frame V)) (s t : Tree V) → Same s t → Same (rebuild s above) (rebuild t above)
  rebuild-Same [] s t h = h
  rebuild-Same (f ∷ above) s t h = rebuild-Same above (plug f s) (plug f t) (plug-Same f s t h)
