-- ===== src/HpMap/Insert/Keeping.antt =====
-- The entries of the map of hds_udp/common/HP_Map.h before and after the loop of `rb_insert_color`.
use test_resend.Prelude.{
  ℕ, ◌≡◌, refl, sym, ap, ◌∙◌, inl, inr, List, [], ◌∷◌, ◌++◌, Option, none, some,
}
use test_resend.HpMap.{
  red, black, Tree, node, Frame, from_left, from_right, color, set_color, plug, rebuild,
}
use test_resend.HpMap.Entries.{
  entries, before, after, entries-rebuild, entries-rotate_left, entries-rotate_right,
  entries-set_color,
}
use test_resend.HpMap.Insert.{frame_color, sibling, recolor, straighten, rotate_up, rb_insert_color}
use test_resend.HpMap.Insert.Balance.{color_cases}

module _ {ℓ} {V : Type ℓ} where
  -- A result, if there is one, has these entries.
  abbrev pub HasEntries : List (ℕ × V) → Option (Tree V) → Type ℓ
  HasEntries m none = Unit {ℓ}
  HasEntries m (some t) = entries t ≡ m

  entries-recolor :
      (f g : Frame V) (t : Tree V) → entries (recolor g f t) ≡ entries (plug g (plug f t))
  entries-recolor f (from_left c k v w u) t =
      simp (entries-set_color black (plug f t), entries-set_color black u)
  entries-recolor f (from_right c u k v w) t =
      simp (entries-set_color black (plug f t), entries-set_color black u)

  entries-straighten :
      (f g : Frame V) (t : Tree V) → entries (straighten g f t) ≡ entries (plug f t)
  entries-straighten (from_left c k v w r) (from_left c' k' v' w' r') t = refl
  entries-straighten (from_left c k v w r) (from_right c' l' k' v' w') t =
      entries-rotate_right (node c t k v w r)
  entries-straighten (from_right c l k v w) (from_right c' l' k' v' w') t = refl
  entries-straighten (from_right c l k v w) (from_left c' k' v' w' r') t =
      entries-rotate_left (node c l k v w t)

  entries-rotate_up :
      (f g : Frame V) (t : Tree V) → entries (rotate_up g f t) ≡ entries (plug g (plug f t))
  entries-rotate_up f (from_left c k v w r) t =
      let s = straighten (from_left c k v w r) f t in
      entries-rotate_right (node red (set_color black s) k v w r)
      ∙ ap (◌++ ((k, v) ∷ entries r))
          (entries-set_color black s ∙ entries-straighten f (from_left c k v w r) t)
  entries-rotate_up f (from_right c l k v w) t =
      let s = straighten (from_right c l k v w) f t in
      entries-rotate_left (node red l k v w (set_color black s))
      ∙ ap (λ m. entries l ++ ((k, v) ∷ m))
          (entries-set_color black s ∙ entries-straighten f (from_right c l k v w) t)

  -- A subtree with the same entries in the same place.
  rebuild_same :
      (t s : Tree V) (above : List (Frame V))
      → entries t ≡ entries s
      → entries (rebuild t above) ≡ entries (rebuild s above)
  rebuild_same t s above e =
      entries-rebuild t above
      ∙ ap (λ m. before above ++ (m ++ after above)) e
      ∙ sym (entries-rebuild s above)

  -- Recolouring and rotation keep the entries and their order.
  pub rb_insert_color-HasEntries :
      (t : Tree V) (above : List (Frame V))
      → HasEntries (entries (rebuild t above)) (rb_insert_color t above)
  unfolding rb_insert_color
  rb_insert_color-HasEntries t [] = entries-set_color black t
  rb_insert_color-HasEntries t (f ∷ []) = elim (color_cases (frame_color f)) [
    | inl c ↦ rw (c, rb_insert_color) tt
    | inr c ↦ rw (c, rb_insert_color) (entries-set_color black (plug f t))
  ]
  rb_insert_color-HasEntries t (f ∷ (g ∷ above)) = elim (color_cases (frame_color f)) [
    | inl c ↦ elim (color_cases (color (sibling g))) [
      | inl u ↦
          rw (c, u, rb_insert_color)
            (rw (← rebuild_same (recolor g f t) (plug g (plug f t)) above (entries-recolor f g t))
              (rb_insert_color-HasEntries (recolor g f t) above))
      | inr u ↦
          rw (c, u, rb_insert_color)
            (entries-set_color black (rebuild (rotate_up g f t) above)
              ∙ rebuild_same (rotate_up g f t) (plug g (plug f t)) above (entries-rotate_up f g t))
    ]
    | inr c ↦ rw (c, rb_insert_color) (entries-set_color black (rebuild t (f ∷ (g ∷ above))))
  ]
