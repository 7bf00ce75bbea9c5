-- ===== src/HpMap/Erase/Unlinking.antt =====
-- `rb_erase` of hds_udp/common/HP_Map.h up to its last test: the node that leaves the tree.
use mathlib.Core.Path.{subst}
use mathlib.Core.List.{append_assoc, append-nil}
use test_resend.Prelude.{ℕ, ◌≡◌, sym, ap, ◌∙◌, List, [], ◌∷◌, ◌++◌}
use test_resend.HpMap.{Color, black, Tree, leaf, node, Frame, from_right, color, rebuild}
use test_resend.HpMap.Entries.{entries, before, after}
use test_resend.HpMap.Insert.{lighter_above}
use test_resend.HpMap.Insert.Balance.{Balanced}
use test_resend.HpMap.Insert.Weights.{Weighted}
use test_resend.HpMap.Insert.Descent.{before-lighter, after-lighter}
use test_resend.HpMap.Erase.{Unlinked, unlink, first, replaced}
use test_resend.HpMap.Erase.Places.{Spot-right, Spot-left, Freed, Spot-Freed}
use test_resend.HpMap.Erase.Successor.{
  first-rebuild, before-first, first-entry, after-rekey, Spot-rekey,
}

module _ {ℓ} {V : Type ℓ} where
  -- A tree that `rb_erase` may be called on.
  pub record Sound (t : Tree V) : Type 0 where
    pub balanced : Balanced t
    pub top : color t ≡ black
    pub weighted : Weighted t

  -- The place without its node, and the entries that are left.
  abbrev pub Leaves : List (ℕ × V) → Unlinked V → Type ℓ
  Leaves m u =
      Freed u.color u.child u.above × (before u.above ++ (entries u.child ++ after u.above) ≡ m)

  listed-lighter :
      (m : List (ℕ × V)) (a : List (Frame V))
      → before (lighter_above a) ++ (m ++ after (lighter_above a)) ≡ before a ++ (m ++ after a)
  listed-lighter m a =
      ap (λ p. p ++ (m ++ after (lighter_above a))) (before-lighter a)
      ∙ ap (λ q. before a ++ (m ++ q)) (after-lighter a)

  -- The successor of a node with two children.
  module _ (c : Color) (l : Tree V) (k : ℕ) (v : V) (w : ℕ) (c' : Color) (l' : Tree V) (k' : ℕ)
      (v' : V) (w' : ℕ) (r' : Tree V) (a : List (Frame V)) where
    replaced-listed :
        (let s = first c' l' k' v' w' r' [] in
          let new = s.inner ++ (from_right c l s.key s.value w ∷ a) in
          before new ++ (entries s.right ++ after new))
        ≡ (before a ++ entries l) ++ (entries (node c' l' k' v' w' r') ++ after a)
    replaced-listed =
        let s = first c' l' k' v' w' r' [] in
        let old = from_right c l k v w ∷ a in
        let new = from_right c l s.key s.value w ∷ a in
        ap (λ p. p ++ (entries s.right ++ after (s.inner ++ new)))
          (before-first c' l' k' v' w' r' [] new)
        ∙ ap (λ q. before new ++ (entries s.right ++ q))
            (sym (after-rekey c l k s.key v s.value w a s.inner))
        ∙ regroup (before a) (entries l) (s.key, s.value)
            (entries s.right ++ after (s.inner ++ old))
        ∙ ap (λ q. (before a ++ entries l) ++ q) (first-entry c' l' k' v' w' r' [] old)
      where
        regroup :
            (p q : List (ℕ × V)) (e : ℕ × V) (m : List (ℕ × V))
            → (p ++ (q ++ (e ∷ []))) ++ m ≡ (p ++ q) ++ (e ∷ m)
        regroup p q e m = simp append_assoc

    replaced-Leaves :
        Sound (rebuild (node c l k v w (node c' l' k' v' w' r')) a)
        → Leaves
            ((before a ++ entries l) ++ (entries (node c' l' k' v' w' r') ++ after a))
            (replaced c l (first c' l' k' v' w' r' []) w a)
    replaced-Leaves h =
        let s = first c' l' k' v' w' r' [] in
        let g =
          subst Sound (sym (first-rebuild c' l' k' v' w' r' [] (from_right c l k v w ∷ a))) h in
        let spot =
          Spot-right s.color s.key s.value s.weight s.right (s.inner ++ (from_right c l k v w ∷ a))
            g.balanced g.top g.weighted in
        (
          Spot-Freed s.color s.right (s.inner ++ (from_right c l s.key s.value w ∷ a))
              (Spot-rekey c l k s.key v s.value w a s.color s.right s.inner spot),
          listed-lighter (entries s.right) (s.inner ++ (from_right c l s.key s.value w ∷ a))
              ∙ replaced-listed,
        )

  pub unlink-Leaves :
      (c : Color) (l : Tree V) (k : ℕ) (v : V) (w : ℕ) (r : Tree V) (a : List (Frame V))
      → Sound (rebuild (node c l k v w r) a)
      → Leaves ((before a ++ entries l) ++ (entries r ++ after a)) (unlink c l k v w r a)
  unlink-Leaves c leaf k v w r a h = (
    Spot-Freed c r a (Spot-right c k v w r a h.balanced h.top h.weighted),
    listed-lighter (entries r) a ∙ simp append-nil,
  )
  unlink-Leaves c (node c' l' k' v' w' r') k v w leaf a h =
      let l = node c' l' k' v' w' r' in
      (
        Spot-Freed c l a (Spot-left c l k v w a h.balanced h.top h.weighted),
        listed-lighter (entries l) a ∙ sym (append_assoc (before a) (entries l) (after a)),
      )
  unlink-Leaves c (node d m i x u q) k v w (node c' l' k' v' w' r') a h =
      replaced-Leaves c (node d m i x u q) k v w c' l' k' v' w' r' a h
