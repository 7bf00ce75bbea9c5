-- ===== src/HpMap/Erase/Removing.antt =====
-- `rb_erase` of hds_udp/common/HP_Map.h, and the removal of a key from an ordered association list.
use mathlib.Core.Path.{subst}
use test_resend.Prelude.{
  ℕ, suc, ◌≡◌, refl, ◌∙◌, arith, ◌==◌, if◌then◌else◌, List, [], ◌∷◌, ◌++◌, Option, none, some,
  length,
}
use test_resend.HpMap.{Color, red, black, Tree, node, Frame, rebuild}
use test_resend.HpMap.Entries.{
  entries, before, after, entries-rebuild, Below, Above, IsSorted, lookup,
}
use test_resend.HpMap.Insert.Balance.{rebuild-Balanced, set_color-Balanced, black-Meets, red≢black}
use test_resend.HpMap.Insert.Weights.{Weighted, rebuild-Weighted}
use test_resend.HpMap.Erase.{unlink, recolored, rb_erase, rb_erase_color}
use test_resend.HpMap.Erase.Colors.{color-rebuild}
use test_resend.HpMap.Erase.Loop.{Mended, rb_erase_color-Mended}
use test_resend.HpMap.Erase.Places.{Freed}
use test_resend.HpMap.Erase.Unlinking.{Sound, unlink-Leaves}

module _ {ℓ} {V : Type ℓ} where
  -- The association list without the entry of a key.
  unfoldable pub remove_entry : ℕ → List (ℕ × V) → List (ℕ × V)
  remove_entry key [] = []
  remove_entry key ((k, v) ∷ m) = if key == k then m else (k, v) ∷ remove_entry key m

  pub remove_entry-there :
      (key : ℕ) (old : V) (xs ys : List (ℕ × V))
      → Below key xs
      → remove_entry key (xs ++ ((key, old) ∷ ys)) ≡ xs ++ ys
  unfolding remove_entry
  remove_entry-there key old [] ys h = ground arith
  remove_entry-there key old ((k, v) ∷ xs) ys h =
      ground (arith, h.0, remove_entry-there key old xs ys h.1)

  pub remove_entry-absent :
      (key : ℕ) (m : List (ℕ × V)) → lookup key m ≡ none → remove_entry key m ≡ m
  unfolding remove_entry lookup
  remove_entry-absent key [] h = refl
  remove_entry-absent key ((k, v) ∷ m) h = ground (arith, remove_entry-absent key m)

  remove_entry-Above : (b key : ℕ) (m : List (ℕ × V)) → Above b m → Above b (remove_entry key m)
  unfolding remove_entry
  remove_entry-Above b key [] h = tt
  remove_entry-Above b key ((k, v) ∷ m) h = ground (arith, remove_entry-Above b key m h.1)

  pub remove_entry-IsSorted :
      (key : ℕ) (m : List (ℕ × V)) → IsSorted m → IsSorted (remove_entry key m)
  unfolding remove_entry
  remove_entry-IsSorted key [] h = tt
  remove_entry-IsSorted key ((k, v) ∷ m) h =
      ground (arith, remove_entry-Above k key m h.0, remove_entry-IsSorted key m h.1)

  -- A repaired tree that is there, with these entries.
  abbrev pub Kept : List (ℕ × V) → Option (Tree V) → Type ℓ
  Kept m none = Unit {ℓ} → ⊥
  Kept m (some t) = Sound t × (entries t ≡ m)

  Mended-Kept :
      (whole : Tree V) (m : List (ℕ × V)) (o : Option (Tree V))
      → Weighted whole
      → entries whole ≡ m
      → Mended whole o
      → Kept m o
  Mended-Kept whole m none h e p = p
  Mended-Kept whole m (some t) h e p =
      (record { balanced = p.0; top = p.1; weighted = (p.2.weighed h).0 }, p.2.listed ∙ e)

  red-Kept :
      (x : Tree V) (a : List (Frame V))
      → Freed red x a
      → Kept (before a ++ (entries x ++ after a)) (some (rebuild x a))
  red-Kept x [] h = absurd (red≢black h.top)
  red-Kept x (f ∷ a) h = (
    record {
      balanced = rebuild-Balanced x (f ∷ a) h.balanced h.fits (black-Meets x (f ∷ a) (h.lone refl));
      top = color-rebuild x (f ∷ a) ∙ h.top;
      weighted = rebuild-Weighted x (f ∷ a) h.weighted h.counts;
    },
    entries-rebuild x (f ∷ a),
  )

  black-Kept :
      (x : Tree V) (a : List (Frame V))
      → Freed black x a
      → Kept (before a ++ (entries x ++ after a)) (rb_erase_color (suc (length a)) x a)
  black-Kept x a h =
      Mended-Kept (rebuild x a) (before a ++ (entries x ++ after a))
        (rb_erase_color (suc (length a)) x a) (rebuild-Weighted x a h.weighted h.counts)
        (entries-rebuild x a)
        (rb_erase_color-Mended (suc (length a)) x a (omega arith)
          (set_color-Balanced x h.balanced).0 h.fits h.top)

  recolored-Kept :
      (c : Color) (x : Tree V) (a : List (Frame V))
      → Freed c x a
      → Kept
          (before a ++ (entries x ++ after a))
          (recolored (record { color = c; child = x; above = a }))
  recolored-Kept red x a h = red-Kept x a h
  recolored-Kept black x a h = black-Kept x a h

  pub rb_erase-Kept :
      (c : Color) (l : Tree V) (k : ℕ) (v : V) (w : ℕ) (r : Tree V) (a : List (Frame V))
      → Sound (rebuild (node c l k v w r) a)
      → Kept ((before a ++ entries l) ++ (entries r ++ after a)) (rb_erase (node c l k v w r) a)
  rb_erase-Kept c l k v w r a h =
      let u = unlink c l k v w r a in
      let p = unlink-Leaves c l k v w r a h in
      subst (λ m. Kept m (recolored u)) p.1 (recolored-Kept u.color u.child u.above p.0)
