-- ===== src/HpMap/Erase/Refine.antt =====
-- Removal from the map of hds_udp/common/HP_Map.h, beside an ordered association list.
use mathlib.Core.Path.{subst}
use mathlib.Core.List.{append_assoc}
use test_resend.Prelude.{
  ℕ, ◌≡◌, refl, sym, ap, ◌∙◌, inl, inr, arith, List, [], ◌∷◌, ◌++◌, Option, none, some, length,
}
use test_resend.HpMap.{Color, Tree, leaf, node, Frame, from_left, from_right, Root, rebuild}
use test_resend.HpMap.Entries.{
  entries, before, after, entries-rebuild, Below, Above, IsSorted, split, lookup, lookup-there,
  lookup-gap, compare_cases, Above-le, Above-append, Below-lt, Below-append,
}
use test_resend.HpMap.Insert.{Place, free, taken}
use test_resend.HpMap.Insert.Weights.{weight_lem}
use test_resend.HpMap.Refine.{IsValid, length_gap}
use test_resend.HpMap.Erase.{rb_erase, locate, shrunk, erase_at, find_and_del}
use test_resend.HpMap.Erase.Unlinking.{Sound}
use test_resend.HpMap.Erase.Removing.{
  remove_entry, remove_entry-there, remove_entry-absent, remove_entry-IsSorted, Kept, rb_erase-Kept,
}

module _ {ℓ} {V : Type ℓ} where
  -- Where the search ends: the key is missing, or stands in the node.
  abbrev Located : ℕ → Tree V → Place V → Type ℓ
  Located key whole (free a) = lookup key (entries whole) ≡ none
  Located key whole (taken leaf a) = Unit {ℓ} → ⊥
  Located key whole (taken (node c l k v w r) a) =
      (rebuild (node c l k v w r) a ≡ whole) × Below key (before a ++ entries l) × (key ≡ k)

  locate-Located :
      (key : ℕ) (t : Tree V) (a : List (Frame V))
      → IsSorted (entries t)
      → Below key (before a)
      → Above key (after a)
      → Located key (rebuild t a) (locate key t a)
  unfolding locate
  locate-Located key leaf a h b g =
      ap (lookup key) (entries-rebuild leaf a) ∙ lookup-gap key (before a) (after a) b g
  locate-Located key (node c l k v w r) a h b g =
      let s = split (entries l) k v (entries r) h in
      elim (compare_cases key k) [
        | inl (e, lt) ↦
            rw (e, locate)
              (locate-Located key l (from_left c k v w r ∷ a) s.left b (
                lt,
                Above-append key (entries r) (after a) (Above-le key k (entries r) lt s.above) g,
              ))
        | inr (inl (e, same)) ↦
            rw (e, locate) (refl, Below-append key (before a) (entries l) b (rw same s.below), same)
        | inr (inr (e, gt)) ↦
            rw (e, locate)
              (locate-Located key r (from_right c l k v w ∷ a) s.right
                (Below-append key (before a) (entries l ++ ((k, v) ∷ [])) b (
                  Below-append key (entries l) ((k, v) ∷ []) (Below-lt k key (entries l) gt s.below)
                    (gt, tt)))
                g)
      ]

  -- A result of `find_and_del` that is there, and right: the value, and what is left.
  abbrev pub Erased : Option V → List (ℕ × V) → Option (Option V × Root V) → Type ℓ
  Erased value m none = Unit {ℓ} → ⊥
  Erased value m (some (v, root)) = (v ≡ value) × (entries root.rb_node ≡ m) × IsValid root

  shrunk-Erased :
      (root : Root V) (value : V) (xs ys : List (ℕ × V)) (k : ℕ) (o : Option (Tree V))
      → IsValid root
      → entries root.rb_node ≡ xs ++ ((k, value) ∷ ys)
      → Below k xs
      → Kept (xs ++ ys) o
      → Erased (some value) (xs ++ ys) (shrunk root (some value) o)
  shrunk-Erased root value xs ys k none valid e below p = p
  shrunk-Erased root value xs ys k (some t) valid e below p =
      let cut = ap (remove_entry k) e ∙ remove_entry-there k value xs ys below in
      (
        refl,
        p.1,
        record {
          sorted =
              subst IsSorted (cut ∙ sym p.1)
                (remove_entry-IsSorted k (entries root.rb_node) valid.sorted);
          balanced = p.0.balanced;
          top = p.0.top;
          weighted = p.0.weighted;
          counted = omega (
            arith,
            valid.counted,
            weight_lem t p.0.weighted,
            weight_lem root.rb_node valid.weighted,
            length_gap k value xs ys,
            ap length p.1,
            ap length e,
          );
        },
      )

  entries-there :
      (c : Color) (l : Tree V) (k : ℕ) (v : V) (w : ℕ) (r : Tree V) (a : List (Frame V))
      → entries (rebuild (node c l k v w r) a)
        ≡ (before a ++ entries l) ++ ((k, v) ∷ (entries r ++ after a))
  entries-there c l k v w r a = entries-rebuild (node c l k v w r) a ∙ simp append_assoc

  taken-Erased :
      (key : ℕ) (root : Root V) (c : Color) (l : Tree V) (k : ℕ) (v : V) (w : ℕ) (r : Tree V)
      (a : List (Frame V))
      → IsValid root
      → Located key root.rb_node (taken (node c l k v w r) a)
      → Erased
          (lookup key (entries root.rb_node))
          (remove_entry key (entries root.rb_node))
          (erase_at root (taken (node c l k v w r) a))
  taken-Erased key root c l k v w r a valid h =
      let xs = before a ++ entries l in
      let ys = entries r ++ after a in
      let below = subst (λ i. Below i xs) h.2 h.1 in
      let e = ap entries (sym h.0) ∙ entries-there c l k v w r a in
      let sound =
        subst Sound (sym h.0)
          (record { balanced = valid.balanced; top = valid.top; weighted = valid.weighted }) in
      rw (h.2, e, lookup-there k v xs ys below, remove_entry-there k v xs ys below)
        (shrunk-Erased root v xs ys k (rb_erase (node c l k v w r) a) valid e below
          (rb_erase-Kept c l k v w r a sound))

  placed-Erased :
      (key : ℕ) (root : Root V) (p : Place V)
      → IsValid root
      → Located key root.rb_node p
      → Erased
          (lookup key (entries root.rb_node))
          (remove_entry key (entries root.rb_node))
          (erase_at root p)
  placed-Erased key root (free a) valid h =
      (sym h, sym (remove_entry-absent key (entries root.rb_node) h), valid)
  placed-Erased key root (taken leaf a) valid h = absurd (h tt)
  placed-Erased key root (taken (node c l k v w r) a) valid h =
      taken-Erased key root c l k v w r a valid h

  -- On a valid tree `find_and_del` returns, without a read through a null pointer: the value is the
  -- one of the key, the entries are those without it, and the tree is valid again.
  pub find_and_del_refines :
      (key : ℕ) (root : Root V)
      → IsValid root
      → Erased
          (lookup key (entries root.rb_node))
          (remove_entry key (entries root.rb_node))
          (find_and_del key root)
  unfolding find_and_del
  find_and_del_refines key root valid =
      placed-Erased key root (locate key root.rb_node []) valid
        (locate-Located key root.rb_node [] valid.sorted tt tt)
