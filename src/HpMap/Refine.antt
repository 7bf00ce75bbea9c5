-- ===== src/HpMap/Refine.antt =====
-- Insertion into the map of hds_udp/common/HP_Map.h, beside an ordered association list.
use test_resend.Prelude.{
  ℕ, ◌+◌, ◌≡◌, refl, sym, ap, ◌∙◌, arith, Bool, true, List, [], ◌∷◌, ◌++◌, Option, none, some,
  length, length-append,
}
use test_resend.HpMap.{red, black, Tree, leaf, node, Frame, Root, weight, color, rebuild}
use test_resend.HpMap.Entries.{
  entries, before, after, entries-rebuild, IsSorted, insert_entry, insert_entry-gap,
  insert_entry-IsSorted, lookup,
}
use test_resend.HpMap.Insert.{
  Place, free, taken, descend, rb_insert_color, my_rb_insert, grown, insert_at,
}
use test_resend.HpMap.Insert.Balance.{Balanced, BlackRooted, rb_insert_color-BlackRooted, red≢black}
use test_resend.HpMap.Insert.Keeping.{HasEntries, rb_insert_color-HasEntries}
use test_resend.HpMap.Insert.Weights.{
  Weighted, ResultWeighted, rb_insert_color-ResultWeighted, weight_lem,
}
use test_resend.HpMap.Insert.Descent.{absent, Stand, Ends, descend-Ends, black_top}

module _ {ℓ} {V : Type ℓ} where
  -- A search tree whose root and leaves are black, with a black height, no red child of a red node,
  -- true weights and a true size.
  pub record IsValid (root : Root V) : Type 0 where
    pub sorted : IsSorted (entries root.rb_node)
    pub balanced : Balanced root.rb_node
    pub top : color root.rb_node ≡ black
    pub weighted : Weighted root.rb_node
    pub counted : root.size ≡ weight root.rb_node

  -- A result of `my_rb_insert` that is there, and right.
  abbrev pub Inserted : Bool → List (ℕ × V) → Option (Bool × Root V) → Type ℓ
  Inserted new m none = Unit {ℓ} → ⊥
  Inserted new m (some (flag, root)) = (flag ≡ new) × (entries root.rb_node ≡ m) × IsValid root

  -- A valid tree as the place where the descent starts.
  start : (key : ℕ) (root : Root V) → IsValid root → Stand key root.rb_node []
  start key root h = record {
    sorted = h.sorted;
    below = tt;
    over = tt;
    balanced = h.balanced;
    reds = black_top root.rb_node h.top;
    fits = tt;
    weighted = h.weighted;
    counts = tt;
  }

  pub length_gap :
      (key : ℕ) (value : V) (xs ys : List (ℕ × V))
      → length (xs ++ ((key, value) ∷ ys)) ≡ length (xs ++ ys) + 1
  length_gap key value xs ys =
      omega (arith, length-append xs ((key, value) ∷ ys), length-append xs ys)

  repaired :
      (key : ℕ) (value : V) (root : Root V) (a : List (Frame V)) (o : Option (Tree V))
      → IsValid root
      → Ends key root.rb_node (free a)
      → BlackRooted o
      → HasEntries (entries (rebuild (node red leaf key value 1 leaf) a)) o
      → ResultWeighted o
      → Inserted true (insert_entry key value (entries root.rb_node)) (grown root o)
  repaired key value root a none valid ends balanced kept weighted = absurd (red≢black balanced)
  repaired key value root a (some t) valid ends balanced kept weighted =
      let m =
        kept
        ∙ entries-rebuild (node red leaf key value 1 leaf) a
        ∙ sym (insert_entry-gap key value (before a) (after a) ends.0.below ends.0.over)
        ∙ ap (insert_entry key value) ends.1 in
      (
        refl,
        m,
        record {
          sorted = rw m (insert_entry-IsSorted key value (entries root.rb_node) valid.sorted);
          balanced = balanced.0;
          top = balanced.1;
          weighted = weighted;
          counted = omega (
            arith,
            valid.counted,
            weight_lem t weighted,
            weight_lem root.rb_node valid.weighted,
            length_gap key value (before a) (after a),
            ap length (kept ∙ entries-rebuild (node red leaf key value 1 leaf) a),
            ap length ends.1,
          );
        },
      )

  placed :
      (key : ℕ) (value : V) (root : Root V) (p : Place V)
      → IsValid root
      → Ends key root.rb_node p
      → Inserted
          (absent (lookup key (entries root.rb_node)))
          (insert_entry key value (entries root.rb_node))
          (insert_at key value root p)
  placed key value root (taken t a) valid ends =
      rw (ends.2, ends.0, ends.1 value) (refl, refl, valid)
  placed key value root (free a) valid ends =
      let n = node red leaf key value 1 leaf in
      rw ends.2 (
        repaired key value root a (rb_insert_color n a) valid ends
          (rb_insert_color-BlackRooted n a refl (refl, (refl, refl), tt, tt) ends.0.fits)
          (rb_insert_color-HasEntries n a)
          (rb_insert_color-ResultWeighted n a (refl, tt, tt) ends.0.counts))

  -- On a valid tree an insertion returns, without a read through a missing parent; the result tells
  -- whether the key was absent, the entries are those with the key put into its place and an old value
  -- kept, and the tree is valid again.
  pub my_rb_insert_refines :
      (key : ℕ) (value : V) (root : Root V)
      → IsValid root
      → Inserted
          (absent (lookup key (entries root.rb_node)))
          (insert_entry key value (entries root.rb_node))
          (my_rb_insert key value root)
  unfolding my_rb_insert
  my_rb_insert_refines key value root valid =
      placed key value root (descend key root.rb_node []) valid
        (descend-Ends key root.rb_node [] (start key root valid))
