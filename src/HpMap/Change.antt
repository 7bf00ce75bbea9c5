-- ===== src/HpMap/Change.antt =====
-- change and clear of hds_udp/common/HP_Map.h.
use Prim.Native.Nat.{compare, Ordering}
use mathlib.Core.Path.{subst}
use test_resend.Prelude.{
  ℕ, ◌<◌, ◌≡◌, refl, sym, ap, ◌∙◌, inl, inr, Bool-cases, arith, ◌==◌, if◌then◌else◌, Bool, true,
  false, List, [], ◌∷◌, ◌++◌, Option, none, some,
}
use test_resend.HpMap.{Color, red, black, Tree, leaf, node, Root, weight, color, find_node}
use test_resend.HpMap.Entries.{
  entries, IsSorted, Above, Below, Above-le, lookup, split, compare_cases, find_node_lem,
}
use test_resend.HpMap.Insert.Balance.{raise, height, Colored, Balanced}
use test_resend.HpMap.Insert.Weights.{Weighted}
use test_resend.HpMap.Refine.{IsValid}

module _ {ℓ} {V : Type ℓ} where
  -- The store of a value in the node that `my_rb_find` returns.
  unfoldable store_value : ℕ → V → Tree V → Tree V
  store_value key value leaf = leaf
  store_value key value (node c l k v w r) = elim (compare key k) [
    | Ordering.lt ↦ node c (store_value key value l) k v w r
    | Ordering.eq ↦ node c l k value w r
    | Ordering.gt ↦ node c l k v w (store_value key value r)
  ]

  abbrev is_found : Option V → Bool
  is_found none = false
  is_found (some v) = true

  -- `change`: whether it returns 0, and the root.
  unfoldable change : ℕ → V → Root V → Bool × Root V
  change key value root = (
    is_found (find_node key root.rb_node),
    record root { rb_node = store_value key value root.rb_node },
  )

  -- `clear`
  unfoldable clear_root : Root V → Root V
  clear_root root = record { rb_node = leaf; size = 0 }

  -- The list with another value for a key that is there.
  unfoldable change_entry : ℕ → V → List (ℕ × V) → List (ℕ × V)
  change_entry key value [] = []
  change_entry key value ((k, v) ∷ m) =
      if key == k then (k, value) ∷ m else (k, v) ∷ change_entry key value m

  change_entry-here :
      (key : ℕ) (value v : V) (xs ys : List (ℕ × V))
      → Below key xs
      → change_entry key value (xs ++ ((key, v) ∷ ys)) ≡ xs ++ ((key, value) ∷ ys)
  unfolding change_entry
  change_entry-here key value v [] ys h = let same : (key == key) ≡ true = ground arith in rw same
  change_entry-here key value v ((k, u) ∷ xs) ys h =
      let other : (key == k) ≡ false = ground (arith, h.0) in
      rw other (ap (λ m. (k, u) ∷ m) (change_entry-here key value v xs ys h.1))

  change_entry_absent :
      (key : ℕ) (value : V) (m : List (ℕ × V)) → Above key m → change_entry key value m ≡ m
  unfolding change_entry
  change_entry_absent key value [] h = refl
  change_entry_absent key value ((k, v) ∷ m) h =
      let other : (key == k) ≡ false = ground (arith, h.0) in
      rw other (ap (λ t. (k, v) ∷ t) (change_entry_absent key value m h.1))

  change_entry-left :
      (key k : ℕ) (value v : V) (xs ys : List (ℕ × V))
      → key < k
      → Above k ys
      → change_entry key value (xs ++ ((k, v) ∷ ys)) ≡ change_entry key value xs ++ ((k, v) ∷ ys)
  unfolding change_entry
  change_entry-left key k value v [] ys h a =
      let other : (key == k) ≡ false = ground arith in
      rw other (ap (λ t. (k, v) ∷ t) (change_entry_absent key value ys (Above-le key k ys h a)))
  change_entry-left key k value v ((j, u) ∷ xs) ys h a = elim (Bool-cases (key == j)) [
    | inl e ↦ rw e
    | inr e ↦ rw e (ap (λ t. (j, u) ∷ t) (change_entry-left key k value v xs ys h a))
  ]

  change_entry-right :
      (key k : ℕ) (value v : V) (xs ys : List (ℕ × V))
      → k < key
      → Below k xs
      → change_entry key value (xs ++ ((k, v) ∷ ys)) ≡ xs ++ ((k, v) ∷ change_entry key value ys)
  unfolding change_entry
  change_entry-right key k value v [] ys h b =
      let other : (key == k) ≡ false = ground arith in rw other
  change_entry-right key k value v ((j, u) ∷ xs) ys h b =
      let other : (key == j) ≡ false = ground (arith, b.0) in
      rw other (ap (λ t. (j, u) ∷ t) (change_entry-right key k value v xs ys h b.1))

  -- What the store keeps: the shape, the colours, the weights, the keys.
  record Kept (t t' : Tree V) : Type 0 where
    pub height_kept : height t' ≡ height t
    pub color_kept : color t' ≡ color t
    pub weight_kept : weight t' ≡ weight t
    pub balanced : Balanced t → Balanced t'
    pub weighted : Weighted t → Weighted t'

  Colored-kept :
      (c : Color) (l l' r r' : Tree V)
      → color l' ≡ color l
      → color r' ≡ color r
      → Colored c l r
      → Colored c l' r'
  Colored-kept black l l' r r' p q h = tt
  Colored-kept red l l' r r' p q h = (p ∙ h.0, q ∙ h.1)

  store_value-Kept : (key : ℕ) (value : V) (t : Tree V) → Kept t (store_value key value t)
  unfolding store_value
  store_value-Kept key value leaf = record {
    height_kept = refl;
    color_kept = refl;
    weight_kept = refl;
    balanced = λ h. h;
    weighted = λ h. h;
  }
  store_value-Kept key value (node c l k v w r) = elim (compare_cases key k) [
    | inl (e, lt) ↦
        let p = store_value-Kept key value l in
        rw (e, store_value)
          (record {
            height_kept = ap (raise c) p.height_kept;
            color_kept = refl;
            weight_kept = refl;
            balanced = λ h. (
              p.height_kept ∙ h.0,
              Colored-kept c l _ r r p.color_kept refl h.1,
              p.balanced h.2,
              h.3,
            );
            weighted = λ h. (omega (arith, h.0, p.weight_kept), p.weighted h.1, h.2);
          })
    | inr (inl (e, same)) ↦
        rw (e, store_value)
          (record {
            height_kept = refl;
            color_kept = refl;
            weight_kept = refl;
            balanced = λ h. h;
            weighted = λ h. h;
          })
    | inr (inr (e, gt)) ↦
        let p = store_value-Kept key value r in
        rw (e, store_value)
          (record {
            height_kept = refl;
            color_kept = refl;
            weight_kept = refl;
            balanced = λ h. (
              h.0 ∙ sym p.height_kept,
              Colored-kept c l l r _ refl p.color_kept h.1,
              h.2,
              p.balanced h.3,
            );
            weighted = λ h. (omega (arith, h.0, p.weight_kept), h.1, p.weighted h.2);
          })
  ]

  entries-store_value :
      (key : ℕ) (value : V) (t : Tree V)
      → IsSorted (entries t)
      → entries (store_value key value t) ≡ change_entry key value (entries t)
  unfolding store_value change_entry
  entries-store_value key value leaf h = refl
  entries-store_value key value (node c l k v w r) h =
      let s = split (entries l) k v (entries r) h in
      elim (compare_cases key k) [
        | inl (e, lt) ↦
            rw (e, store_value)
              (ap (λ m. m ++ ((k, v) ∷ entries r)) (entries-store_value key value l s.left)
                ∙ sym (change_entry-left key k value v (entries l) (entries r) lt s.above))
        | inr (inl (e, same)) ↦
            rw (e, store_value)
              (sym (
                subst
                  (λ i.
                    change_entry key value (entries l ++ ((i, v) ∷ entries r))
                    ≡ entries l ++ ((i, value) ∷ entries r))
                  same
                  (change_entry-here key value v (entries l) (entries r)
                    (subst (λ i. Below i (entries l)) (sym same) s.below))))
        | inr (inr (e, gt)) ↦
            rw (e, store_value)
              (ap (λ m. entries l ++ ((k, v) ∷ m)) (entries-store_value key value r s.right)
                ∙ sym (change_entry-right key k value v (entries l) (entries r) gt s.below))
      ]

  Above-change_entry :
      (key : ℕ) (value : V) (b : ℕ) (m : List (ℕ × V))
      → Above b m
      → Above b (change_entry key value m)
  unfolding change_entry
  Above-change_entry key value b [] h = h
  Above-change_entry key value b ((k, v) ∷ m) h = elim (Bool-cases (key == k)) [
    | inl e ↦ rw e h
    | inr e ↦ rw e (h.0, Above-change_entry key value b m h.1)
  ]

  change_entry-IsSorted :
      (key : ℕ) (value : V) (m : List (ℕ × V)) → IsSorted m → IsSorted (change_entry key value m)
  unfolding change_entry
  change_entry-IsSorted key value [] h = h
  change_entry-IsSorted key value ((k, v) ∷ m) h = elim (Bool-cases (key == k)) [
    | inl e ↦ rw e h
    | inr e ↦ rw e (Above-change_entry key value k m h.0, change_entry-IsSorted key value m h.1)
  ]

  -- On a valid tree `change` tells whether the key is there and puts the value in the place of the old
  -- one, in the list of the entries too, and `clear` leaves no entry; the tree is valid again.
  change_refines :
      (key : ℕ) (value : V) (root : Root V)
      → IsValid root
      → ((change key value root).0 ≡ is_found (lookup key (entries root.rb_node)))
        × (entries (change key value root).1.rb_node
            ≡ change_entry key value (entries root.rb_node))
        × IsValid (change key value root).1
        × (entries (clear_root root).rb_node ≡ [])
        × IsValid (clear_root root)
  unfolding change clear_root
  change_refines key value root valid =
      let p = store_value-Kept key value root.rb_node in
      let m = entries-store_value key value root.rb_node valid.sorted in
      (
        ap is_found (find_node_lem key root.rb_node valid.sorted),
        m,
        record {
          sorted = rw m (change_entry-IsSorted key value (entries root.rb_node) valid.sorted);
          balanced = p.balanced valid.balanced;
          top = p.color_kept ∙ valid.top;
          weighted = p.weighted valid.weighted;
          counted = valid.counted ∙ sym p.weight_kept;
        },
        refl,
        record { sorted = tt; balanced = tt; top = refl; weighted = tt; counted = refl },
      )
