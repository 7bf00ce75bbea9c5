-- ===== src/HpMap/Entries.antt =====
-- The map of hds_udp/common/HP_Map.h as the list of its entries in the order of the keys, and what a
-- find and an insertion do to that list.
use Prim.Native.Nat.{compare, Ordering}
use mathlib.Core.List.{append_assoc, append-nil}
use test_resend.Prelude.{
  ℕ, ◌<◌, ◌≡◌, refl, sym, ◌∙◌, ◌⊎◌, inl, inr, arith, ◌==◌, if◌then◌else◌, List, [], ◌∷◌, ◌++◌,
  Option, none, some,
}
use test_resend.HpMap.{
  Color, Tree, leaf, node, Frame, from_left, from_right, set_color, rebuild, rotate_left,
  rotate_right, find_node,
}

-- The three results of `cmp`, each with its order.
pub compare_cases :
    (a b : ℕ)
    → ((compare a b ≡ Ordering.lt) × (a < b))
      ⊎ ((compare a b ≡ Ordering.eq) × (a ≡ b))
      ⊎ ((compare a b ≡ Ordering.gt) × (b < a))
compare_cases a b = ground arith

module _ {ℓ} {V : Type ℓ} where
  -- From the smallest key to the largest.
  abbrev pub entries : Tree V → List (ℕ × V)
  entries leaf = []
  entries (node c l k v w r) = entries l ++ ((k, v) ∷ entries r)

  -- The entries to the left and to the right of a place.
  abbrev pub before : List (Frame V) → List (ℕ × V)
  before [] = []
  before (from_left c k v w r ∷ above) = before above
  before (from_right c l k v w ∷ above) = before above ++ (entries l ++ ((k, v) ∷ []))

  abbrev pub after : List (Frame V) → List (ℕ × V)
  after [] = []
  after (from_left c k v w r ∷ above) = (k, v) ∷ (entries r ++ after above)
  after (from_right c l k v w ∷ above) = after above

  pub entries-rebuild :
      (t : Tree V) (above : List (Frame V))
      → entries (rebuild t above) ≡ before above ++ (entries t ++ after above)
  entries-rebuild t [] = simp append-nil
  entries-rebuild t (from_left c k v w r ∷ above) =
      entries-rebuild (node c t k v w r) above ∙ simp append_assoc
  entries-rebuild t (from_right c l k v w ∷ above) =
      entries-rebuild (node c l k v w t) above ∙ simp append_assoc

  pub entries-rotate_left : (t : Tree V) → entries (rotate_left t) ≡ entries t
  entries-rotate_left leaf = refl
  entries-rotate_left (node c l k v w leaf) = refl
  entries-rotate_left (node c l k v w (node c' m k' v' w' r)) = simp append_assoc

  pub entries-rotate_right : (t : Tree V) → entries (rotate_right t) ≡ entries t
  entries-rotate_right leaf = refl
  entries-rotate_right (node c leaf k v w r) = refl
  entries-rotate_right (node c (node c' l k' v' w' m) k v w r) = simp append_assoc

  pub entries-set_color : (c : Color) (t : Tree V) → entries (set_color c t) ≡ entries t
  entries-set_color c leaf = refl
  entries-set_color c (node _ l k v w r) = refl

  -- Every key is below, or above, a bound.
  abbrev pub Below : ℕ → List (ℕ × V) → Type 0
  Below b [] = Unit {0}
  Below b ((k, v) ∷ m) = (k < b) × Below b m

  abbrev pub Above : ℕ → List (ℕ × V) → Type 0
  Above b [] = Unit {0}
  Above b ((k, v) ∷ m) = (b < k) × Above b m

  abbrev pub IsSorted : List (ℕ × V) → Type 0
  IsSorted [] = Unit {0}
  IsSorted ((k, v) ∷ m) = Above k m × IsSorted m

  -- The map as an association list.
  unfoldable pub lookup : ℕ → List (ℕ × V) → Option V
  lookup key [] = none
  lookup key ((k, v) ∷ m) = if key == k then some v else lookup key m

  -- An insertion that keeps the value of a key that is there.
  unfoldable pub insert_entry : ℕ → V → List (ℕ × V) → List (ℕ × V)
  insert_entry key value [] = (key, value) ∷ []
  insert_entry key value ((k, v) ∷ m) = elim (compare key k) [
    | Ordering.lt ↦ (key, value) ∷ ((k, v) ∷ m)
    | Ordering.eq ↦ (k, v) ∷ m
    | Ordering.gt ↦ (k, v) ∷ insert_entry key value m
  ]

  pub Below-append : (b : ℕ) (xs ys : List (ℕ × V)) → Below b xs → Below b ys → Below b (xs ++ ys)
  Below-append b [] ys h g = g
  Below-append b ((k, v) ∷ xs) ys h g = (h.0, Below-append b xs ys h.1 g)

  pub Above-le : (a b : ℕ) (xs : List (ℕ × V)) → a < b → Above b xs → Above a xs
  Above-le a b [] h g = tt
  Above-le a b ((k, v) ∷ xs) h g = (omega (arith, g.0), Above-le a b xs h g.1)

  pub Above-append : (b : ℕ) (xs ys : List (ℕ × V)) → Above b xs → Above b ys → Above b (xs ++ ys)
  Above-append b [] ys h g = g
  Above-append b ((k, v) ∷ xs) ys h g = (h.0, Above-append b xs ys h.1 g)

  Above-left : (b : ℕ) (xs ys : List (ℕ × V)) → Above b (xs ++ ys) → Above b xs
  Above-left b [] ys h = tt
  Above-left b ((k, v) ∷ xs) ys h = (h.0, Above-left b xs ys h.1)

  Above-right : (b : ℕ) (xs ys : List (ℕ × V)) → Above b (xs ++ ys) → Above b ys
  Above-right b [] ys h = h
  Above-right b ((k, v) ∷ xs) ys h = Above-right b xs ys h.1

  -- A sorted list around an entry.
  pub record Split (xs : List (ℕ × V)) (k : ℕ) (ys : List (ℕ × V)) : Type 0 where
    pub left : IsSorted xs
    pub right : IsSorted ys
    pub below : Below k xs
    pub above : Above k ys

  pub split :
      (xs : List (ℕ × V)) (k : ℕ) (v : V) (ys : List (ℕ × V))
      → IsSorted (xs ++ ((k, v) ∷ ys))
      → Split xs k ys
  split [] k v ys h = record { left = tt; right = h.1; below = tt; above = h.0 }
  split ((j, u) ∷ xs) k v ys h =
      let s = split xs k v ys h.1 in
      record {
        left = (Above-left j xs ((k, v) ∷ ys) h.0, s.left);
        right = s.right;
        below = ((Above-right j xs ((k, v) ∷ ys) h.0).0, s.below);
        above = s.above;
      }

  lookup-Below :
      (key : ℕ) (xs ys : List (ℕ × V)) → Below key xs → lookup key (xs ++ ys) ≡ lookup key ys
  unfolding lookup
  lookup-Below key [] ys h = refl
  lookup-Below key ((k, v) ∷ xs) ys h = ground (arith, lookup-Below key xs ys h.1)

  pub lookup-Above : (key : ℕ) (ys : List (ℕ × V)) → Above key ys → lookup key ys ≡ none
  unfolding lookup
  lookup-Above key [] h = refl
  lookup-Above key ((k, v) ∷ ys) h = ground (arith, lookup-Above key ys h.1)

  lookup-left :
      (key : ℕ) (xs ys : List (ℕ × V)) → Above key ys → lookup key (xs ++ ys) ≡ lookup key xs
  unfolding lookup
  lookup-left key [] ys h = lookup-Above key ys h
  lookup-left key ((k, v) ∷ xs) ys h = ground (arith, lookup-left key xs ys h)

  pub Below-lt : (a b : ℕ) (xs : List (ℕ × V)) → a < b → Below a xs → Below b xs
  Below-lt a b [] h g = tt
  Below-lt a b ((k, v) ∷ xs) h g = (omega (arith, g.0), Below-lt a b xs h g.1)

  head_found : (key k : ℕ) (v : V) (m : List (ℕ × V)) → key ≡ k → lookup key ((k, v) ∷ m) ≡ some v
  unfolding lookup
  head_found key k v m e = ground arith

  head_skipped :
      (key k : ℕ) (v : V) (m : List (ℕ × V)) → k < key → lookup key ((k, v) ∷ m) ≡ lookup key m
  unfolding lookup
  head_skipped key k v m e = ground arith

  -- On a tree whose entries are sorted, a find gives what the list gives.
  pub find_node_lem :
      (key : ℕ) (t : Tree V) → IsSorted (entries t) → find_node key t ≡ lookup key (entries t)
  unfolding find_node lookup
  find_node_lem key leaf h = refl
  find_node_lem key (node c l k v w r) h =
      let s = split (entries l) k v (entries r) h in
      elim (compare_cases key k) [
        | inl (e, lt) ↦
            rw (e, find_node)
              (find_node_lem key l s.left
                ∙ sym (
                    lookup-left key (entries l) ((k, v) ∷ entries r)
                      (lt, Above-le key k (entries r) lt s.above)))
        | inr (inl (e, same)) ↦
            rw (e, find_node)
              (sym (
                lookup-Below key (entries l) ((k, v) ∷ entries r) (rw same s.below)
                ∙ head_found key k v (entries r) same))
        | inr (inr (e, gt)) ↦
            rw (e, find_node)
              (find_node_lem key r s.right
                ∙ sym (
                    lookup-Below key (entries l) ((k, v) ∷ entries r)
                      (Below-lt k key (entries l) gt s.below)
                    ∙ head_skipped key k v (entries r) gt))
      ]

  -- Insertion between smaller and larger keys, and at a key that is there.
  pub insert_entry-gap :
      (key : ℕ) (value : V) (xs ys : List (ℕ × V))
      → Below key xs
      → Above key ys
      → insert_entry key value (xs ++ ys) ≡ xs ++ ((key, value) ∷ ys)
  unfolding insert_entry
  insert_entry-gap key value [] [] h g = refl
  insert_entry-gap key value [] ((k, v) ∷ ys) h g = ground (arith, g.0)
  insert_entry-gap key value ((k, v) ∷ xs) ys h g =
      ground (arith, h.0, insert_entry-gap key value xs ys h.1 g)

  pub insert_entry-there :
      (key : ℕ) (value old : V) (xs ys : List (ℕ × V))
      → Below key xs
      → insert_entry key value (xs ++ ((key, old) ∷ ys)) ≡ xs ++ ((key, old) ∷ ys)
  unfolding insert_entry
  insert_entry-there key value old [] ys h = ground arith
  insert_entry-there key value old ((k, v) ∷ xs) ys h =
      ground (arith, h.0, insert_entry-there key value old xs ys h.1)

  pub lookup-there :
      (key : ℕ) (old : V) (xs ys : List (ℕ × V))
      → Below key xs
      → lookup key (xs ++ ((key, old) ∷ ys)) ≡ some old
  lookup-there key old xs ys h =
      lookup-Below key xs ((key, old) ∷ ys) h ∙ head_found key key old ys refl

  pub lookup-gap :
      (key : ℕ) (xs ys : List (ℕ × V)) → Below key xs → Above key ys → lookup key (xs ++ ys) ≡ none
  lookup-gap key xs ys h g = lookup-Below key xs ys h ∙ lookup-Above key ys g

  insert_entry-Above :
      (b key : ℕ) (value : V) (m : List (ℕ × V))
      → b < key
      → Above b m
      → Above b (insert_entry key value m)
  unfolding insert_entry
  insert_entry-Above b key value [] h g = (h, tt)
  insert_entry-Above b key value ((k, v) ∷ m) h g =
      ground (arith, insert_entry-Above b key value m h g.1)

  pub insert_entry-IsSorted :
      (key : ℕ) (value : V) (m : List (ℕ × V)) → IsSorted m → IsSorted (insert_entry key value m)
  unfolding insert_entry
  insert_entry-IsSorted key value [] h = (tt, tt)
  insert_entry-IsSorted key value ((k, v) ∷ m) h = ground (
    arith,
    Above-le key k m,
    insert_entry-Above k key value m,
    insert_entry-IsSorted key value m h.1,
  )
