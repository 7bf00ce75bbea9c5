-- ===== src/HpMap/Insert/Descent.antt =====
-- The first loop of `my_rb_insert` of hds_udp/common/HP_Map.h: where it ends, and what it leaves for
-- the loop that repairs the colours.
use mathlib.Core.Path.{subst}
use mathlib.Core.List.{append_assoc}
use test_resend.Prelude.{
  ℕ, ◌+◌, ◌-◌, ◌<◌, ◌≡◌, refl, sym, ap, ◌∙◌, inl, inr, arith, Bool, true, false, List, [], ◌∷◌,
  ◌++◌, Option, none, some,
}
use test_resend.HpMap.{
  Color, red, black, Tree, leaf, node, Frame, from_left, from_right, weight, color, rebuild,
}
use test_resend.HpMap.Entries.{
  entries, before, after, entries-rebuild, Below, Above, Above-le, Below-lt, IsSorted, split,
  Below-append, Above-append, insert_entry, insert_entry-there, lookup, compare_cases, lookup-there,
  lookup-gap,
}
use test_resend.HpMap.Insert.{Place, free, taken, descend, frame_color, lighter, lighter_above}
use test_resend.HpMap.Insert.Balance.{
  height, Balanced, Colored, UnderBlack, Beside, Fits, red≢black,
}
use test_resend.HpMap.Insert.Weights.{Weighted, Counts}

abbrev pub absent {ℓ} : {V : Type ℓ} → Option V → Bool
absent none = true
absent (some v) = false

less_one : (w : ℕ) → w + 1 - 1 ≡ w
less_one w = omega arith

module _ {ℓ} {V : Type ℓ} where
  -- A red subtree has a black parent.
  abbrev pub RedUnder : Color → List (Frame V) → Type 0
  RedUnder black above = Unit {0}
  RedUnder red above = UnderBlack above

  pub black_top : (t : Tree V) → color t ≡ black → RedUnder (color t) []
  black_top leaf e = tt
  black_top (node black l k v w r) e = tt
  black_top (node red l k v w r) e = absurd (red≢black e)

  -- A place in a tree, with what holds of the subtree and of the frames above it; the frames count one
  -- node more than there is.
  pub record Stand (key : ℕ) (t : Tree V) (above : List (Frame V)) : Type 0 where
    pub sorted : IsSorted (entries t)
    pub below : Below key (before above)
    pub over : Above key (after above)
    pub balanced : Balanced t
    pub reds : RedUnder (color t) above
    pub fits : Fits (height t) above
    pub weighted : Weighted t
    pub counts : Counts (weight t + 1) above

  -- Where the loop ends in a tree: at a free place between the smaller and the larger keys, or at the
  -- key, and then the tree is as it was once the weights are back.
  abbrev pub Ends : ℕ → Tree V → Place V → Type ℓ
  Ends key whole (free a) =
      Stand key leaf a
      × (before a ++ after a ≡ entries whole)
      × (absent (lookup key (entries whole)) ≡ true)
  Ends key whole (taken s a) =
      (rebuild (lighter s) (lighter_above a) ≡ whole)
      × ((value : V) → insert_entry key value (entries whole) ≡ entries whole)
      × (absent (lookup key (entries whole)) ≡ false)

  pub before-lighter : (a : List (Frame V)) → before (lighter_above a) ≡ before a
  before-lighter [] = refl
  before-lighter (from_left c k v w r ∷ a) = before-lighter a
  before-lighter (from_right c l k v w ∷ a) =
      ap (◌++ (entries l ++ ((k, v) ∷ []))) (before-lighter a)

  pub after-lighter : (a : List (Frame V)) → after (lighter_above a) ≡ after a
  after-lighter [] = refl
  after-lighter (from_left c k v w r ∷ a) = ap (λ m. (k, v) ∷ (entries r ++ m)) (after-lighter a)
  after-lighter (from_right c l k v w ∷ a) = after-lighter a

  entries-lighter :
      (t : Tree V) (a : List (Frame V))
      → entries (rebuild t (lighter_above a)) ≡ before a ++ (entries t ++ after a)
  entries-lighter t a =
      entries-rebuild t (lighter_above a)
      ∙ ap (λ m. m ++ (entries t ++ after (lighter_above a))) (before-lighter a)
      ∙ ap (λ m. before a ++ (entries t ++ m)) (after-lighter a)

  pub red_children :
      (c : Color) (l r : Tree V) (above : List (Frame V))
      → Colored c l r
      → RedUnder c above
      → Beside c r above × Beside c l above
  red_children black l r above h g = (tt, tt)
  red_children red l r above h g = ((h.1, g), (h.0, g))

  pub red_child :
      (d c : Color) (f : Frame V) (above : List (Frame V))
      → frame_color f ≡ c
      → (c ≡ red → d ≡ black)
      → RedUnder d (f ∷ above)
  red_child black c f above e h = tt
  red_child red black f above e h = e
  red_child red red f above e h = absurd (red≢black (h refl))

  pub Colored-left : (c : Color) (l r : Tree V) → Colored c l r → c ≡ red → color l ≡ black
  Colored-left red l r h e = h.0
  Colored-left black l r h e = cc

  pub Colored-right : (c : Color) (l r : Tree V) → Colored c l r → c ≡ red → color r ≡ black
  Colored-right red l r h e = h.1
  Colored-right black l r h e = cc

  module _ (key : ℕ) (c : Color) (l : Tree V) (k : ℕ) (v : V) (w : ℕ) (r : Tree V)
      (above : List (Frame V)) where
    -- One step of the loop to the left, and one to the right.
    Stand-left :
        key < k
        → Stand key (node c l k v w r) above
        → Stand key l (from_left c k v (w + 1) r ∷ above)
    Stand-left lt h =
        let s = split (entries l) k v (entries r) h.sorted in
        record {
          sorted = s.left;
          below = h.below;
          over = (
            lt,
            Above-append key (entries r) (after above) (Above-le key k (entries r) lt s.above)
                h.over,
          );
          balanced = h.balanced.2;
          reds =
              red_child (color l) c (from_left c k v (w + 1) r) above refl
                (Colored-left c l r h.balanced.1);
          fits = (
            h.balanced.0,
            h.balanced.3,
            (red_children c l r above h.balanced.1 h.reds).0,
            h.fits,
          );
          weighted = h.weighted.1;
          counts = (omega (arith, h.weighted.0), h.weighted.2, h.counts);
        }

    Stand-right :
        k < key
        → Stand key (node c l k v w r) above
        → Stand key r (from_right c l k v (w + 1) ∷ above)
    Stand-right gt h =
        let s = split (entries l) k v (entries r) h.sorted in
        record {
          sorted = s.right;
          below = Below-append key (before above) (entries l ++ ((k, v) ∷ [])) h.below (
              Below-append key (entries l) ((k, v) ∷ []) (Below-lt k key (entries l) gt s.below)
                (gt, tt));
          over = h.over;
          balanced = h.balanced.3;
          reds =
              red_child (color r) c (from_right c l k v (w + 1)) above refl
                (Colored-right c l r h.balanced.1);
          fits = (
            sym h.balanced.0,
            h.balanced.2,
            (red_children c l r above h.balanced.1 h.reds).1,
            rw (← h.balanced.0) h.fits,
          );
          weighted = h.weighted.2;
          counts = (omega (arith, h.weighted.0), h.weighted.1, h.counts);
        }

  entries-here :
      (key : ℕ) (c : Color) (l : Tree V) (k : ℕ) (v : V) (w : ℕ) (r : Tree V)
      (above : List (Frame V))
      → key ≡ k
      → entries (rebuild (node c l k v w r) (lighter_above above))
        ≡ (before above ++ entries l) ++ ((key, v) ∷ (entries r ++ after above))
  entries-here key c l k v w r above same =
      entries-lighter (node c l k v w r) above ∙ rw same (simp append_assoc)

  taken-Ends :
      (key : ℕ) (c : Color) (l : Tree V) (k : ℕ) (v : V) (w : ℕ) (r : Tree V)
      (above : List (Frame V))
      → Stand key (node c l k v w r) above
      → key ≡ k
      → Ends key
          (rebuild (node c l k v w r) (lighter_above above))
          (taken (node c l k v (w + 1) r) above)
  taken-Ends key c l k v w r above h same =
      let s = split (entries l) k v (entries r) h.sorted in
      let xs = before above ++ entries l in
      let ys = entries r ++ after above in
      let below = Below-append key (before above) (entries l) h.below (rw same s.below) in
      let whole = entries-here key c l k v w r above same in
      (
        ap (λ u. rebuild (node c l k v u r) (lighter_above above)) (less_one w),
        λ value. rw whole (insert_entry-there key value v xs ys below),
        ap absent (ap (lookup key) whole ∙ lookup-there key v xs ys below),
      )

  pub descend-Ends :
      (key : ℕ) (t : Tree V) (above : List (Frame V))
      → Stand key t above
      → Ends key (rebuild t (lighter_above above)) (descend key t above)
  unfolding descend
  descend-Ends key leaf above h =
      let same = entries-lighter leaf above in
      (
        h,
        sym same,
        ap absent
            (ap (lookup key) same ∙ lookup-gap key (before above) (after above) h.below h.over),
      )
  descend-Ends key (node c l k v w r) above h = elim (compare_cases key k) [
    | inl (e, lt) ↦
        rw (e, descend)
          (subst
            (λ u.
              Ends key (rebuild (node c l k v u r) (lighter_above above))
                (descend key l (from_left c k v (w + 1) r ∷ above)))
            (less_one w)
            (descend-Ends key l (from_left c k v (w + 1) r ∷ above)
              (Stand-left key c l k v w r above lt h)))
    | inr (inl (e, same)) ↦ rw (e, descend) (taken-Ends key c l k v w r above h same)
    | inr (inr (e, gt)) ↦
        rw (e, descend)
          (subst
            (λ u.
              Ends key (rebuild (node c l k v u r) (lighter_above above))
                (descend key r (from_right c l k v (w + 1) ∷ above)))
            (less_one w)
            (descend-Ends key r (from_right c l k v (w + 1) ∷ above)
              (Stand-right key c l k v w r above gt h)))
  ]
