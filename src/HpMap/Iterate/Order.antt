-- ===== src/HpMap/Iterate/Order.antt =====
-- What a loop over an iterator of hds_udp/common/HP_Map.h visits.
use mathlib.Core.List.{append_assoc, append-nil, reverse, reverse-append, reverse-cons}
use test_resend.Prelude.{
  ℕ, ◌≡◌, refl, sym, ap, ◌∙◌, List, [], ◌∷◌, ◌++◌, length, Option, none, some,
}
use test_resend.HpMap.{Color, Tree, leaf, node, Frame, from_left, from_right}
use test_resend.HpMap.Entries.{entries, before, after}
use test_resend.HpMap.Iterate.{
  Cursor, go_left, go_right, rb_first, rb_last, up_from_right, up_from_left, rb_next, rb_prev, walk,
}

nil_cons {ℓ} : {A : Type ℓ} → (x : A) (xs : List A) → [] ≡ x ∷ xs → ⊥
nil_cons x xs e = cc

head_eq {ℓ} : {A : Type ℓ} → {x y : A} {xs ys : List A} → x ∷ xs ≡ y ∷ ys → x ≡ y
head_eq e = cc

tail_eq {ℓ} : {A : Type ℓ} → {x y : A} {xs ys : List A} → x ∷ xs ≡ y ∷ ys → xs ≡ ys
tail_eq e = cc

-- The reverse of a list around an entry.
reverse-mid {ℓ} :
    {A : Type ℓ}
    → (xs : List A) (x : A) (ys : List A)
    → reverse (xs ++ (x ∷ ys)) ≡ reverse ys ++ (x ∷ reverse xs)
reverse-mid xs x ys =
    reverse-append xs (x ∷ ys)
    ∙ ap (λ l. l ++ reverse xs) (reverse-cons x ys)
    ∙ append_assoc (reverse ys) (x ∷ []) (reverse xs)

module _ {ℓ} {V : Type ℓ} where
  -- The entries from a place on; and the whole tree that it is in.
  abbrev pub onward : Option (Cursor V) → List (ℕ × V)
  onward none = []
  onward (some n) = (n.key, n.value) ∷ (entries n.right ++ after n.above)

  onward-go_left :
      (c : Color) (l : Tree V) (k : ℕ) (v : V) (w : ℕ) (r : Tree V) (above : List (Frame V))
      → onward (some (go_left c l k v w r above)) ≡ entries (node c l k v w r) ++ after above
  unfolding go_left
  onward-go_left c leaf k v w r above = refl
  onward-go_left c (node c' l' k' v' w' r') k v w r above =
      onward-go_left c' l' k' v' w' r' (from_left c k v w r ∷ above)
      ∙ sym (append_assoc (entries (node c' l' k' v' w' r')) ((k, v) ∷ entries r) (after above))

  onward-up : (t : Tree V) (above : List (Frame V)) → onward (up_from_right t above) ≡ after above
  unfolding up_from_right
  onward-up t [] = refl
  onward-up t (from_right c l k v w ∷ above) = onward-up (node c l k v w t) above
  onward-up t (from_left c k v w r ∷ above) = refl

  -- A step goes on to the entries behind.
  onward-next : (n : Cursor V) → onward (rb_next n) ≡ entries n.right ++ after n.above
  unfolding rb_next
  onward-next n = by_right n.color n.left n.key n.value n.weight n.right n.above
    where
      by_right :
          (c : Color) (l : Tree V) (k : ℕ) (v : V) (w : ℕ) (r : Tree V) (above : List (Frame V))
          → onward (
              rb_next (record {
                color = c;
                left = l;
                key = k;
                value = v;
                weight = w;
                right = r;
                above = above;
              }))
            ≡ entries r ++ after above
      by_right c l k v w leaf above = onward-up (node c l k v w leaf) above
      by_right c l k v w (node c' l' k' v' w' r') above =
          onward-go_left c' l' k' v' w' r' (from_right c l k v w ∷ above)

  -- A loop visits what lies ahead, when every step leaves what lies ahead but its first.
  walk-ahead :
      (step : Cursor V → Option (Cursor V)) (ahead : Cursor V → List (ℕ × V))
      (all : Option (Cursor V) → List (ℕ × V))
      → (all none ≡ [])
      → ((n : Cursor V) → all (some n) ≡ (n.key, n.value) ∷ ahead n)
      → ((n : Cursor V) → all (step n) ≡ ahead n)
      → (m : List (ℕ × V)) (place : Option (Cursor V)) → all place ≡ m
      → walk step (length m) place ≡ m
  unfolding walk
  walk-ahead step ahead all z o s [] place e = refl
  walk-ahead step ahead all z o s (x ∷ m) none e = absurd (nil_cons x m (sym z ∙ e))
  walk-ahead step ahead all z o s (x ∷ m) (some n) e =
      let same = sym (o n) ∙ e in
      ap (λ l. (n.key, n.value) ∷ l)
        (walk-ahead step ahead all z o s m (step n) (s n ∙ tail_eq same))
      ∙ ap (λ y. y ∷ m) (head_eq same)

  onward-first : (t : Tree V) → onward (rb_first t) ≡ entries t
  onward-first leaf = refl
  onward-first (node c l k v w r) =
      onward-go_left c l k v w r [] ∙ append-nil (entries (node c l k v w r))

  next_lem : (t : Tree V) → walk rb_next (length (entries t)) (rb_first t) ≡ entries t
  next_lem t =
      walk-ahead rb_next (λ n. entries n.right ++ after n.above) onward refl (λ n. refl) onward-next
        (entries t) (rb_first t) (onward-first t)

  -- The entries from a place back to the first.
  abbrev pub back : Option (Cursor V) → List (ℕ × V)
  back none = []
  back (some n) = (n.key, n.value) ∷ (reverse (entries n.left) ++ reverse (before n.above))

  reverse-before :
      (c : Color) (l : Tree V) (k : ℕ) (v : V) (w : ℕ) (above : List (Frame V))
      → reverse (before (from_right c l k v w ∷ above))
        ≡ (k, v) ∷ (reverse (entries l) ++ reverse (before above))
  reverse-before c l k v w above =
      reverse-append (before above) (entries l ++ ((k, v) ∷ []))
      ∙ ap (λ m. m ++ reverse (before above)) (reverse-mid (entries l) (k, v) [])

  back-go_right :
      (c : Color) (l : Tree V) (k : ℕ) (v : V) (w : ℕ) (r : Tree V) (above : List (Frame V))
      → back (some (go_right c l k v w r above))
        ≡ reverse (entries (node c l k v w r)) ++ reverse (before above)
  unfolding go_right
  back-go_right c l k v w leaf above =
      sym (ap (λ m. m ++ reverse (before above)) (reverse-mid (entries l) (k, v) []))
  back-go_right c l k v w (node c' l' k' v' w' r') above =
      let r = node c' l' k' v' w' r' in
      back-go_right c' l' k' v' w' r' (from_right c l k v w ∷ above)
      ∙ ap (λ m. reverse (entries r) ++ m) (reverse-before c l k v w above)
      ∙ sym (
          append_assoc (reverse (entries r)) ((k, v) ∷ reverse (entries l))
            (reverse (before above)))
      ∙ sym (ap (λ m. m ++ reverse (before above)) (reverse-mid (entries l) (k, v) (entries r)))

  back-up :
      (t : Tree V) (above : List (Frame V)) → back (up_from_left t above) ≡ reverse (before above)
  unfolding up_from_left
  back-up t [] = refl
  back-up t (from_left c k v w r ∷ above) = back-up (node c t k v w r) above
  back-up t (from_right c l k v w ∷ above) = sym (reverse-before c l k v w above)

  back-prev :
      (n : Cursor V) → back (rb_prev n) ≡ reverse (entries n.left) ++ reverse (before n.above)
  unfolding rb_prev
  back-prev n = by_left n.color n.left n.key n.value n.weight n.right n.above
    where
      by_left :
          (c : Color) (l : Tree V) (k : ℕ) (v : V) (w : ℕ) (r : Tree V) (above : List (Frame V))
          → back (
              rb_prev (record {
                color = c;
                left = l;
                key = k;
                value = v;
                weight = w;
                right = r;
                above = above;
              }))
            ≡ reverse (entries l) ++ reverse (before above)
      by_left c leaf k v w r above = back-up (node c leaf k v w r) above
      by_left c (node c' l' k' v' w' r') k v w r above =
          back-go_right c' l' k' v' w' r' (from_left c k v w r ∷ above)

  back-last : (t : Tree V) → back (rb_last t) ≡ reverse (entries t)
  back-last leaf = refl
  back-last (node c l k v w r) =
      back-go_right c l k v w r [] ∙ append-nil (reverse (entries (node c l k v w r)))

  prev_lem :
      (t : Tree V) → walk rb_prev (length (reverse (entries t))) (rb_last t) ≡ reverse (entries t)
  prev_lem t =
      walk-ahead rb_prev (λ n. reverse (entries n.left) ++ reverse (before n.above)) back refl
        (λ n. refl) back-prev (reverse (entries t)) (rb_last t) (back-last t)

  -- From the first node on, as many steps as there are entries visit each of them once, in the order of the
  -- keys; from the last node back they visit each of them once, in the reverse order.
  pub walk_lem :
      (t : Tree V)
      → (walk rb_next (length (entries t)) (rb_first t) ≡ entries t)
        × (walk rb_prev (length (reverse (entries t))) (rb_last t) ≡ reverse (entries t))
  walk_lem t = (next_lem t, prev_lem t)
