-- ===== src/HpMap/Search.antt =====
-- Reads of the map of hds_udp/common/HP_Map.h: `select` by position, and how far a read can go down.
use native.Mathlib.Nat.{pow-succ', pow-le-pow_right, mul-le-mul}
use test_resend.Prelude.{
  ℕ, zero, suc, ◌+◌, ◌-◌, ◌*◌, ◌^◌, ◌<◌, ◌≤◌, max, ◌≡◌, refl, sym, ap, ◌∙◌, ◌⊎◌, inl, inr, arith,
  ltb, ◌==◌, if◌then◌else◌, true, false, List, [], ◌∷◌, ◌++◌, Option, none, some, length,
}
use test_resend.HpMap.{
  Color, red, black, Tree, leaf, node, Root, weight, color, find_node, select_node, select,
}
use test_resend.HpMap.Entries.{entries, lookup, find_node_lem, compare_cases}
use test_resend.HpMap.Insert.Balance.{height, Balanced}
use test_resend.HpMap.Insert.Weights.{Weighted, weight_lem}
use test_resend.HpMap.Refine.{IsValid}

select_cases :
    (order size : ℕ)
    → ((order == 0) ≡ true)
      ⊎ ((order == 0) ≡ false) × (ltb size order ≡ true) × (size < order)
      ⊎ ((order == 0) ≡ false) × (ltb size order ≡ false) × (0 < order)
select_cases order size = ground arith

two_more : (n : ℕ) → 2 ^ (n + 1) ≡ 2 ^ n + 2 ^ n
two_more n = ap (λ i. 2 ^ i) succ ∙ pow-succ' 2 n ∙ omega arith
  where
    succ : n + 1 ≡ suc n
    succ = omega arith

abbrev slack : Color → ℕ
slack black = 0
slack red = 1

slack_le : (c : Color) → slack c ≤ 1
slack_le black = omega arith
slack_le red = omega arith

two_pos : 0 < 2
two_pos = omega arith

double : (n : ℕ) → 2 ^ (2 * n) ≡ 2 ^ n * 2 ^ n
double zero = refl
double (suc n) =
    ap (λ i. 2 ^ i) twice
    ∙ pow-succ' 2 (suc (2 * n))
    ∙ ap (λ i. 2 * i) (pow-succ' 2 (2 * n))
    ∙ ap (λ x. 2 * (2 * x)) (double n)
    ∙ both (2 ^ n)
    ∙ ap (λ x. x * x) (sym (pow-succ' 2 n))
  where
    twice : 2 * suc n ≡ suc (suc (2 * n))
    twice = omega arith

    both : (x : ℕ) → 2 * (2 * (x * x)) ≡ (2 * x) * (2 * x)
    both x = grind arith

module _ {ℓ} {V : Type ℓ} where
  -- The entry at a position that is counted from 1.
  unfoldable pub entry_at : ℕ → List (ℕ × V) → Option (ℕ × V)
  entry_at order [] = none
  entry_at order (e ∷ m) = if order == 1 then some e else entry_at (order - 1) m

  entry_at-left :
      (order : ℕ) (xs ys : List (ℕ × V))
      → 0 < order
      → order ≤ length xs
      → entry_at order (xs ++ ys) ≡ entry_at order xs
  unfolding entry_at
  entry_at-left order [] ys p h = absurd (omega arith)
  entry_at-left order (x ∷ xs) ys p h = ground (arith, entry_at-left (order - 1) xs ys)

  entry_at-right :
      (order : ℕ) (xs ys : List (ℕ × V))
      → length xs < order
      → entry_at order (xs ++ ys) ≡ entry_at (order - length xs) ys
  unfolding entry_at
  entry_at-right order [] ys h = ap (λ n. entry_at n ys) (omega arith)
  entry_at-right order (x ∷ xs) ys h = ground (arith, entry_at-right (order - 1) xs ys)

  entry_at-here :
      (order : ℕ) (e : ℕ × V) (ys : List (ℕ × V)) → order ≡ 1 → entry_at order (e ∷ ys) ≡ some e
  unfolding entry_at
  entry_at-here order e ys h = ground arith

  entry_at-later :
      (order : ℕ) (e : ℕ × V) (ys : List (ℕ × V))
      → 1 < order
      → entry_at order (e ∷ ys) ≡ entry_at (order - 1) ys
  unfolding entry_at
  entry_at-later order e ys h = ground arith

  entry_at-past : (order : ℕ) (m : List (ℕ × V)) → length m < order → entry_at order m ≡ none
  unfolding entry_at
  entry_at-past order [] h = refl
  entry_at-past order (e ∷ m) h = ground (arith, entry_at-past (order - 1) m)

  select_node_lem :
      (order : ℕ) (t : Tree V)
      → Weighted t
      → 0 < order
      → select_node order t ≡ entry_at order (entries t)
  unfolding select_node
  select_node_lem order leaf h p = sym (entry_at-past order [] p)
  select_node_lem order (node c l k v w r) h p =
      let n = weight_lem l h.1 in
      let rest = (k, v) ∷ entries r in
      elim (compare_cases (weight l + 1) order) [
        | inl (e, lt) ↦
            rw (e, select_node)
              (select_node_lem (order - (weight l + 1)) r h.2 (omega arith)
                ∙ ap (λ i. entry_at i (entries r)) (omega (arith, n))
                ∙ sym (
                    entry_at-right order (entries l) rest (omega (arith, n))
                    ∙ entry_at-later (order - length (entries l)) (k, v) (entries r)
                        (omega (arith, n))))
        | inr (inl (e, same)) ↦
            rw (e, select_node)
              (sym (
                entry_at-right order (entries l) rest (omega (arith, n))
                ∙ entry_at-here (order - length (entries l)) (k, v) (entries r) (omega (arith, n))))
        | inr (inr (e, gt)) ↦
            rw (e, select_node)
              (select_node_lem order l h.1 p
                ∙ sym (entry_at-left order (entries l) rest p (omega (arith, n))))
      ]

  -- On a valid tree `select` gives the entry at the position in the order of the keys, and nothing at 0
  -- and past the size; `find` gives the value that the key has among the entries.
  select_refines :
      (order key : ℕ) (root : Root V)
      → IsValid root
      → (select order root ≡ (if order == 0 then none else entry_at order (entries root.rb_node)))
        × (find_node key root.rb_node ≡ lookup key (entries root.rb_node))
  unfolding select
  select_refines order key root valid =
      let n = weight_lem root.rb_node valid.weighted in
      (
        elim (select_cases order root.size) [
          | inl e ↦ rw (e, select) refl
          | inr (inl (e, f, past)) ↦
              rw (e, f, select)
                (sym (entry_at-past order (entries root.rb_node) (omega (arith, valid.counted, n))))
          | inr (inr (e, f, p)) ↦
              rw (e, f, select) (select_node_lem order root.rb_node valid.weighted p)
        ],
        find_node_lem key root.rb_node valid.sorted,
      )

  -- The longest way from the root to a leaf.
  abbrev pub depth : Tree V → ℕ
  depth leaf = 0
  depth (node c l k v w r) = suc (max (depth l) (depth r))

  height-weight : (t : Tree V) → Balanced t → Weighted t → 2 ^ height t ≤ weight t + 1
  height-weight leaf b h = omega arith
  height-weight (node red l k v w r) b h = omega (arith, height-weight l b.2 h.1, h.0)
  height-weight (node black l k v w r) b h =
      let e = ap (λ i. 2 ^ i) b.0 in
      let d = two_more (height l) in
      omega (arith, d, height-weight l b.2 h.1, height-weight r b.3 h.2, h.0, e)

  depth-height : (t : Tree V) → Balanced t → depth t ≤ 2 * height t + slack (color t)
  depth-height leaf b = omega arith
  depth-height (node red l k v w r) b =
      omega (arith, depth-height l b.2, depth-height r b.3, b.0, ap slack b.1.0, ap slack b.1.1)
  depth-height (node black l k v w r) b =
      omega
        (arith, depth-height l b.2, depth-height r b.3, b.0, slack_le (color l), slack_le (color r))

  -- A way down a valid tree is at most twice as long as the logarithm of the size and one.
  depth_lem :
      (root : Root V) → IsValid root → 2 ^ depth root.rb_node ≤ (root.size + 1) * (root.size + 1)
  depth_lem root valid =
      let t = root.rb_node in
      let n = height-weight t valid.balanced valid.weighted in
      let d =
        pow-le-pow_right two_pos {i = depth t} {j = 2 * height t}
          (omega (arith, depth-height t valid.balanced, ap slack valid.top)) in
      rw valid.counted (omega (arith, d, double (height t), mul-le-mul n n))

  -- On a valid tree `select` gives the entry at a position in the order of the keys, and nothing at 0 and
  -- past the size; `find` gives the value that the key has among the entries; and no way down is longer
  -- than twice the logarithm of the size and one.
  pub reads_refine :
      (order key : ℕ) (root : Root V)
      → IsValid root
      → (select order root ≡ (if order == 0 then none else entry_at order (entries root.rb_node)))
        × (find_node key root.rb_node ≡ lookup key (entries root.rb_node))
        × (2 ^ depth root.rb_node ≤ (root.size + 1) * (root.size + 1))
  reads_refine order key root valid =
      let s = select_refines order key root valid in (s.0, s.1, depth_lem root valid)
