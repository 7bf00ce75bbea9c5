-- ===== src/BufferPool/Blocks.antt =====
-- A fresh block of hds_udp/buffer/HDS_Buffer_Pool.cpp: the loop that links its objects.
use native.Mathlib.Nat.{mul-le-mul}
use test_resend.Prelude.{
  ℕ, zero, suc, ◌+◌, ◌*◌, ◌<◌, ◌≤◌, ◌≡◌, refl, ap, ◌∙◌, ◌⊎◌, inl, inr, arith, List, [], ◌∷◌, ◌++◌,
}
use test_resend.BufferPool.{store, link}
use test_resend.BufferPool.FreeList.{Chain, Absent, Distinct, store_self, store-other, store-Chain}

-- The objects of a block from the `i`-th on, one more than `rounds`.
unfoldable pub objects : ℕ → ℕ → ℕ → ℕ → List ℕ
objects node size i zero = (node + i * size) ∷ []
objects node size i (suc rounds) = (node + i * size) ∷ objects node size (i + 1) rounds

-- No object of the list starts inside a stretch of memory.
abbrev pub Outside : ℕ → ℕ → List ℕ → Type 0
Outside lo hi [] = Unit {0}
Outside lo hi (x ∷ xs) = ((x < lo) ⊎ (hi ≤ x)) × Outside lo hi xs

pub Outside-Absent : (lo hi p : ℕ) (xs : List ℕ) → lo ≤ p → p < hi → Outside lo hi xs → Absent p xs
Outside-Absent lo hi p [] h g o = tt
Outside-Absent lo hi p (x ∷ xs) h g o =
    (λ e. absurd (omega (arith, o.0, e)), Outside-Absent lo hi p xs h g o.1)

next_place : (i size : ℕ) → (i + 1) * size ≡ i * size + size
next_place i size = grind arith

pub place_le : (i j size : ℕ) → i ≤ j → i * size ≤ j * size
place_le i j size h = mul-le-mul h (omega arith)

module _ (node size : ℕ) (given : 0 < node) (sized : 0 < size) where
  -- The loop does not write below its first object.
  link-below :
      (i rounds x : ℕ) (memory : ℕ → ℕ)
      → x < node + i * size
      → link node size i rounds memory x ≡ memory x
  unfolding link
  link-below i zero x memory h = refl
  link-below i (suc rounds) x memory h =
      link-below (i + 1) rounds x (store (node + i * size) (node + (i + 1) * size) memory)
        (omega (arith, h, next_place i size))
      ∙ store-other (node + i * size) (node + (i + 1) * size) x memory
          (λ e. absurd (omega (arith, e, h)))

  -- The loop and the write to the last object put the objects of the block before a list.
  pub link-Chain :
      (i rounds last tail : ℕ) (memory : ℕ → ℕ) (xs : List ℕ)
      → i + rounds ≡ last
      → Outside node (node + (last + 1) * size) xs
      → Chain memory tail xs
      → Chain
          (store (node + last * size) tail (link node size i rounds memory))
          (node + i * size)
          (objects node size i rounds ++ xs)
  unfolding link objects
  link-Chain i zero last tail memory xs e o c =
      let p = node + last * size in
      let same : i ≡ last = omega (arith, e) in
      let here = ap (λ j. store p tail memory (node + j * size)) same ∙ store_self p tail memory in
      (
        refl,
        omega (arith, given),
        rw here (
            store-Chain p tail tail memory xs
              (Outside-Absent node (node + (last + 1) * size) p xs (omega arith)
                (omega (arith, next_place last size, sized)) o)
              c),
      )
  link-Chain i (suc rounds) last tail memory xs e o c =
      let p = node + i * size in
      let q = node + (i + 1) * size in
      let n = next_place i size in
      let far = place_le (i + 1) last size (omega (arith, e)) in
      let written = store p q memory in
      let head =
        store-other (node + last * size) tail p (link node size (i + 1) rounds written)
          (λ same. absurd (omega (arith, same, far, n, sized)))
        ∙ link-below (i + 1) rounds p written (omega (arith, n, sized))
        ∙ store_self p q memory in
      (
        refl,
        omega (arith, given),
        rw head (
            link-Chain (i + 1) rounds last tail written xs (omega (arith, e)) o (
              store-Chain p q tail memory xs
                (Outside-Absent node (node + (last + 1) * size) p xs (omega arith)
                  (omega (arith, far, n, next_place last size, sized)) o)
                c)),
      )

  -- The objects of a block are distinct, and other than what lies below or outside.
  pub objects-Absent :
      (i rounds x : ℕ) (xs : List ℕ)
      → x < node + i * size
      → Absent x xs
      → Absent x (objects node size i rounds ++ xs)
  unfolding objects
  objects-Absent i zero x xs h a = (λ e. absurd (omega (arith, e, h)), a)
  objects-Absent i (suc rounds) x xs h a = (
    λ e. absurd (omega (arith, e, h)),
    objects-Absent (i + 1) rounds x xs (omega (arith, h, next_place i size)) a,
  )

  pub objects-Distinct :
      (i rounds last : ℕ) (xs : List ℕ)
      → i + rounds ≡ last
      → Outside node (node + (last + 1) * size) xs
      → Distinct xs
      → Distinct (objects node size i rounds ++ xs)
  unfolding objects
  objects-Distinct i zero last xs e o d = (
    Outside-Absent node (node + (last + 1) * size) (node + i * size) xs (omega arith)
        (omega (arith, place_le i last size (omega (arith, e)), next_place last size, sized)) o,
    d,
  )
  objects-Distinct i (suc rounds) last xs e o d =
      let n = next_place i size in
      let far = place_le (i + 1) last size (omega (arith, e)) in
      (
        objects-Absent (i + 1) rounds (node + i * size) xs (omega (arith, n, sized)) (
            Outside-Absent node (node + (last + 1) * size) (node + i * size) xs (omega arith)
              (omega (arith, far, n, next_place last size, sized)) o),
        objects-Distinct (i + 1) rounds last xs (omega (arith, e)) o d,
      )

  objects-above :
      (i rounds last x : ℕ)
      → i + rounds ≡ last
      → node + (last + 1) * size ≤ x
      → Absent x (objects node size i rounds ++ [])
  unfolding objects
  objects-above i zero last x e h = (
    λ same. absurd (
        omega
          (arith, same, h, place_le i last size (omega (arith, e)), next_place last size, sized)),
    tt,
  )
  objects-above i (suc rounds) last x e h = (
    λ same. absurd (
        omega
          (arith, same, h, place_le i last size (omega (arith, e)), next_place last size, sized)),
    objects-above (i + 1) rounds last x (omega (arith, e)) h,
  )

  -- An object outside of the block is none of the block's.
  pub outside_objects :
      (i rounds last x : ℕ)
      → i + rounds ≡ last
      → (x < node) ⊎ (node + (last + 1) * size ≤ x)
      → Absent x (objects node size i rounds ++ [])
  outside_objects i rounds last x e (inl lt) = objects-Absent i rounds x [] (omega (arith, lt)) tt
  outside_objects i rounds last x e (inr ge) = objects-above i rounds last x e ge
