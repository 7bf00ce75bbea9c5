-- ===== src/BufferPool/FreeList.antt =====
-- The free list of hds_udp/buffer/HDS_Buffer_Pool.cpp as a list of objects.
use test_resend.Prelude.{ℕ, ◌<◌, ◌≡◌, ◌≢◌, arith, List, [], ◌∷◌}
use test_resend.BufferPool.{store}

-- From a first object the words lead through the list to `NULL`.
abbrev pub Chain : (ℕ → ℕ) → ℕ → List ℕ → Type 0
Chain memory p [] = p ≡ 0
Chain memory p (x ∷ xs) = (p ≡ x) × (0 < x) × Chain memory (memory x) xs

abbrev pub Absent : ℕ → List ℕ → Type 0
Absent p [] = Unit {0}
Absent p (x ∷ xs) = (p ≢ x) × Absent p xs

abbrev pub Distinct : List ℕ → Type 0
Distinct [] = Unit {0}
Distinct (x ∷ xs) = Absent x xs × Distinct xs

pub store_self : (p v : ℕ) (memory : ℕ → ℕ) → store p v memory p ≡ v
unfolding store
store_self p v memory = ground arith

pub store-other : (p v x : ℕ) (memory : ℕ → ℕ) → p ≢ x → store p v memory x ≡ memory x
unfolding store
store-other p v x memory h = ground (arith, h)

-- A write to an object that is not in the list leaves the list.
pub store-Chain :
    (p v h : ℕ) (memory : ℕ → ℕ) (xs : List ℕ)
    → Absent p xs
    → Chain memory h xs
    → Chain (store p v memory) h xs
store-Chain p v h memory [] a c = c
store-Chain p v h memory (x ∷ xs) a c =
    (c.0, c.1, rw (store-other p v x memory a.0) (store-Chain p v (memory x) memory xs a.1 c.2))
