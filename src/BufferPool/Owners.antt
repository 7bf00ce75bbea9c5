-- ===== src/BufferPool/Owners.antt =====
-- Who has the objects of a pool of hds_udp/buffer/HDS_Buffer_Pool.cpp.
use mathlib.Core.Path.{subst}
use test_resend.Prelude.{
  ℕ, ◌+◌, ◌*◌, ◌<◌, ◌≡◌, ◌≢◌, refl, sym, inl, inr, arith, ◌==◌, Bool, true, false, Bool-cases, List,
  [], ◌∷◌, ◌++◌, Option, none, some, length,
}
use test_resend.BufferPool.{Pool, store, link, last_object, grow, get_object, release_object}
use test_resend.BufferPool.FreeList.{Chain, Absent, Distinct, store_self, store-Chain}
use test_resend.BufferPool.Blocks.{
  objects, Outside, Outside-Absent, link-Chain, objects-Absent, objects-Distinct, outside_objects,
}

abbrev pub NoneIn : List ℕ → List ℕ → Type 0
NoneIn [] ys = Unit {0}
NoneIn (x ∷ xs) ys = Absent x ys × NoneIn xs ys

-- The free objects are the list in the memory; no object is free twice, handed out twice, or both.
pub record Shared (p : Pool) (owned free : List ℕ) : Type 0 where
  pub chain : Chain p.memory p.head free
  pub free_once : Distinct free
  pub owned_once : Distinct owned
  pub apart : NoneIn owned free
  pub sized : 0 < p.malloc_size

-- A block that `malloc` gives: it is not `NULL` and lies outside of every object that exists.
abbrev pub Fresh : Pool → List ℕ → List ℕ → Option ℕ → Type 0
Fresh p owned free none = Unit {0}
Fresh p owned free (some b) =
    (0 < b)
    × Outside b (b + (511 + 1) * p.malloc_size) owned
    × Outside b (b + (511 + 1) * p.malloc_size) free

-- What `get_object` may give: nothing, or an object that nobody has.
abbrev pub Given : List ℕ → Option ℕ × Pool → Type 0
Given owned (none, p) = (free : List ℕ) × Shared p owned free
Given owned (some x, p) = (free : List ℕ) × Absent x owned × Shared p (x ∷ owned) free

NoneIn-block :
    (node size last rounds : ℕ) (owned : List ℕ)
    → 0 < node
    → 0 < size
    → 1 + rounds ≡ last
    → Outside node (node + (last + 1) * size) owned
    → NoneIn owned (objects node size 1 rounds ++ [])
NoneIn-block node size last rounds [] given sized e o = tt
NoneIn-block node size last rounds (x ∷ xs) given sized e o = (
  outside_objects node size given sized 1 rounds last x e o.0,
  NoneIn-block node size last rounds xs given sized e o.1,
)

once : (size : ℕ) → 1 * size ≡ size
once size = omega arith

grow-Chain :
    (node size tail : ℕ) (memory : ℕ → ℕ)
    → 0 < node
    → 0 < size
    → tail ≡ 0
    → Chain
        (store (last_object node size) tail (link node size 1 510 memory))
        (node + size)
        (objects node size 1 510 ++ [])
grow-Chain node size tail memory given sized e =
    subst
      (λ n.
        Chain (store (last_object node size) tail (link node size 1 510 memory)) (node + n)
          (objects node size 1 510 ++ []))
      (once size) (link-Chain node size given sized 1 510 511 tail memory [] refl tt e)

grow-Given :
    (owned : List ℕ) (block : Option ℕ) (p : Pool)
    → p.head ≡ 0
    → Shared p owned []
    → Fresh p owned [] block
    → Given owned (grow block p)
unfolding grow
grow-Given owned none p e s f = ([], s)
grow-Given owned (some b) p e s f =
    let size = p.malloc_size in
    (
      objects b size 1 510 ++ [],
      Outside-Absent b (b + (511 + 1) * size) b owned (omega arith) (omega (arith, s.sized)) f.1,
      record {
        chain = grow-Chain b size p.head p.memory f.0 s.sized e;
        free_once = objects-Distinct b size f.0 s.sized 1 510 511 [] refl tt tt;
        owned_once = (
          Outside-Absent b (b + (511 + 1) * size) b owned (omega arith) (omega (arith, s.sized))
              f.1,
          s.owned_once,
        );
        apart = (
          objects-Absent b size f.0 s.sized 1 510 b [] (omega (arith, s.sized)) tt,
          NoneIn-block b size 511 510 owned f.0 s.sized refl f.1,
        );
        sized = s.sized;
      },
    )

none-Absent :
    (x : ℕ) (owned free : List ℕ) → NoneIn owned (x ∷ free) → Absent x owned × NoneIn owned free
none-Absent x [] free h = (tt, tt)
none-Absent x (y ∷ owned) free h =
    let r = none-Absent x owned free h.1 in ((λ e. h.0.0 (sym e), r.0), (h.0.1, r.1))

zero_test : (n : ℕ) → n ≡ 0 → (n == 0) ≡ true
zero_test n e = ground (arith, e)

positive_test : (n x : ℕ) → n ≡ x → 0 < x → (n == 0) ≡ false
positive_test n x e h = ground (arith, e, h)

-- `get_object` hands out an object that nobody has, and leaves it neither free nor given to another.
pub get_object-Given :
    (given : Bool) (block : Option ℕ) (owned free : List ℕ) (p : Pool)
    → Shared p owned free
    → Fresh p owned free block
    → Given owned (get_object given block p)
unfolding get_object
get_object-Given given block owned [] p s f =
    let q = record p { buf_list_size = p.buf_list_size * 2 } in
    let wider : Shared q owned [] = record {
      chain = s.chain;
      free_once = tt;
      owned_once = s.owned_once;
      apart = s.apart;
      sized = s.sized;
    } in
    rw (zero_test p.head s.chain, get_object)
      (elim (Bool-cases (length p.buf_list == p.buf_list_size)) [
        | inl e ↦ elim (Bool-cases given) [
          | inl g ↦ rw (e, g) (grow-Given owned block q s.chain wider f)
          | inr g ↦ rw (e, g) ([], s)
        ]
        | inr e ↦ rw e (grow-Given owned block p s.chain s f)
      ])
get_object-Given given block owned (x ∷ free) p s f =
    let r = none-Absent x owned free s.apart in
    rw (positive_test p.head x s.chain.0 s.chain.1, get_object, s.chain.0)
      (
        free,
        r.0,
        record {
          chain = s.chain.2;
          free_once = s.free_once.1;
          owned_once = (r.0, s.owned_once);
          apart = (s.free_once.0, r.1);
          sized = s.sized;
        },
      )

Absent-middle :
    (x buf : ℕ) (before after : List ℕ)
    → Absent x (before ++ (buf ∷ after))
    → Absent x (before ++ after) × (x ≢ buf)
Absent-middle x buf [] after h = (h.1, h.0)
Absent-middle x buf (y ∷ before) after h =
    let r = Absent-middle x buf before after h.1 in ((h.0, r.0), r.1)

Distinct-middle :
    (buf : ℕ) (before after : List ℕ)
    → Distinct (before ++ (buf ∷ after))
    → Distinct (before ++ after) × Absent buf (before ++ after)
Distinct-middle buf [] after h = (h.1, h.0)
Distinct-middle buf (y ∷ before) after h =
    let r = Distinct-middle buf before after h.1 in
    let a = Absent-middle y buf before after h.0 in ((a.0, r.0), (λ e. a.1 (sym e), r.1))

none_after :
    (buf : ℕ) (after free : List ℕ)
    → Absent buf after
    → NoneIn after free
    → NoneIn after (buf ∷ free)
none_after buf [] free a h = tt
none_after buf (y ∷ after) free a h = ((λ e. a.0 (sym e), h.0), none_after buf after free a.1 h.1)

none_middle :
    (buf : ℕ) (before after free : List ℕ)
    → Distinct (before ++ (buf ∷ after))
    → NoneIn (before ++ (buf ∷ after)) free
    → NoneIn (before ++ after) (buf ∷ free) × Absent buf free
none_middle buf [] after free d h = (none_after buf after free d.0 h.1, h.0)
none_middle buf (y ∷ before) after free d h =
    let r = none_middle buf before after free d.1 h.1 in
    ((((Absent-middle y buf before after d.0).1, h.0), r.0), r.1)

-- A release of an object that was handed out makes it the first of the free ones.
pub release_object-Shared :
    (buf : ℕ) (before after free : List ℕ) (p : Pool)
    → 0 < buf
    → Shared p (before ++ (buf ∷ after)) free
    → Shared (release_object buf p) (before ++ after) (buf ∷ free)
unfolding release_object
release_object-Shared buf before after free p given s =
    let d = Distinct-middle buf before after s.owned_once in
    let n = none_middle buf before after free s.owned_once s.apart in
    record {
      chain = (
        refl,
        given,
        rw (store_self buf p.head p.memory)
            (store-Chain buf p.head p.head p.memory free n.1 s.chain),
      );
      free_once = (n.1, s.free_once);
      owned_once = d.0;
      apart = n.0;
      sized = s.sized;
    }
