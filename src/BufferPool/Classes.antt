-- ===== src/BufferPool/Classes.antt =====
-- The array of size classes of hds_udp/buffer/HDS_Buffer_Pool.cpp: a new pool, and what keeps each pool of the
-- array in its class.
use mathlib.Core.Path.{subst}
use native.Mathlib.Decide.{ℕ_discrete}
use test_resend.Prelude.{
  ℕ, ◌+◌, ◌*◌, ◌<◌, ◌≤◌, ◌≡◌, ◌≢◌, refl, arith, ◌==◌, Bool, true, false, [], ◌++◌, Option, none,
  some,
}
use test_resend.BufferPool.{
  Pool, store, link, last_object, pool_of, grow, get_object, MutexPool, unlock,
  buffer_pool_ctrl_unit, pool_offset, PoolArray, put,
}
use test_resend.BufferPool.FreeList.{Chain}
use test_resend.BufferPool.Blocks.{objects, link-Chain, objects-Distinct}
use test_resend.BufferPool.Owners.{Shared}

same_test : (n : ℕ) → (n == n) ≡ true
same_test n = ground arith

other_test : (m n : ℕ) → m ≢ n → (m == n) ≡ false
other_test m n h = ground (arith, h)

first_place : (block size : ℕ) → block + 0 * size ≡ block
first_place block size = omega arith

-- A pool that is set up anew has 512 distinct objects that are free, and none that is handed out.
pub pool_of-Shared :
    (size block : ℕ) (memory : ℕ → ℕ)
    → 0 < size
    → 0 < block
    → Shared (pool_of size block memory) [] (objects block size 0 511 ++ [])
unfolding pool_of
pool_of-Shared size block memory h g = record {
  chain =
      subst
        (λ n.
          Chain (store (last_object block size) 0 (link block size 0 511 memory)) n
            (objects block size 0 511 ++ []))
        (first_place block size) (link-Chain block size g h 0 511 511 0 memory [] refl tt refl);
  free_once = objects-Distinct block size g h 0 511 511 [] refl tt tt;
  owned_once = tt;
  apart = tt;
  sized = h;
}

-- Every pool of the array has objects of its own size class, and no thread holds it.
pub record SizeClass (i : ℕ) (m : MutexPool) : Type 0 where
  pub class : m.pool.malloc_size ≡ (i + 1) * buffer_pool_ctrl_unit
  pub idle : m.mutex ≡ false

abbrev pub ClassOf : ℕ → Option MutexPool → Type 0
ClassOf i none = Unit {0}
ClassOf i (some m) = SizeClass i m

pub pool_offset_fits : (size : ℕ) → size ≤ (pool_offset size + 1) * buffer_pool_ctrl_unit
pool_offset_fits size = omega arith

grow_size : (block : Option ℕ) (p : Pool) → (grow block p).1.malloc_size ≡ p.malloc_size
unfolding grow
grow_size none p = refl
grow_size (some b) p = refl

pub get_object_size :
    (given : Bool) (block : Option ℕ) (p : Pool)
    → (get_object given block p).1.malloc_size ≡ p.malloc_size
unfolding get_object
get_object_size given block p =
    ground
      (arith, grow_size block p, grow_size block (record p { buf_list_size = p.buf_list_size * 2 }))

pub put-ClassOf :
    (offset : ℕ) (m : MutexPool) (pools : PoolArray)
    → SizeClass offset m
    → ((i : ℕ) → ClassOf i (pools i))
    → (i : ℕ) → ClassOf i (put offset m pools i)
unfolding put
put-ClassOf offset m pools c h i = elim (ℕ_discrete i offset) [
  | yes e ↦ rw (e, same_test offset) c
  | no n ↦ rw (other_test i offset n) (h i)
]

pub pool_of-SizeClass :
    (memory : ℕ → ℕ) (i block : ℕ)
    → SizeClass i (unlock (pool_of ((i + 1) * buffer_pool_ctrl_unit) block memory))
unfolding pool_of
pool_of-SizeClass memory i block = record { class = refl; idle = refl }

pub put_there :
    (offset : ℕ) (m : MutexPool) (pools : PoolArray) → put offset m pools offset ≡ some m
unfolding put
put_there offset m pools = rw (same_test offset)

pub put_elsewhere :
    (offset i : ℕ) (m : MutexPool) (pools : PoolArray) → i ≢ offset → put offset m pools i ≡ pools i
unfolding put
put_elsewhere offset i m pools n = rw (other_test i offset n)
