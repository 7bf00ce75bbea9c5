-- ===== src/Tests/Pool.antt =====
-- A pool of hds_udp/buffer/HDS_Buffer_Pool.cpp with two objects of 8 bytes that are free, and an array of
-- pools that is not set up.
use test_resend.Prelude.{refl, arith, ◌==◌, if◌then◌else◌, true, false, [], ◌∷◌, none, some}
use test_resend.BufferPool.{Pool, MutexPool, release_object, mutex_get_object, PoolArray, Mallocs}
use test_resend.BufferPool.Owners.{Shared, release_object-Shared}
use test_resend.BufferPool.Locked.{GivenUnlocked, mutex_get_object-GivenUnlocked}

abbrev two_free : Pool
two_free = record {
  malloc_size = 8;
  head = 16;
  buf_list = 16 ∷ [];
  buf_list_size = 128;
  memory = λ p. if p == 16 then 24 else 0;
}

two_free-Shared : Shared two_free (40 ∷ []) (16 ∷ 24 ∷ [])
two_free-Shared = record {
  chain = (refl, omega arith, (refl, omega arith, refl));
  free_once = ((λ e. absurd (omega (arith, e)), tt), (tt, tt));
  owned_once = (tt, tt);
  apart = ((λ e. absurd (omega (arith, e)), (λ e. absurd (omega (arith, e)), tt)), tt);
  sized = omega arith;
}

abbrev shared_pool : MutexPool
shared_pool = record { pool = two_free; mutex = false }

mutex_get_object-GivenUnlocked_example :
    GivenUnlocked (40 ∷ []) (mutex_get_object true none shared_pool)
mutex_get_object-GivenUnlocked_example =
    mutex_get_object-GivenUnlocked true none (40 ∷ []) (16 ∷ 24 ∷ []) shared_pool refl
      two_free-Shared tt

release_object-Shared_example : Shared (release_object 40 two_free) [] (40 ∷ 16 ∷ 24 ∷ [])
release_object-Shared_example =
    release_object-Shared 40 [] [] (16 ∷ 24 ∷ []) two_free (omega arith) two_free-Shared

abbrev no_pools : PoolArray
no_pools = λ _. none

abbrev mallocs : Mallocs
mallocs = record {
  first_list = true;
  first_block = some 4096;
  list_given = true;
  block = none;
  large = none;
  memory = λ _. 0;
}
