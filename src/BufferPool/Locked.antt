-- ===== src/BufferPool/Locked.antt =====
-- The pools that threads share, and the array of size classes, of hds_udp/buffer/HDS_Buffer_Pool.cpp.
use test_resend.Prelude.{
  ℕ, ◌<◌, ◌≤◌, ◌≡◌, ◌≢◌, refl, ◌⊎◌, Bool, true, false, List, [], Option, none, some,
}
use test_resend.BufferPool.{
  Pool, MutexPool, lock, unlock, mutex_get_object, buffer_pool_array_size, pool_offset, PoolArray,
  Mallocs,
}
use test_resend.BufferPool.Owners.{Shared, Fresh, Given, get_object-Given}
use test_resend.BufferPool.Classes.{ClassOf}

-- A call that returns, with the mutex free again.
abbrev pub GivenUnlocked : List ℕ → Option (Option ℕ × MutexPool) → Type 0
GivenUnlocked owned none = true ≡ false
GivenUnlocked owned (some (rebuf, m)) = (m.mutex ≡ false) × Given owned (rebuf, m.pool)

-- A `get_object` on a pool that no thread holds returns and frees the mutex on every path; it gives
-- nothing, or an object that is neither handed out nor free.
pub mutex_get_object-GivenUnlocked :
    (given : Bool) (block : Option ℕ) (owned free : List ℕ) (m : MutexPool)
    → m.mutex ≡ false
    → Shared m.pool owned free
    → Fresh m.pool owned free block
    → GivenUnlocked owned (mutex_get_object given block m)
unfolding mutex_get_object lock
mutex_get_object-GivenUnlocked given block owned free m h s f =
    rw (h, mutex_get_object, lock) (refl, get_object-Given given block owned free m.pool s f)

-- What a call may count on: the pool that is there keeps its objects apart, and a block that it may get for
-- more of them lies outside of every object; a pool that is not there yet gets blocks that are not `NULL`.
abbrev pub Sound : Mallocs → List ℕ → List ℕ → Option MutexPool → Type 0
Sound given owned free none = (owned ≡ []) × ((b : ℕ) → given.first_block ≡ some b → 0 < b)
Sound given owned free (some m) = Shared m.pool owned free × Fresh m.pool owned free given.block

-- A request that its pool answers: the objects of the pool hold it, what it gives is nothing or an object that
-- is neither handed out nor free, and no other pool changes.
abbrev pub FromPool : ℕ → PoolArray → List ℕ → Option ℕ → PoolArray → Type 0
FromPool size pools owned rebuf pools' =
    (pool_offset size < buffer_pool_array_size)
    × ((p : Pool) × (pools' (pool_offset size) ≡ some (unlock p))
        × (size ≤ p.malloc_size)
        × Given owned (rebuf, p))
    × ((i : ℕ) → i ≢ pool_offset size → pools' i ≡ pools i)

-- One that is too large for the pools.
abbrev pub FromMalloc : Mallocs → ℕ → PoolArray → Option ℕ → PoolArray → Type 0
FromMalloc given size pools rebuf pools' =
    (buffer_pool_array_size ≤ pool_offset size) × (rebuf ≡ given.large) × (pools' ≡ pools)

-- The ends of a request. It writes through `NULL`: then its pool was not there, and a `malloc` failed.
abbrev pub Answered : Mallocs → ℕ → PoolArray → List ℕ → Option (Option ℕ × PoolArray) → Type 0
Answered given size pools owned none =
    (pools (pool_offset size) ≡ none) × ((given.first_list ≡ false) ⊎ (given.first_block ≡ none))
Answered given size pools owned (some (rebuf, pools')) =
    ((i : ℕ) → ClassOf i (pools' i))
    × (FromPool size pools owned rebuf pools' ⊎ FromMalloc given size pools rebuf pools')
