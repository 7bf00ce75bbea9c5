-- ===== src/BufferPool.antt =====
-- hds_udp/buffer/HDS_Buffer_Pool.{h,cpp}: pools of objects of one size. The objects that are free form a
-- list through their own first word, so the words of the memory are part of the state; 0 is `NULL`.
-- `malloc` is not the program's: what a call of it gives is an argument.
pub mod FreeList
pub mod Blocks
pub mod Owners
pub mod Classes
pub mod Locked
use test_resend.Prelude.{
  ℕ, zero, suc, ◌+◌, ◌-◌, ◌*◌, ◌/◌, ◌==◌, if◌then◌else◌, ltb, Bool, true, false, List, [], ◌∷◌,
  ◌++◌, length, Option, none, some,
}

-- `HDS_UDP_POOL_DEFAULT_ALLOC_OBJECT_SIZE`, and the other sizes of the header.
abbrev pub alloc_object_size : ℕ
alloc_object_size = 512

abbrev pub alloc_block_array_size : ℕ
alloc_block_array_size = 128

abbrev pub buffer_pool_array_size : ℕ
buffer_pool_array_size = 64

abbrev pub buffer_pool_ctrl_unit : ℕ
buffer_pool_ctrl_unit = 8

-- `_pool_base_`: `buf_list` is the used part of `_buf_list`, so its length is `_buf_list_offset`.
pub record Pool : Type 0 where
  pub malloc_size : ℕ
  pub head : ℕ
  pub buf_list : List ℕ
  pub buf_list_size : ℕ
  pub memory : ℕ → ℕ

-- `*((char**)p)=v`
unfoldable pub store : ℕ → ℕ → (ℕ → ℕ) → ℕ → ℕ
store p v memory x = if x == p then v else memory x

-- `for(;i<n;i++) *((char **)(&node[i*size]))= node + (i+1)*size;` with `n-i` rounds.
unfoldable pub link : ℕ → ℕ → ℕ → ℕ → (ℕ → ℕ) → ℕ → ℕ
link node size i zero memory = memory
link node size i (suc rounds) memory =
    link node size (i + 1) rounds (store (node + i * size) (node + (i + 1) * size) memory)

-- The last object of a block.
abbrev pub last_object : ℕ → ℕ → ℕ
last_object node size = node + (alloc_object_size - 1) * size

-- The pool that `_pool_base_::init` makes of a block.
unfoldable pub pool_of : ℕ → ℕ → (ℕ → ℕ) → Pool
pool_of object_size block memory = record {
  malloc_size = object_size;
  head = block;
  buf_list = block ∷ [];
  buf_list_size = alloc_block_array_size;
  memory = store (last_object block object_size) 0 (link block object_size 0 511 memory);
}

-- `_pool_base_::init`, with whether `malloc` gives the `_buf_list`, and the block that it gives; the code does
-- not test either, and `none` is its write through `NULL`.
unfoldable pub init : ℕ → Bool → Option ℕ → (ℕ → ℕ) → Option Pool
init object_size list_given none memory = none
init object_size list_given (some block) memory =
    if list_given then some (pool_of object_size block memory) else none

-- The second half of `get_object`, from `char* nnode = …` on; `none` is a `malloc` that fails.
unfoldable pub grow : Option ℕ → Pool → Option ℕ × Pool
grow none p = (none, p)
grow (some nnode) p =
    let linked = link nnode p.malloc_size 1 510 p.memory in
    (
      some nnode,
      record p {
        buf_list = p.buf_list ++ (nnode ∷ []);
        memory = store (last_object nnode p.malloc_size) p.head linked;
        head = nnode + p.malloc_size;
      },
    )

-- `_pool_base_::get_object`: whether the larger `_buf_list` can be had, and the block.
unfoldable pub get_object : Bool → Option ℕ → Pool → Option ℕ × Pool
get_object list_given block p =
    let grown = grow block (record p { buf_list_size = p.buf_list_size * 2 }) in
    if p.head == 0
    then (if length p.buf_list == p.buf_list_size
        then (if list_given then grown else (none, p))
        else grow block p)
    else (some p.head, record p { head = p.memory p.head })

-- `_pool_base_::release_object`
unfoldable pub release_object : ℕ → Pool → Pool
release_object buf p = record p { memory = store buf p.head p.memory; head = buf }

-- `_mutex_pool_base_`: the same state with `_mutex`.
pub record MutexPool : Type 0 where
  pub pool : Pool
  pub mutex : Bool

-- `HDS_Mutex_Lock`, in a model where a thread that would wait gives `none`, and `HDS_Mutex_Unlock`.
unfoldable pub lock : MutexPool → Option MutexPool
lock m = if m.mutex then none else some (record m { mutex = true })

abbrev pub unlock : Pool → MutexPool
unlock p = record { pool = p; mutex = false }

-- `_mutex_pool_base_::init`
unfoldable pub mutex_init : ℕ → Bool → Option ℕ → (ℕ → ℕ) → Option MutexPool
mutex_init object_size list_given block memory = elim (init object_size list_given block memory) [
  | none ↦ none
  | some p ↦ some (unlock p)
]

-- `_mutex_pool_base_::get_object`: between the lock and `get_succ`, where every path ends, it is the code
-- of `_pool_base_::get_object`.
unfoldable pub mutex_get_object : Bool → Option ℕ → MutexPool → Option (Option ℕ × MutexPool)
mutex_get_object list_given block m = elim (lock m) [
  | none ↦ none
  | some held ↦ let (rebuf, p) = get_object list_given block held.pool in some (rebuf, unlock p)
]

-- `_mutex_pool_base_::release_object`
unfoldable pub mutex_release_object : ℕ → MutexPool → Option MutexPool
mutex_release_object buf m = elim (lock m) [
  | none ↦ none
  | some held ↦ some (unlock (release_object buf held.pool))
]

-- `(size-1)/HDS_UDP_BUFFER_POOL_CTRL_UNIT` for a size that is not negative: of 0 it is 0 as well, since
-- C rounds towards 0.
abbrev pub pool_offset : ℕ → ℕ
pool_offset size = (size - 1) / buffer_pool_ctrl_unit

-- `_pool_base_array`, with `none` for a pool whose `_buf_list` is 0.
abbrev pub PoolArray : Type 0
PoolArray = ℕ → Option MutexPool

unfoldable pub put : ℕ → MutexPool → PoolArray → PoolArray
put offset m pools i = if i == offset then some m else pools i

-- What the calls of `malloc` in one call of `get_buffer` give.
pub record Mallocs : Type 0 where
  pub first_list : Bool
  pub first_block : Option ℕ
  pub list_given : Bool
  pub block : Option ℕ
  pub large : Option ℕ
  pub memory : ℕ → ℕ

-- The pool of a size class, which the first call sets up.
unfoldable pub ready : Mallocs → ℕ → PoolArray → Option MutexPool
ready given offset pools = elim (pools offset) [
  | none ↦
      mutex_init ((offset + 1) * buffer_pool_ctrl_unit) given.first_list given.first_block
        given.memory
  | some m ↦ some m
]

-- `get_object` of the pool of a size class, and the array with the pool that it leaves.
unfoldable pub take_object : Mallocs → ℕ → PoolArray → MutexPool → Option (Option ℕ × PoolArray)
take_object given offset pools m = elim (mutex_get_object given.list_given given.block m) [
  | none ↦ none
  | some (rebuf, m') ↦ some (rebuf, put offset m' pools)
]

-- `Buffer_Pool::get_buffer`; `none` is a wait, or the write of `init` through `NULL`.
unfoldable pub get_buffer : Mallocs → ℕ → PoolArray → Option (Option ℕ × PoolArray)
get_buffer given size pools =
    let offset = pool_offset size in
    if ltb offset buffer_pool_array_size
    then elim (ready given offset pools) [ none ↦ none | some m ↦ take_object given offset pools m ]
    else some (given.large, pools)

-- `Buffer_Pool::release_buffer`; `none` is a pool that was never set up, or a wait.
unfoldable pub release_buffer : ℕ → ℕ → PoolArray → Option PoolArray
release_buffer ptr size pools =
    let offset = pool_offset size in
    if ltb offset buffer_pool_array_size
    then elim (pools offset) [
      | none ↦ none
      | some m ↦ elim (mutex_release_object ptr m) [
        | none ↦ none
        | some released ↦ some (put offset released pools)
      ]
    ]
    else some pools
