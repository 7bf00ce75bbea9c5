-- ===== src/SList.antt =====
-- hds_udp/common/s_list.h: a list of nodes in memory, with a pointer to each end. An address is a number and
-- 0 is `NULL`; what the pool gives for a node is an argument.
pub mod Refine
pub mod Removing
use test_resend.Prelude.{
  ℕ, zero, suc, ◌+◌, ◌-◌, ◌^◌, ◌==◌, if◌then◌else◌, Bool, true, false, Option, none, some,
}
use test_resend.Prelude.Words.{u32}

-- The `next` and the `data` of the nodes, and the fields of the list.
pub record SList {ℓ} (A : Type ℓ) : Type ℓ where
  pub next : ℕ → ℕ
  pub value : ℕ → A
  pub head : ℕ
  pub tail : ℕ
  pub cur_size : ℕ

-- A store of `v` at the address `p`.
unfoldable pub write {ℓ} : {B : Type ℓ} → ℕ → B → (ℕ → B) → ℕ → B
write p v memory x = if x == p then v else memory x

module _ {ℓ} {A : Type ℓ} where
  -- The new node, which nothing points to.
  unfoldable pub new_node : ℕ → A → SList A → SList A
  new_node temp t1 s = record s { next = write temp 0 s.next; value = write temp t1 s.value }

  -- `push_back`: the new size, or `none` for -1.
  unfoldable pub push_back : Option ℕ → A → SList A → Option ℕ × SList A
  push_back none t1 s = (none, s)
  push_back (some temp) t1 s =
      let made = new_node temp t1 s in
      let size = u32 (s.cur_size + 1) in
      let linked = record made { next = write s.tail temp made.next } in
      if s.cur_size == 0
      then (some size, record made { head = temp; tail = temp; cur_size = size })
      else (some size, record linked { tail = temp; cur_size = size })

  -- `dequeue_head`: `none` for -1.
  unfoldable pub dequeue_head : SList A → Option A × SList A
  dequeue_head s =
      if s.cur_size == 0
      then (none, s)
      else if s.cur_size == 1
      then (some (s.value s.head), record s { head = 0; tail = 0; cur_size = 0 })
      else (some (s.value s.head), record s { head = s.next s.head; cur_size = s.cur_size - 1 })

module _ {ℓ} {A : Type ℓ} where
  -- The node at `temp` is taken out; `xtemp` is the one before it. The tail is left as it is.
  unfoldable pub unlink_node : SList A → ℕ → ℕ → SList A
  unlink_node s xtemp temp =
      let size = u32 (s.cur_size + 2 ^ 32 - 1) in
      if temp == s.head
      then record s { head = s.next s.head; cur_size = size }
      else record s { next = write xtemp (s.next temp) s.next; cur_size = size }

-- The two searches compare the data by the `==` of its type. `none` means that the fuel ran out.
module _ {ℓ} {A : Type ℓ} (same : A → A → Bool) (t1 : A) where
  -- The loop of `find`, from the node at `temp` on: whether it returns 0.
  unfoldable pub find_from : ℕ → SList A → ℕ → Option Bool
  find_from zero s temp = none
  find_from (suc fuel) s temp =
      let rest = find_from fuel s (s.next temp) in
      if temp == 0 then some false else if same (s.value temp) t1 then some true else rest

  unfoldable pub find_value : ℕ → SList A → Option Bool
  find_value fuel s = find_from fuel s s.head

  -- The loop of `find_and_del`: whether it returns 0, and the list.
  unfoldable pub del_from : ℕ → SList A → ℕ → ℕ → Option (Bool × SList A)
  del_from zero s xtemp temp = none
  del_from (suc fuel) s xtemp temp =
      let rest = del_from fuel s temp (s.next temp) in
      if temp == 0
      then some (false, s)
      else if same (s.value temp) t1
      then some (true, unlink_node s xtemp temp)
      else rest

  unfoldable pub find_and_del_value : ℕ → SList A → Option (Bool × SList A)
  find_and_del_value fuel s = del_from fuel s 0 s.head
