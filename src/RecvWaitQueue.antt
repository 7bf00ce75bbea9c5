-- ===== src/RecvWaitQueue.antt =====
-- hds_udp/connection/HDS_UDP_Connection_Recv_Wait_ACK_Queue.cpp: the readers that wait for a second
-- packet, by the id that their first packet named. Each call locks a mutex around a call of the map, so
-- the calls are steps, and `none` is a read of the map through a null pointer.
pub mod Refine
use test_resend.Prelude.{
  ℕ, ◌+◌, ◌*◌, ◌%◌, ◌^◌, if◌then◌else◌, Bool, true, false, List, Option, none, some,
}
use test_resend.Wire.{ConnectionId}
use test_resend.HpMap.{Root, find_node}
use test_resend.HpMap.Entries.{insert_entry}
use test_resend.HpMap.Insert.{my_rb_insert}
use test_resend.HpMap.Erase.{erase}

-- `_CID._ID64`, which is signed, with the offset that keeps the order.
abbrev pub wait_key : ConnectionId → ℕ
wait_key i = (i.id0 + i.id1 * 2 ^ 32 + 2 ^ 63) % 2 ^ 64

-- `Recv_Wait_Ack_Queue::find`: the offset, where it returns 0.
unfoldable pub find : ConnectionId → Root ℕ → Option ℕ
find con q = find_node (wait_key con) q.rb_node

-- `HP_map::insert`, with whether the pool of the map has a node, and whether it returns 0.
unfoldable pub map_insert : Bool → ℕ → ℕ → Root ℕ → Option (Bool × Root ℕ)
map_insert has_node key value root =
    if has_node then my_rb_insert key value root else some (false, root)

-- `Recv_Wait_Ack_Queue::insert`
unfoldable pub insert : Bool → ConnectionId → ℕ → Root ℕ → Option (Bool × Root ℕ)
insert has_node con offset q = map_insert has_node (wait_key con) offset q

-- `Recv_Wait_Ack_Queue::erase`
unfoldable pub erase_id : ConnectionId → Root ℕ → Option (Bool × Root ℕ)
erase_id con q = erase (wait_key con) q

-- The queue as a list of keys and offsets, for those who call it.
unfoldable pub waiting_insert : Bool → ℕ → ℕ → List (ℕ × ℕ) → List (ℕ × ℕ)
waiting_insert has_node key offset m = if has_node then insert_entry key offset m else m
