-- ===== src/Receiving.antt =====
-- hds_udp/connection/HDS_UDP_Connection.cpp: a packet for a connection that is there, up to its handler,
-- a require packet that comes again, and the two places where a reader leaves the wait queue.
pub mod Duplicates
pub mod Leaving
use test_resend.Prelude.{
  ℕ, zero, suc, ◌==◌, if◌then◌else◌, Bool, true, false, ◌&&◌, List, Option, none, some,
}
use test_resend.Config.{packet_max_data_length}
use test_resend.Wire.{ConnectionId}
use test_resend.Connection.{
  Connection, MsgType, simple_file_require, simple_file_require_duplicate, simple_file_data,
  simple_file_ack, complex_file_require, complex_file_data, complex_file_ack, complex_file_sack,
  in_recv_wait_ack_queue_bit, reset_status,
}
use test_resend.HpMap.Entries.{lookup}
use test_resend.HpMap.Erase.Removing.{remove_entry}
use test_resend.RecvWaitQueue.{wait_key}
use test_resend.Table.{Table, get_connection, network_target}
use test_resend.Starting.{Surroundings, Receiver, Start, start_recver}

-- A connection as these functions see it: a reader also keeps the first word of the id that its sender
-- asked with. The address is its bytes in memory.
pub record Peer : Type 0 where
  pub base : Connection
  pub open base use *
  pub require_duplicate_label : ℕ
  pub remote_addr : ℕ → ℕ

-- The loop of `sockaddrcmp`, of hds_udp/common/HDS_Socket_Utils.h, over the bytes that are left.
unfoldable pub same_bytes : ℕ → (ℕ → ℕ) → (ℕ → ℕ) → Bool
same_bytes zero a b = true
same_bytes (suc n) a b =
    let rest = same_bytes n (λ i. a (suc i)) (λ i. b (suc i)) in if a 0 == b 0 then rest else false

-- `sockaddrcmp`, whether it gives 0.
unfoldable pub sockaddrcmp : (ℕ → ℕ) → ℕ → (ℕ → ℕ) → ℕ → Bool
sockaddrcmp addra addra_length addrb addrb_length =
    if addra_length == addrb_length then same_bytes addra_length addra addrb else false

-- The macro `__set_connection_out_recv_wait_ack_queue`; `id1` is the second word of the id that it is
-- given.
unfoldable pub leave_queue : ℕ → Peer → List (ℕ × ℕ) → Peer × List (ℕ × ℕ)
leave_queue id1 con waiting =
    let (queued, c) = reset_status in_recv_wait_ack_queue_bit con.base in
    let key = wait_key (record { id0 = con.require_duplicate_label; id1 = id1 }) in
    (record con { base = c }, if queued then remove_entry key waiting else waiting)

-- The `switch` of `connection_do_network_data`, for a packet that carries the second place.
unfoldable pub second_packet : MsgType → ConnectionId → Peer → List (ℕ × ℕ) → Peer × List (ℕ × ℕ)
second_packet simple_file_data con_id con waiting = leave_queue con_id.id1 con waiting
second_packet complex_file_data con_id con waiting = leave_queue con_id.id1 con waiting
second_packet simple_file_ack con_id con waiting = (
  record con { base = record con.base { con_id = record con.con_id { id1 = con_id.id1 } } },
  waiting,
)
second_packet complex_file_ack con_id con waiting = (
  record con { base = record con.base { con_id = record con.con_id { id1 = con_id.id1 } } },
  waiting,
)
second_packet complex_file_sack con_id con waiting = (
  record con { base = record con.base { con_id = record con.con_id { id1 = con_id.id1 } } },
  waiting,
)
second_packet _ con_id con waiting = (con, waiting)

-- `connection_do_network_data` up to the call of `_do_network_data`: the address of the connection, the
-- connection that its handler gets, and the wait queue; `none` where no handler is called.
unfoldable pub network_data :
    MsgType → ConnectionId → ℕ → (ℕ → Peer) → Receiver → Option (ℕ × Peer × Receiver)
network_data msgtype con_id seq memory r =
    elim (network_target (λ a. (memory a).base) con_id.id0 r.table) [
      | none ↦ none
      | some address ↦
          let (con, waiting) = second_packet msgtype con_id (memory address) r.waiting in
          let left : Receiver = record r { waiting = waiting } in
          if seq == packet_max_data_length
          then some (address, con, left)
          else some (address, memory address, r)
    ]

-- What a require packet that comes again does: nothing, the start of another reader, or an
-- acknowledgement with an id, a time and a place.
pub data Answer : Type 0 where
  ignored : Answer
  restarted : MsgType → Start → Answer
  acknowledged : MsgType → ConnectionId → ℕ → ℕ → Answer

abbrev pub require_of : MsgType → MsgType
require_of simple_file_require_duplicate = simple_file_require
require_of _ = complex_file_require

abbrev pub ack_of_duplicate : MsgType → MsgType
ack_of_duplicate simple_file_require_duplicate = simple_file_ack
ack_of_duplicate _ = complex_file_ack

-- The test before the acknowledgement.
unfoldable pub is_first_again : ConnectionId → (ℕ → ℕ) → ℕ → Peer → Bool
is_first_again con_id remote_addr remote_addr_length con =
    con.con_id.id1 == con_id.id1
    && con.require_duplicate_label == con_id.id0
    && con.left_window_cursor == packet_max_data_length
    && sockaddrcmp remote_addr remote_addr_length con.remote_addr remote_addr_length

-- `connection_do_require_duplicate`, for the header, the address of the sender and its length, what
-- `start_recver` calls, and the connections.
unfoldable pub require_duplicate :
    MsgType → ConnectionId → ℕ → ℕ → (ℕ → ℕ) → ℕ → Surroundings → (ℕ → Peer) → Receiver → Answer
require_duplicate msgtype con_id send_time dt_note addr addr_length env memory r =
    elim (lookup (wait_key con_id) r.waiting) [
      | none ↦
          restarted (require_of msgtype) (start_recver (require_of msgtype) con_id dt_note env r)
      | some offset ↦ elim (get_connection offset r.table) [
        | none ↦ ignored
        | some address ↦
            if is_first_again con_id addr addr_length (memory address)
            then acknowledged (ack_of_duplicate msgtype) (memory address).con_id send_time
                packet_max_data_length
            else ignored
      ]
    ]
