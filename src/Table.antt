-- ===== src/Table.antt =====
-- The table of connection ids in hds_udp/connection/HDS_UDP_Connection.cpp, and the handlers there
-- that find a connection by its id.
pub mod Lookup
pub mod Stopping
pub mod Dispatch
use Prim.Native.Nat.{bit_or}
use test_resend.Prelude.{
  ℕ, ◌+◌, ◌*◌, ◌/◌, ◌%◌, ◌^◌, ◌==◌, if◌then◌else◌, Bool, true, false, List, [], ◌∷◌, ◌++◌, Option,
  none, some,
}
use test_resend.Prelude.Int.{ℤ, pos}
use test_resend.Prelude.Words.{u32, add64}
use test_resend.Atomic.{post_increment, compare_exchange}
use test_resend.Config.{max_connection_count, reset_reaction_time}
use test_resend.Wire.{ConnectionId}
use test_resend.Connection.{
  Connection, Effect, MsgType, msg_reset, TransResultCode, trans_reset, trans_rejected,
  trans_force_stop, force_reset_timer, force_stop_bit, connection_type_bit, in_sender_bit,
  reback_sender_bit, set_status, reset_status, test_status, suspend, timer, add_to_sender_queue,
}
use test_resend.Writer.{Writer}
use test_resend.SimpleReader.{reply}

-- An entry of `_cid_array`: 0, `CONNECTION_SUSPEND` or an address.
pub data Slot : Type 0 where
  empty suspended : Slot
  live : ℕ → Slot

pub record Table : Type 0 where
  pub cid_array : ℕ → Slot
  pub cid_array_offset : ℕ
  pub verification_actor : ℕ

abbrev pub put : ℕ → Slot → (ℕ → Slot) → ℕ → Slot
put offset slot slots j = if offset == j then slot else slots j

-- `id&HDS_UDP_CONNECTION_OFFSET_SHIRT`
abbrev pub offset_of : ℕ → ℕ
offset_of id0 = id0 % max_connection_count

-- `connection::init`, with the clock.
abbrev pub init_table : ℕ → ℕ → Table → Table
init_table tv_sec tv_usec t = record t {
  cid_array_offset = tv_usec % max_connection_count;
  verification_actor = tv_sec;
}

-- `create_connectionID`: the word `_ID32[0]`, or `none` for -1. The loop body ends the loop or the
-- function, so it runs once.
unfoldable pub create_connection_id : ℕ → Table → Option ℕ × Table
create_connection_id connection_addr t =
    let (offset, after) = post_increment t.cid_array_offset in
    let (_, cursor) = compare_exchange 1 max_connection_count after in
    let (ver_value, actor) = post_increment t.verification_actor in
    elim (t.cid_array offset) [
      | empty ↦ (
        some (u32 (offset + ver_value % 4096 * max_connection_count)),
        record {
          cid_array = put offset (live connection_addr) t.cid_array;
          cid_array_offset = cursor;
          verification_actor = actor;
        },
      )
      | suspended ↦ (none, record t { cid_array_offset = cursor })
      | live other ↦ (none, record t { cid_array_offset = cursor })
    ]

-- `create_connectionID_label`, with the clock.
abbrev pub create_connection_id_label : ℕ → ℕ → ℕ
create_connection_id_label tv_sec tv_usec =
    bit_or (tv_usec / 2 ^ 10 % 2 ^ 10) (u32 tv_sec / 2 ^ 10 * 2 ^ 10)

-- `suspend_connection_ID`
abbrev pub suspend_connection_id : ℕ → Table → Table
suspend_connection_id id0 t = record t { cid_array = put (offset_of id0) suspended t.cid_array }

-- `release_connection_ID`
abbrev pub release_connection_id : ℕ → Table → Table
release_connection_id id0 t = record t { cid_array = put (offset_of id0) empty t.cid_array }

abbrev pub address : Slot → Option ℕ
address empty = none
address suspended = none
address (live a) = some a

-- `get_connection`
unfoldable pub get_connection : ℕ → Table → Option ℕ
get_connection offset t = address (t.cid_array offset)

-- The connection that `connection_do_network_data` hands a packet to; `memory` holds the connections.
unfoldable pub network_target : (ℕ → Connection) → ℕ → Table → Option ℕ
network_target memory id0 t = elim (get_connection (offset_of id0) t) [
  | none ↦ none
  | some con ↦ if (memory con).con_id.id0 == id0 then some con else none
]

-- The connection that `connection_do_connection_reset` and `connection_do_connection_stop` act on.
unfoldable pub reset_target : ℕ → Table → Option ℕ
reset_target id0 t = get_connection (offset_of id0) t

-- `connection_do_time_out`: the connection that a timer's handler gets, by the offset and the address that
-- the timer was set with, and whether the memory of its parameters is given back.
unfoldable pub connection_do_time_out : ℕ → ℕ → Table → Option ℕ × Bool
connection_do_time_out offset connection_addr t = elim (t.cid_array offset) [
  | empty ↦ (none, false)
  | suspended ↦ (some connection_addr, true)
  | live con ↦ (some con, true)
]

-- `CONNECTION_INFO`, without the address.
pub record ConnectionInfo : Type 0 where
  pub complete_size : ℕ
  pub total_size : ℕ
  pub trans_result_code : TransResultCode

-- `connection::get_connection_info`: `none` for the result -1.
unfoldable pub get_connection_info : (ℕ → Connection) → ℕ → Table → Option ConnectionInfo
get_connection_info memory id0 t = elim (get_connection (offset_of id0) t) [
  | none ↦ none
  | some con ↦ some (record {
    complete_size = (memory con).left_window_cursor;
    total_size = (memory con).transmit_buf_length;
    trans_result_code = (memory con).trans_result_code;
  })
]

-- What both do to a connection that was not stopped before.
unfoldable pub stop_with : TransResultCode → Connection → Connection × List Effect
stop_with code c =
    let stopped = record c { trans_result_code = code } in
    if test_status connection_type_bit stopped
    then suspend stopped
    else (stopped, timer (pos reset_reaction_time) force_reset_timer stopped ∷ [])

abbrev pub code_of_reset : MsgType → TransResultCode
code_of_reset msg_reset = trans_reset
code_of_reset _ = trans_rejected

-- `connection_do_connection_reset`
unfoldable pub connection_reset : MsgType → Connection → Connection × List Effect
connection_reset msgtype c =
    let (first, c') = set_status force_stop_bit c in
    if first then stop_with (code_of_reset msgtype) c' else (c', [])

-- `connection_do_connection_stop`
unfoldable pub connection_stop : Connection → Connection × List Effect
connection_stop c =
    let (first, c') = set_status force_stop_bit c in
    let (done, effects) = stop_with trans_force_stop c' in
    if first then (done, effects ++ (reply msg_reset 4294967295 0 done ∷ [])) else (c', [])

-- `connection_do_sender`, around a `_do_send`.
unfoldable pub connection_do_sender :
    (Writer → Writer × List Effect) → Writer → Writer × List Effect
connection_do_sender do_send w =
    let (_, ready) = reset_status reback_sender_bit w.base in
    let (sent, effects) = do_send (record w { base = ready }) in
    let (_, left) = reset_status in_sender_bit sent.base in
    let (again, calm) = reset_status reback_sender_bit left in
    let (queued, more) = add_to_sender_queue calm in
    if again
    then (record sent { base = queued }, effects ++ more)
    else (record sent { base = calm }, effects)
