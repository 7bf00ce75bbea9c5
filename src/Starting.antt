-- ===== src/Starting.antt =====
-- `connection::start_recver` of hds_udp/connection/HDS_UDP_Connection.cpp: what a first packet does to the
-- id table, to the queue of readers that wait and to the count of readers. What `malloc`, the pool and the
-- application's verification answer are arguments; the clean-up goes through the `goto recv_reject`.
pub mod Outcome
use test_resend.Prelude.{
  ℕ, ◌+◌, ◌-◌, ◌==◌, if◌then◌else◌, ltb, Bool, true, false, List, [], ◌∷◌, Option, none, some,
}
use test_resend.Prelude.Words.{sub64, add64}
use test_resend.Connection.{
  MsgType, simple_file_require, simple_file_rejected, complex_file_require, complex_file_rejected,
}
use test_resend.Wire.{ConnectionId}
use test_resend.RecvWaitQueue.{wait_key, waiting_insert}
use test_resend.Table.{Table, create_connection_id, release_connection_id, offset_of}

-- `_recv_buf_type`
pub data RecvBufType : Type 0 where
  pool_space malloc_space_del malloc_space_no_del user_space_del user_space_no_del : RecvBufType

-- `HDS_UDP_Recv_Verification_Attribute`
pub record Attribute : Type 0 where
  pub recv : Bool
  pub recv_buf : Option ℕ
  pub manual : Bool

-- What the calls out of `start_recver` give; `verification` is `none` without `_recv_verification_func`,
-- and `queue_node` tells whether the map of the queue has a node left.
pub record Surroundings : Type 0 where
  pub reader : Option ℕ
  pub need_verification : Bool
  pub verification : Option Attribute
  pub buffer : Option ℕ
  pub queue_node : Bool

pub record Receiver : Type 0 where
  pub table : Table
  pub waiting : List (ℕ × ℕ)
  pub reader_count : ℕ

-- How a call ends: without a reader, with a reader that is left as it is, with a rejection that names a
-- connection id, and with a reader, its buffer and whether the acknowledgement timer is set.
pub data Start : Type 0 where
  ignored : Receiver → Start
  abandoned : ℕ → Receiver → Start
  rejected : MsgType → ℕ → Receiver → Start
  started : ℕ → ℕ → RecvBufType → Bool → Receiver → Start

abbrev pub is_simple_require : MsgType → Bool
is_simple_require simple_file_require = true
is_simple_require _ = false

abbrev pub is_complex_require : MsgType → Bool
is_complex_require complex_file_require = true
is_complex_require _ = false

-- From the label `recv_reject` on.
abbrev pub recv_reject : MsgType → ℕ → Receiver → Start
recv_reject require_type id0 r =
    rejected
      (if is_simple_require require_type then simple_file_rejected else complex_file_rejected) id0
      (record r {
        table = release_connection_id id0 r.table;
        reader_count = sub64 r.reader_count 1;
      })

-- `if(_transmit_buf == NULL)` and the calls after it.
unfoldable pub with_buffer :
    MsgType → ℕ → Surroundings → ℕ → ℕ → Option (ℕ × RecvBufType) → Receiver → Start
with_buffer require_type length env reader id0 (some (buf, type)) r =
    started reader buf type (is_complex_require require_type) r
with_buffer require_type length env reader id0 none r = elim env.buffer [
  | none ↦ recv_reject require_type id0 r
  | some buf ↦
      started reader buf (if ltb 512 length then malloc_space_del else pool_space)
        (is_complex_require require_type) r
]

-- The buffer that the application gives.
abbrev pub user_buffer : Attribute → Option (ℕ × RecvBufType)
user_buffer atti = elim atti.recv_buf [
  | none ↦ none
  | some buf ↦ some (buf, if atti.manual then user_space_no_del else user_space_del)
]

-- `if(_recv_verification_func)`, once the reader has an id and waits.
unfoldable pub verify : MsgType → ℕ → Surroundings → ℕ → ℕ → Receiver → Start
verify require_type length env reader id0 r = elim env.verification [
  | none ↦ with_buffer require_type length env reader id0 none r
  | some atti ↦
      let kept = with_buffer require_type length env reader id0 (user_buffer atti) r in
      if atti.recv then kept else recv_reject require_type id0 r
]

-- From `create_connectionID` on, for the id of the packet.
unfoldable pub register : MsgType → ConnectionId → ℕ → Surroundings → ℕ → Receiver → Start
register require_type wq_con_id length env reader r =
    let (id, table) = create_connection_id reader r.table in
    elim id [
      | none ↦ recv_reject require_type 0 (record r { table = table })
      | some id0 ↦ verify require_type length env reader id0 (record r {
        table = table;
        waiting = waiting_insert env.queue_node (wait_key wq_con_id) (offset_of id0) r.waiting;
      })
    ]

-- `test_complex_file_need_verification()==1 && _recv_verification_func == NULL`
abbrev pub unverified : Surroundings → Bool
unverified env = elim env.verification [ none ↦ env.need_verification | some atti ↦ false ]

-- `connection::start_recver`, for the id and the length of the packet's header.
unfoldable pub start_recver : MsgType → ConnectionId → ℕ → Surroundings → Receiver → Start
start_recver require_type wq_con_id length env r =
    let refused = if is_simple_require require_type then false else unverified env in
    elim env.reader [
      | none ↦ ignored r
      | some reader ↦
          let counted = record r { reader_count = add64 r.reader_count 1 } in
          if refused
          then ignored r
          else if length == 0
          then abandoned reader counted
          else register require_type wq_con_id length env reader counted
    ]
