-- ===== src/Submitting.antt =====
-- hds_udp/connection/HDS_UDP_Connection.cpp: a message of the application becomes a writer in the id table
-- and in the queue of the sender threads. What `malloc` and the clock
-- give are arguments.
pub mod Outcome
pub mod Linking
use test_resend.Prelude.{
  ℕ, ◌+◌, ◌==◌, if◌then◌else◌, leb, Bool, true, false, List, [], ◌∷◌, ◌++◌, length, Option, none,
  some,
}
use test_resend.Prelude.Int.{pos}
use test_resend.Prelude.Words.{u32, add64}
use test_resend.Config.{
  packet_max_data_length, small_file_max_size, default_ssthresh_size, connection_default_rto,
}
use test_resend.Wire.{ConnectionId}
use test_resend.Connection.{
  Connection, Effect, unset, connection_type_bit, set_status, add_to_sender_queue,
}
use test_resend.Writer.{Writer}
use test_resend.ComplexWriter.{FactorOps, ComplexWriter}
use test_resend.Table.{Table, create_connection_id, create_connection_id_label}

-- `HDS_UDP_Simple_Connection_Writer::construct`: the fields after its `memset`.
abbrev pub construct : Writer
construct = record {
  base = record {
    con_id = record { id0 = 0; id1 = 0 };
    running_count = 0;
    trans_result_code = unset;
    status = 0;
    transmit_buf = [];
    transmit_buf_length = 0;
    left_window_cursor = 0;
  };
  rtt = record { srtt = pos 0; rttvar = pos 0; rto = pos 0 };
  try_time = 0;
}

-- What the application gives; a chain of message nodes stands as the bytes that it is sent as.
pub record Submission : Type 0 where
  pub block : List ℕ
  pub block_length : ℕ
  pub default_ssthresh : ℕ
  pub max_window_size : ℕ

-- The id table, and the counts of the two kinds of writer.
pub record Senders : Type 0 where
  pub table : Table
  pub simple_writer_count : ℕ
  pub complex_writer_count : ℕ

-- The clock of `create_connectionID_label`.
pub record Clock : Type 0 where
  pub tv_sec : ℕ
  pub tv_usec : ℕ

pub data NewWriter (Factor : Type 0) : Type 0 where
  simple : Writer → NewWriter Factor
  complex : ComplexWriter Factor → NewWriter Factor

-- The assignments of `__start_sender` after the id is there.
unfoldable pub fill_in : ConnectionId → Submission → Writer → Writer
fill_in id m w =
    let filled = record w.base {
      con_id = id;
      transmit_buf = m.block;
      transmit_buf_length = m.block_length;
    } in
    record w {
      base = (set_status connection_type_bit filled).1;
      rtt = record w.rtt { rto = pos connection_default_rto };
    }

abbrev pub is_small : Submission → Bool
is_small m = leb m.block_length small_file_max_size

module _ {Factor : Type 0} (ops : FactorOps Factor) where
  -- `HDS_UDP_Complex_Connection_Writer::construct`
  unfoldable pub construct_complex : ComplexWriter Factor
  construct_complex = record {
    writer = construct;
    current_window_cursor = 0;
    old_current_window_cursor = 0;
    right_window_cursor = packet_max_data_length;
    window_site = packet_max_data_length;
    window_ssthresh = default_ssthresh_size;
    default_window_size = 0;
    sack_seq = 0;
    ack_seq_window_increase_factor = ops.one;
    sack_same_count = 0;
  }

  -- The writer that `__start_sender` makes.
  unfoldable pub new_writer : ConnectionId → Submission → NewWriter Factor
  new_writer id m =
      if is_small m
      then simple (fill_in id m construct)
      else complex (record construct_complex {
        writer = fill_in id m construct;
        default_window_size = m.max_window_size;
        window_ssthresh = m.default_ssthresh;
      })

  -- `_increase_connection_type_count`
  unfoldable pub counted : Submission → Senders → Senders
  counted m s =
      if is_small m
      then record s { simple_writer_count = add64 s.simple_writer_count 1 }
      else record s { complex_writer_count = add64 s.complex_writer_count 1 }

  -- `__start_sender`, with the address that the pool of writers gives: the address, the id for the caller,
  -- which is copied before the label, and the writer; or nothing for the result -1.
  unfoldable pub make_sender :
      Option ℕ
      → Clock
      → Submission
      → Senders
      → Option (ℕ × ConnectionId × NewWriter Factor) × Senders
  make_sender writer now m s = elim writer [
    | none ↦ (none, s)
    | some addr ↦
        let (id, table) = create_connection_id addr s.table in
        let tabled : Senders = record s { table = table } in
        elim id [
          | none ↦ (none, tabled)
          | some id0 ↦
              let label = create_connection_id_label now.tv_sec now.tv_usec in
              (
                some (
                  addr,
                  (record { id0 = id0; id1 = 0 }),
                  new_writer (record { id0 = id0; id1 = label }) m,
                ),
                counted m tabled,
              )
        ]
  ]

  -- `add_to_sender_queue` of either kind.
  unfoldable pub enqueue_writer : NewWriter Factor → NewWriter Factor × List Effect
  enqueue_writer (simple w) =
      let (queued, effects) = add_to_sender_queue w.base in
      (simple (record w { base = queued }), effects)
  enqueue_writer (complex w) =
      let (queued, effects) = add_to_sender_queue w.base in
      (complex (record w { writer = record w.writer { base = queued } }), effects)

  -- `connection::start_sender` from its `if` on: the slot that it reads the writer from holds this one.
  unfoldable pub queue_made :
      Option (ℕ × ConnectionId × NewWriter Factor) × Senders
      → Option (ℕ × ConnectionId × NewWriter Factor × List Effect) × Senders
  queue_made (none, after) = (none, after)
  queue_made (some (addr, id, w), after) =
      let (queued, effects) = enqueue_writer w in (some (addr, id, queued, effects), after)

  -- `connection::start_sender`
  unfoldable pub start_sender :
      Option ℕ
      → Clock
      → Submission
      → Senders
      → Option (ℕ × ConnectionId × NewWriter Factor × List Effect) × Senders
  start_sender writer now m s = queue_made (make_sender writer now m s)

-- `message_node`, with its address; the bytes stand at `source_data`, and a handler is a name.
pub record MessageNode : Type 0 where
  pub node : ℕ
  pub source_data : ℕ
  pub source_bytes : List ℕ
  pub source_data_length : ℕ
  pub delete_after_send : Bool
  pub send_handle : Option ℕ

-- How the loop of `connection::start_link_send` ends: without memory, and then the copies stay behind, at a
-- write through the null pointer that an empty chain leaves, or with the copies and the total length.
pub data LinkCopy : Type 0 where
  no_memory : List MessageNode → LinkCopy
  null_write : LinkCopy
  copied : List MessageNode → ℕ → LinkCopy

abbrev pub link_end : List MessageNode → ℕ → LinkCopy
link_end [] total = null_write
link_end (n ∷ copies) total = copied (n ∷ copies) total

-- The loop, where `malloc` gives a copy by its place in the chain.
unfoldable pub link_loop : (ℕ → Option ℕ) → List MessageNode → List MessageNode → ℕ → LinkCopy
link_loop malloc [] done total = link_end done total
link_loop malloc (n ∷ rest) done total = elim (malloc (length done)) [
  | none ↦ no_memory done
  | some temp_node ↦
      link_loop malloc rest (done ++ (record n { node = temp_node } ∷ []))
        (u32 (total + n.source_data_length))
]

unfoldable pub chain_bytes : List MessageNode → List ℕ
chain_bytes [] = []
chain_bytes (n ∷ rest) = n.source_bytes ++ chain_bytes rest

-- `connection::start_link_send`; the inner option is the result of `start_sender`, and the outer one is
-- `none` for the null pointer. Without memory the result is -1 as well.
unfoldable pub start_link_send :
    {Factor : Type 0}
    → FactorOps Factor
    → (ℕ → Option ℕ)
    → List MessageNode
    → Option ℕ
    → Clock
    → ℕ
    → ℕ
    → Senders
    → Option (Option (ℕ × ConnectionId × NewWriter Factor × List Effect) × Senders)
start_link_send ops malloc msg_node writer now default_ssthresh max_window_size s =
    elim (link_loop malloc msg_node [] 0) [
      | no_memory behind ↦ some (none, s)
      | null_write ↦ none
      | copied nodes total ↦ some (
          start_sender ops writer now
            (record {
              block = chain_bytes nodes;
              block_length = total;
              default_ssthresh = default_ssthresh;
              max_window_size = max_window_size;
            })
            s)
    ]
