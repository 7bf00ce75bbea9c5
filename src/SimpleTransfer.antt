-- ===== src/SimpleTransfer.antt =====
-- A simple transfer from end to end: the writer and the reader of
-- hds_udp/connection/HDS_UDP_Simple_Connection.cpp, joined by a network that may lose, repeat and
-- reorder packets, with timers that may fire at any time. It is one transfer with one reader. Another would be
-- started by a plain require packet that comes again, which `filter_data` hands to `start_recver`, and by a
-- duplicate that comes when the reader has left `Recv_Wait_Ack_Queue`; these arrivals are not steps.
pub mod Chunks
pub mod WriterFrame
pub mod ReaderFrame
pub mod Invariant
pub mod Delivery
use test_resend.Prelude.{
  ℕ, ◌+◌, ◌*◌, ◌%◌, ◌≤◌, ◌<◌, ◌^◌, ◌≡◌, ◌⊎◌, ◌==◌, if◌then◌else◌, Bool, true, false, List, [], ◌∷◌,
  ◌++◌, length, replicate,
}
use test_resend.Prelude.Int.{pos}
use test_resend.Config.{connection_default_rto, packet_max_data_length}
use test_resend.Wire.{ConnectionId}
use test_resend.Connection.{
  Connection, Effect, Packet, MsgType, simple_file_require, simple_file_require_duplicate,
  simple_file_data, simple_file_ack, TimerType, TransResultCode, unset, kernel_send, push_msg,
}
use test_resend.Writer.{Writer}
use test_resend.SimpleReader.{SimpleReader, reply}
use test_resend.SimpleWriter
use test_resend.SimpleReader

-- The packets that a handler sends, and the messages that it delivers to the application.
abbrev pub packets : List Effect → List Packet
packets [] = []
packets (kernel_send p ∷ es) = p ∷ packets es
packets (_ ∷ es) = packets es

abbrev pub deliveries : List Effect → List (List ℕ)
deliveries [] = []
deliveries (push_msg bytes ∷ es) = bytes ∷ deliveries es
deliveries (_ ∷ es) = deliveries es

-- A require packet carries the length in `dt_note` and is handled at `seq` 0.
unfoldable pub seq_of_kind : MsgType → ℕ → ℕ
seq_of_kind simple_file_require dt_note = 0
seq_of_kind simple_file_require_duplicate dt_note = 0
seq_of_kind _ dt_note = dt_note

abbrev pub seq_of : Packet → ℕ
seq_of p = seq_of_kind p.msgtype p.dt_note

-- `connection_do_require_duplicate` for a reader that still waits in `Recv_Wait_Ack_Queue`, when the
-- packet's id, label and address are the reader's.
unfoldable pub require_duplicate : ℕ → Connection → List Effect
require_duplicate send_time c =
    if c.left_window_cursor == packet_max_data_length
    then reply simple_file_ack send_time packet_max_data_length c ∷ []
    else []

-- Both ends, whether `start_recver` has run, every packet that was ever sent each way, and what was delivered, newest first.
pub record System : Type 0 where
  pub writer : Writer
  pub reader : SimpleReader
  pub started : Bool
  pub to_reader : List Packet
  pub to_writer : List Packet
  pub delivered : List (List ℕ)

-- `__start_sender` and `start_recver` for a message of these bytes.
abbrev pub fresh_connection : List ℕ → List ℕ → ConnectionId → Connection
fresh_connection bytes message id = record {
  con_id = id;
  running_count = 0;
  trans_result_code = unset;
  status = 0;
  transmit_buf = bytes;
  transmit_buf_length = length message;
  left_window_cursor = 0;
}

abbrev pub start : List ℕ → ConnectionId → ConnectionId → System
start message w r = record {
  writer = record {
    base = record (fresh_connection message message w) { status = 8 };
    rtt = record { srtt = pos 0; rttvar = pos 0; rto = pos connection_default_rto };
    try_time = 0;
  };
  reader = record {
    base = record (fresh_connection (replicate (length message) 0) message r) { status = 16 };
    memcpy_count = 0;
  };
  started = false;
  to_reader = [];
  to_writer = [];
  delivered = [];
}

-- What one step does; a packet that arrives stays in the network, since it may arrive again.
abbrev pub writer_acts : System → Writer × List Effect → System
writer_acts s (w, es) = record s { writer = w; to_reader = packets es ++ s.to_reader }

abbrev pub reader_acts : System → SimpleReader × List Effect → System
reader_acts s (r, es) = record s {
  reader = r;
  to_writer = packets es ++ s.to_writer;
  delivered = deliveries es ++ s.delivered;
}

pub data Step (s : System) : System → Type 0 where
  send : (clock : ℕ) → Step s (writer_acts s (SimpleWriter.do_send clock s.writer))
  writer_timer :
      (type : TimerType) (running_count : ℕ)
      → Step s (writer_acts s (SimpleWriter.do_time_out type running_count s.writer))
  reader_timer :
      (type : TimerType) (running_count : ℕ)
      → Step s (reader_acts s (SimpleReader.do_time_out type running_count s.reader))
  -- The first require packet: `start_recver`, which hands it to the reader.
  open_reader :
      (before after : List Packet) (p : Packet)
      → s.to_reader ≡ before ++ (p ∷ after)
      → (p.msgtype ≡ simple_file_require) ⊎ (p.msgtype ≡ simple_file_require_duplicate)
      → s.started ≡ false
      → Step s
          (record (reader_acts s (SimpleReader.do_network_data 0 p.send_time p.payload s.reader)) {
            started = true;
          })
  repeat :
      (before after : List Packet) (p : Packet)
      → s.to_reader ≡ before ++ (p ∷ after)
      → p.msgtype ≡ simple_file_require_duplicate
      → s.started ≡ true
      → Step s (reader_acts s (s.reader, require_duplicate p.send_time s.reader.base))
  arrive :
      (before after : List Packet) (p : Packet)
      → s.to_reader ≡ before ++ (p ∷ after)
      → p.msgtype ≡ simple_file_data
      → s.started ≡ true
      → Step s
          (reader_acts s (SimpleReader.do_network_data p.dt_note p.send_time p.payload s.reader))
  answer :
      (before after : List Packet) (p : Packet) (clock : ℕ)
      → s.to_writer ≡ before ++ (p ∷ after)
      → p.msgtype ≡ simple_file_ack
      → Step s (writer_acts s (SimpleWriter.do_network_data clock p.dt_note p.send_time s.writer))

pub data Reach (s : System) : System → Type 0 where
  here : Reach s s
  next : {t u : System} → Reach s t → Step t u → Reach s u
