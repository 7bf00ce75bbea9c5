-- ===== src/Tests/Transfer.antt =====
-- A transfer of one byte by hds_udp/connection/HDS_UDP_Simple_Connection.cpp.
use test_resend.Prelude.{
  ℕ, ◌≤◌, ◌<◌, ◌^◌, ◌≡◌, ◌⊎◌, inl, true, refl, arith, List, [], ◌∷◌, ◌++◌, length, take,
}
use test_resend.Atomic.{bit_test, bit_test_and_set}
use test_resend.Wire.{ConnectionId}
use test_resend.Connection.{
  Packet, simple_file_require, simple_file_ack, test_status, set_status, fill_data, copy_size,
  last_byte, memcpy_at, suspend,
}
use test_resend.Writer.{count_run}
use test_resend.SimpleWriter.{do_send, send_packet, packet_kind, acknowledged}
use test_resend.SimpleTransfer.{
  System, send, open_reader, answer, seq_of_kind, Reach, here, next, start, writer_acts,
  reader_acts,
}
use test_resend.SimpleReader.{take_packet, deliver, complete}
use test_resend.SimpleReader
use test_resend.SimpleWriter
use test_resend.Cursor.{exchange_loop, set_left_window_cursor}
use test_resend.SimpleTransfer.Delivery.{delivered_once, prefix_held, acknowledged_means_held}

abbrev id : ConnectionId
id = record { id0 = 17; id1 = 34 }

abbrev message : List ℕ
message = 7 ∷ []

abbrev begun : System
begun = start message id id

abbrev sent : System
sent = writer_acts begun (do_send 5000 begun.writer)

abbrev packet : Packet
packet = record {
  msgtype = simple_file_require;
  con_id = id;
  send_time = 5000;
  dt_note = 1;
  payload = 7 ∷ [];
}

sent_packet : sent.to_reader ≡ [] ++ (packet ∷ [])
unfolding do_send send_packet packet_kind test_status set_status fill_data copy_size count_run
    bit_test bit_test_and_set
sent_packet = refl

abbrev received : System
received =
    record (reader_acts sent
      (test_resend.SimpleReader.do_network_data 0 packet.send_time packet.payload sent.reader)) {
        started = true;
      }

abbrev ack : Packet
ack = record {
  msgtype = simple_file_ack;
  con_id = id;
  send_time = 5000;
  dt_note = 1452;
  payload = [];
}

received_ack : received.to_writer ≡ [] ++ (ack ∷ [])
unfolding do_send send_packet packet_kind test_status set_status fill_data copy_size count_run
    bit_test bit_test_and_set test_resend.SimpleReader.do_network_data take_packet deliver complete
    memcpy_at seq_of_kind
received_ack = refl

abbrev acked : System
acked =
    writer_acts received
      (test_resend.SimpleWriter.do_network_data 5100 ack.dt_note ack.send_time received.writer)

run : Reach begun acked
run =
    next (next (next here (send 5000)) (open_reader [] [] packet sent_packet (inl refl) refl))
      (answer [] [] ack 5100 received_ack refl)

positive : 0 < length message
positive = omega arith

small : length message < 2 ^ 31
small = omega arith

delivered_once_example : (acked.delivered ≡ []) ⊎ (acked.delivered ≡ message ∷ [])
delivered_once_example = delivered_once message positive small id id acked run

prefix_held_example :
    (take acked.reader.left_window_cursor acked.reader.transmit_buf
      ≡ take acked.reader.left_window_cursor message)
    × (acked.writer.left_window_cursor ≤ acked.reader.left_window_cursor)
prefix_held_example = prefix_held message positive small id id acked run

past : last_byte acked.writer.base < acked.writer.left_window_cursor
unfolding do_send send_packet packet_kind test_status set_status fill_data copy_size count_run
    bit_test bit_test_and_set test_resend.SimpleWriter.do_network_data acknowledged suspend
    set_left_window_cursor exchange_loop
past = omega arith

acknowledged_means_held_example : acked.reader.transmit_buf ≡ message
acknowledged_means_held_example =
    acknowledged_means_held message positive small id id acked run past
