-- ===== src/Tests/Receiving.antt =====
-- A require packet that comes twice, and the data packet behind it, for the readers of
-- hds_udp/connection/HDS_UDP_Connection.cpp.
use test_resend.Prelude.{ℕ, ◌≡◌, refl, Bool, true, false, [], ◌∷◌, some}
use test_resend.Config.{packet_max_data_length}
use test_resend.Atomic.{bit_test}
use test_resend.Wire.{ConnectionId}
use test_resend.Connection.{
  simple_file_require, simple_file_require_duplicate, simple_file_data, unset,
  in_recv_wait_ack_queue_bit, test_status,
}
use test_resend.HpMap.Erase.Removing.{remove_entry}
use test_resend.RecvWaitQueue.{wait_key}
use test_resend.Table.{live, get_connection, network_target}
use test_resend.Starting.{RecvBufType, pool_space, Receiver, Start, started, start_recver}
use test_resend.Receiving.{Peer, require_duplicate, network_data}
use test_resend.Receiving.Duplicates.{Justified, require_duplicate-Justified}
use test_resend.Receiving.Leaving.{Handed, second_data-Handed}
use test_resend.Tests.Starting.{nobody, calls, first_id}

-- The parts of a start, with a default for the other ends.
abbrev parts : Start → ℕ × ℕ × RecvBufType × Bool × Receiver
parts (started reader buf type ack r) = (reader, buf, type, ack, r)
parts _ = (0, 0, pool_space, false, nobody)

abbrev reader_there : ℕ × ℕ × RecvBufType × Bool × Receiver
reader_there = parts (start_recver simple_file_require first_id 3 calls nobody)

abbrev peer : Peer
peer = record {
  base = record {
    con_id = record { id0 = 1048581; id1 = 34 };
    running_count = 0;
    trans_result_code = unset;
    status = 16;
    transmit_buf = [];
    transmit_buf_length = 3;
    left_window_cursor = 1452;
  };
  require_duplicate_label = 17;
  remote_addr = λ i. i;
}

-- The receiver when the reader has left the queue.
abbrev after_leaving : Receiver
after_leaving = record reader_there.4 {
  waiting = remove_entry (wait_key first_id) reader_there.4.waiting;
}

abbrev one_waits : Receiver
one_waits = record {
  table = record { cid_array = λ _. live 4096; cid_array_offset = 6; verification_actor = 2 };
  waiting = (wait_key first_id, 5) ∷ [];
  reader_count = 1;
}

require_duplicate-Justified_example :
    Justified simple_file_require_duplicate first_id 9
      (λ i. i)
      16
      (λ _. peer)
      one_waits
      (require_duplicate simple_file_require_duplicate first_id 9 3
        (λ i. i)
        16
        calls
        (λ _. peer)
        one_waits)
require_duplicate-Justified_example =
    require_duplicate-Justified simple_file_require_duplicate first_id 9 3 (λ i. i) 16 calls
      (λ _. peer) one_waits

abbrev data_id : ConnectionId
data_id = record { id0 = 1048581; id1 = 34 }

reaches : network_target (λ _. peer.base) 1048581 one_waits.table ≡ some 4096
unfolding network_target get_connection
reaches = refl

waits : test_status in_recv_wait_ack_queue_bit peer.base ≡ true
unfolding test_status bit_test
waits = refl

second_data-Handed_example :
    Handed first_id 4096 one_waits
      (network_data simple_file_data data_id packet_max_data_length (λ _. peer) one_waits)
second_data-Handed_example =
    second_data-Handed simple_file_data data_id first_id (λ _. peer) 4096 one_waits refl (tt, tt)
      reaches waits refl refl
