-- ===== src/Tests/Submitting.antt =====
-- Messages that hds_udp/connection/HDS_UDP_Connection.cpp takes from the application and gives back.
use test_resend.Prelude.{
  ℕ, ◌/◌, ◌*◌, ◌+◌, min, replicate, arith, true, false, List, [], ◌∷◌, none, some,
}
use test_resend.Connection.{trans_successfully}
use test_resend.ComplexWriter.{FactorOps}
use test_resend.Table.{empty}
use test_resend.Submitting.{Submission, Senders, Clock, start_sender, MessageNode}
use test_resend.Submitting.Outcome.{WithinBound, Started, start_sender_lem}
use test_resend.Cleaning.{SentData, writer_clean}
use test_resend.Cleaning.Once.{AskedOf, writer_clean_lem}

abbrev percent : FactorOps ℕ
percent = record {
  one = 100;
  halve = λ f. f / 2;
  raise = λ f. min 100 (f + 5);
  scale = λ f n. f * n / 100;
}

abbrev message : Submission
message = record {
  block = replicate 30000 7;
  block_length = 30000;
  default_ssthresh = 92928;
  max_window_size = 65536;
}

abbrev no_senders : Senders
no_senders = record {
  table = record { cid_array = λ _. empty; cid_array_offset = 5; verification_actor = 1 };
  simple_writer_count = 0;
  complex_writer_count = 0;
}

abbrev noon : Clock
noon = record { tv_sec = 43200; tv_usec = 500000 }

within : WithinBound 100000 message
within = record {
  packet = omega arith;
  wide = omega arith;
  ssthresh_ge = omega arith;
  ssthresh_le = omega arith;
  window_le = omega arith;
}

start_sender_lem_example :
    Started percent 100000 4096 message no_senders
      (start_sender percent (some 4096) noon message no_senders)
start_sender_lem_example =
    start_sender_lem percent 100000 4096 noon message no_senders (omega arith) within

abbrev chain : List MessageNode
chain =
    record {
      node = 64;
      source_data = 1000;
      source_bytes = 1 ∷ 2 ∷ [];
      source_data_length = 2;
      delete_after_send = true;
      send_handle = some 5;
    }
    ∷ record {
      node = 128;
      source_data = 2000;
      source_bytes = 3 ∷ [];
      source_data_length = 1;
      delete_after_send = false;
      send_handle = none;
    }
    ∷ []

abbrev sent : SentData
sent = record {
  trans_message_node = chain;
  transmit_buf = 0;
  ace_transmit_block = none;
  sended_handle = none;
  delete_after_send = true;
}

writer_clean_lem_example : AskedOf sent chain (writer_clean trans_successfully sent)
writer_clean_lem_example = writer_clean_lem trans_successfully sent
