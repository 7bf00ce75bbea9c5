-- ===== src/Tests/Complex.antt =====
-- A message of one byte that reaches the reader of
-- hds_udp/connection/HDS_UDP_Complex_Connection.cpp.
use test_resend.Prelude.{
  ℕ, ◌*◌, ◌<◌, ◌^◌, ◌≡◌, ◌⊎◌, refl, arith, List, [], ◌∷◌, length, replicate, some,
}
use test_resend.Prelude.Int.{pos}
use test_resend.Prelude.Digits.{bit_clear}
use test_resend.Atomic.{bit_test, bit_test_and_set, bit_test_and_reset}
use test_resend.Wire.{ConnectionId}
use test_resend.Connection.{
  Effect, recver_ack_timer, recver_succ_timer, trans_successfully, test_status, set_status,
  reset_status, memcpy_at, add_timer, push_msg, kernel_send, complex_file_ack,
}
use test_resend.AckCollector.{
  set_seq, set_pos, raise_max_seq, record_arrival, get_next_ack, get_next_ack_pos, advance, ack_of,
  bitmap_test_and_set, bitmap_test_and_reset,
}
use test_resend.Writer.{count_run}
use test_resend.SimpleTransfer.Chunks.{chunk}
use test_resend.ComplexReader.{
  ComplexReader, store, send_ack, ack_kind, after_ack, ack_timer, succ_timer, do_time_out,
  do_network_data,
}
use test_resend.ComplexReader.Invariant.{State, acts}
use test_resend.ComplexReader.Delivery.{
  start, packet, time_out, Reach, here, next, complex_delivered_once,
}

abbrev complex_id : ConnectionId
complex_id = record { id0 = 17; id1 = 34 }

abbrev letter : List ℕ
letter = 7 ∷ []

abbrev opened : State
opened = start letter complex_id

-- With the packet.
abbrev filled : ComplexReader
filled = record {
  base = record opened.reader.base { running_count = 1; transmit_buf = letter };
  collector = record opened.reader.collector {
    bitmap = 1 ∷ replicate 47 0;
    ack_time = 5000;
    last_recv_time = 5000;
  };
}

takes_letter :
    do_network_data (0 * 1452) 5000 (chunk letter (0 * 1452)) opened.reader ≡ some (filled, [])
unfolding do_network_data test_status bit_test set_seq set_pos raise_max_seq record_arrival
    bitmap_test_and_set bit_test_and_set store count_run memcpy_at
takes_letter = refl

abbrev one_in : State
one_in = acts opened (filled, [])

-- After the timer that acknowledges.
abbrev answered : ComplexReader
answered = record {
  base = record filled.base { status = 48; trans_result_code = trans_successfully };
  collector = record filled.collector { bitmap = replicate 48 0; last_ack_pos = 1; ack_time = 0 };
}

abbrev answer : List Effect
answer =
    kernel_send (record {
      msgtype = complex_file_ack;
      con_id = complex_id;
      send_time = 5000;
      dt_note = 1452;
      payload = [];
    })
    ∷ add_timer (pos 100) recver_succ_timer 1
    ∷ []

acks_letter : do_time_out recver_ack_timer 0 one_in.reader ≡ some (answered, answer)
unfolding do_time_out ack_timer send_ack ack_kind after_ack test_status bit_test set_status
    reset_status bit_test_and_set bit_test_and_reset bit_clear get_next_ack get_next_ack_pos advance
    bitmap_test_and_reset ack_of
acks_letter = refl

abbrev all_in : State
all_in = acts one_in (answered, answer)

abbrev finished : ComplexReader
finished = record answered { base = record answered.base { status = 49 } }

delivers_letter :
    do_time_out recver_succ_timer 1 all_in.reader ≡ some (finished, push_msg letter ∷ [])
unfolding do_time_out succ_timer set_status bit_test_and_set
delivers_letter = refl

abbrev ended : State
ended = acts all_in (finished, push_msg letter ∷ [])

complex_run : Reach letter opened ended
complex_run =
    next
      (next (next here (packet 0 5000 (omega arith) takes_letter))
        (time_out recver_ack_timer 0 (λ e. cc) acks_letter))
      (time_out recver_succ_timer 1 (λ _. refl) delivers_letter)

short : length letter < 2 ^ 32
short = omega arith

complex_delivered_once_example : (ended.delivered ≡ []) ⊎ (ended.delivered ≡ letter ∷ [])
complex_delivered_once_example = complex_delivered_once letter short complex_id ended complex_run
