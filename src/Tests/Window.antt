-- ===== src/Tests/Window.antt =====
-- A message of three bytes, sent once, of the complex writer of
-- hds_udp/connection/HDS_UDP_Complex_Connection.cpp, with a window factor in percent.
use test_resend.Prelude.{ℕ, ◌+◌, ◌*◌, ◌/◌, min, ◌≡◌, refl, arith, false, [], ◌∷◌}
use test_resend.Prelude.Int.{pos}
use test_resend.Atomic.{bit_test}
use test_resend.Connection.{unset, TimerType, sender_keeping_timer, test_status}
use test_resend.ComplexWriter.{FactorOps, ComplexWriter, do_time_out, do_send, do_network_data}
use test_resend.ComplexWriter.Window.{WindowSized, handlers-WindowSized}
use test_resend.ComplexWriter.Sending.{IsBurst, do_send-IsBurst}
use test_resend.ComplexWriter.Retransmit.{StartsAt, time_out_retransmits}

abbrev percent : FactorOps ℕ
percent = record {
  one = 100;
  halve = λ f. f / 2;
  raise = λ f. min 100 (f + 5);
  scale = λ f n. f * n / 100;
}

abbrev once_sent : ComplexWriter ℕ
once_sent = record {
  writer = record {
    base = record {
      con_id = record { id0 = 17; id1 = 34 };
      running_count = 1;
      trans_result_code = unset;
      status = 128;
      transmit_buf = 7 ∷ 8 ∷ 9 ∷ [];
      transmit_buf_length = 3;
      left_window_cursor = 0;
    };
    rtt = record { srtt = pos 0; rttvar = pos 0; rto = pos 3000 };
    try_time = 0;
  };
  current_window_cursor = 1452;
  old_current_window_cursor = 0;
  right_window_cursor = 1452;
  window_site = 1452;
  window_ssthresh = 92928;
  default_window_size = 200000;
  sack_seq = 0;
  ack_seq_window_increase_factor = 100;
  sack_same_count = 0;
}

once_sent-Sized : WindowSized percent 200000 once_sent
once_sent-Sized = record {
  packet = omega arith;
  wide = omega arith;
  default_le = omega arith;
  site_ge = omega arith;
  ssthresh_ge = omega arith;
  site_le = omega arith;
  ssthresh_le = omega arith;
  slow_start = λ _. omega arith;
}

handlers-WindowSized_example :
    ((type : TimerType) (running_count : ℕ)
      → WindowSized percent 200000 (do_time_out percent type running_count once_sent).0)
    × ((clock : ℕ → ℕ) → WindowSized percent 200000 (do_send percent clock once_sent).0)
    × ((con_clock seq send_time : ℕ)
        → WindowSized percent 200000 (do_network_data percent con_clock seq send_time once_sent).0)
handlers-WindowSized_example = handlers-WindowSized percent 200000 once_sent once_sent-Sized

runs_on : test_status 2 once_sent.base ≡ false
unfolding test_status bit_test
runs_on = refl

unlocked : test_status 10 once_sent.base ≡ false
unfolding test_status bit_test
unlocked = refl

no_new_ack : test_status 12 once_sent.base ≡ false
unfolding test_status bit_test
no_new_ack = refl

do_send-IsBurst_example : IsBurst 16 once_sent.base (do_send percent (λ _. 5000) once_sent).1
do_send-IsBurst_example = do_send-IsBurst percent (λ _. 5000) once_sent runs_on

time_out_retransmits_example :
    StartsAt 0 once_sent.base
      (do_send percent (λ _. 5000) (do_time_out percent sender_keeping_timer 1 once_sent).0).1
time_out_retransmits_example =
    time_out_retransmits percent (λ _. 5000) once_sent refl unlocked runs_on no_new_ack
      (omega arith) (omega arith) (omega arith)
