-- ===== src/Tests/Collector.antt =====
-- The collector of hds_udp/connection/HDS_UDP_Connection_Ack_Info_Collector.cpp with packet 0.
use test_resend.Prelude.{
  ℕ, ◌-◌, ◌^◌, ◌%◌, ◌/◌, ◌≤◌, ◌<◌, ◌≡◌, refl, arith, Bool, false, ◌∷◌, replicate, Option, some,
}
use test_resend.Prelude.Int.{ℤ}
use test_resend.Prelude.Digits.{bit_clear}
use test_resend.Atomic.{bit_test_and_set, bit_test_and_reset}
use test_resend.AckCollector.{
  AckInfoCollector, AckType, ack, sack, init, set_seq, record_arrival, get_next_ack,
  get_next_ack_pos, advance, bitmap_test_and_set, bitmap_test_and_reset, ack_of,
}
use test_resend.AckCollector.Repr.{Represents, init-Represents}
use test_resend.AckCollector.Refine.{
  insert, arrived, arrival-Represents, SetOutcome, set_seq_refines,
}
use test_resend.AckCollector.Ack.{seq_at, time_of, get_next_ack_refines}

abbrev none_arrived : ℕ → Bool
none_arrived p = false

-- After packet 0, at time 5000.
abbrev one : AckInfoCollector
one = (record_arrival 0 5000 init).1

one-Represents : Represents (insert 0 none_arrived) one
unfolding arrived
one-Represents = arrival-Represents init-Represents 0 5000 (omega arith) (omega arith) (omega arith)

set_seq_refines_example :
    (r : Option ℤ × AckInfoCollector) × (set_seq 1452 5000 one ≡ some r)
    × SetOutcome (insert 0 none_arrived) (1452 / 1452) r
set_seq_refines_example = set_seq_refines 1452 5000 one-Represents (omega arith)

get_next_ack_refines_example :
    (type : AckType) × (c' : AckInfoCollector) × (get_next_ack one
      ≡ some (type, seq_at c', time_of one, c'))
    × Represents (insert 0 none_arrived) c'
    × (insert 0 none_arrived c'.last_ack_pos ≡ false)
    × (one.last_ack_pos ≤ c'.last_ack_pos)
    × (c'.ack_time ≡ 0)
get_next_ack_refines_example = get_next_ack_refines one-Represents

abbrev after : AckInfoCollector
after = record {
  bitmap = replicate 48 0;
  last_ack_pos = 1;
  max_seq = 0;
  ack_time = 0;
  last_recv_time = 5000;
}

one-ack : get_next_ack one ≡ some (ack, 1452, 5000, after)
unfolding get_next_ack get_next_ack_pos advance record_arrival bitmap_test_and_set
    bitmap_test_and_reset ack_of bit_test_and_set bit_test_and_reset bit_clear
one-ack = refl

room : one.max_seq < 2 ^ 32 - 1452
unfolding record_arrival
room = omega arith

-- Packet 1 and not packet 0.
abbrev announced : AckInfoCollector
announced = record init { max_seq = 1452 }

announced-Represents : Represents none_arrived announced
announced-Represents = record {
  sized = init-Represents.sized;
  below = init-Represents.below;
  window = init-Represents.window;
  above = init-Represents.above;
  top = λ p h. cc;
  word = omega arith;
}

abbrev second : AckInfoCollector
second = (record_arrival 1 5000 announced).1

second-Represents : Represents (insert 1 none_arrived) second
unfolding arrived
second-Represents =
    arrival-Represents announced-Represents 1 5000 (omega arith) (omega arith) (omega arith)

abbrev waiting : AckInfoCollector
waiting = record {
  bitmap = 2 ∷ replicate 47 0;
  last_ack_pos = 0;
  max_seq = 1452;
  ack_time = 0;
  last_recv_time = 5000;
}

second_sack : get_next_ack second ≡ some (sack, 0, 5000, waiting)
unfolding get_next_ack get_next_ack_pos advance record_arrival bitmap_test_and_set
    bitmap_test_and_reset ack_of bit_test_and_set bit_test_and_reset bit_clear
second_sack = refl

second_room : second.max_seq < 2 ^ 32 - 1452
unfolding record_arrival
second_room = omega arith

second_aligned : second.max_seq % 1452 ≡ 0
unfolding record_arrival
second_aligned = omega arith
