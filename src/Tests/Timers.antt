-- ===== src/Tests/Timers.antt =====
-- A timer wheel of hds_udp/common/HDS_Timer_Wheel.cpp with one timer, due at 5000.
use test_resend.Prelude.{
  ℕ, ◌+◌, ◌*◌, ◌^◌, ◌≤◌, ◌<◌, ◌≡◌, refl, arith, ◌==◌, if◌then◌else◌, false, [], ◌∷◌, inl, inr,
  Bool-cases,
}
use test_resend.TimerWheel.{TimerNode, TimerWheel, out_of_bounds, add_timer, expire}
use test_resend.TimerWheel.Bounds.{IsStored, add_timer_lem}
use test_resend.TimerWheel.Places.{AllBy, Placed, IsDue}
use test_resend.TimerWheel.Early.{expire-IsDue}
use test_resend.TimerWheel.Keeping.{Returns, expire-Returns}

abbrev only : TimerNode
only = record { expers_time = 5000; parm = 1 }

abbrev one_timer : TimerWheel
one_timer = record {
  nearly_array = λ b. if b == 5000 then only ∷ [] else [];
  slot_array = λ _. [];
  current_nearly_array_cursor = 0;
  current_nearly_array_timer_count = 1;
  total_timer_count = 1;
  slot_cursor = 0;
  thread_count = 2;
  wait_up_thread_cursor = 0;
  hexit = false;
}

only_near : (b : ℕ) → AllBy (0 * 65536 + b) (one_timer.nearly_array b)
only_near b = elim (Bool-cases (b == 5000)) [
  | inl e ↦ rw e (ground (arith, e), tt)
  | inr e ↦ rw e tt
]

one_timer-Placed : Placed one_timer
one_timer-Placed = record { near = only_near; far = λ _. tt }

add_timer_lem_example :
    (200 + 4000 < 2 ^ 32 → IsStored 1 (add_timer 4000 200 7 one_timer))
    × (2 ^ 32 ≤ 200 + 4000 → add_timer 4000 200 7 one_timer ≡ out_of_bounds)
add_timer_lem_example = add_timer_lem 4000 200 7 one_timer refl (omega arith) (omega arith)

expire-IsDue_example : IsDue 6000 (expire 65536 6000 one_timer)
expire-IsDue_example =
    expire-IsDue 65536 6000 one_timer (omega arith) (omega arith) (omega arith) (omega arith)
      one_timer-Placed

expire-Returns_example : Returns (expire 65536 6000 one_timer)
expire-Returns_example = expire-Returns 6000 one_timer
