-- ===== src/TimerWheel/Bounds.antt =====
-- Where `add_timer` of hds_udp/common/HDS_Timer_Wheel.cpp writes.
use test_resend.Prelude.{
  ℕ, ◌+◌, ◌/◌, ◌^◌, ◌<◌, ◌≤◌, ◌≡◌, refl, inl, inr, arith, ◌==◌, ltb, leb, true, false, Bool-cases,
}
use test_resend.TimerWheel.{
  TimerNode, TimerWheel, Added, refused, out_of_bounds, added, wake, add_to_slot, add_timer,
}

-- A timer that is stored.
abbrev pub IsStored : ℕ → Added → Type 0
IsStored total refused = true ≡ false
IsStored total out_of_bounds = true ≡ false
IsStored total (added w thread) = w.total_timer_count ≡ total + 1

wake-IsStored :
    (total : ℕ) (w : TimerWheel) → w.total_timer_count ≡ total + 1 → IsStored total (wake w)
unfolding wake
wake-IsStored total w e = e

add_to_slot-IsStored :
    (slot_num total : ℕ) (node : TimerNode) (w : TimerWheel)
    → slot_num < 65536
    → w.total_timer_count ≡ total + 1
    → IsStored total (add_to_slot slot_num node w)
unfolding add_to_slot
add_to_slot-IsStored slot_num total node w h e =
    let far : leb 65536 slot_num ≡ false = ground (arith, h) in
    elim (Bool-cases (w.total_timer_count == 1)) [
      | inl c ↦ rw (far, c) (wake-IsStored total _ e)
      | inr c ↦ rw (far, c) e
    ]

past_slots :
    (slot_num : ℕ) (node : TimerNode) (w : TimerWheel)
    → 65536 ≤ slot_num
    → add_to_slot slot_num node w ≡ out_of_bounds
unfolding add_to_slot
past_slots slot_num node w h =
    let far : leb 65536 slot_num ≡ true = ground (arith, h) in rw (far, add_to_slot) refl

-- A wheel that runs, with a slot inside the array and a node that the pool gives, takes a timer of at most
-- 0x0fffffff milliseconds that are not negative, and counts it, if it is due before the 32 bits of the clock end;
-- one that is due later is written past the array of the slots.
pub add_timer_lem :
    (clock due_time parm : ℕ) (w : TimerWheel)
    → w.hexit ≡ false
    → due_time ≤ 0x0fffffff
    → w.slot_cursor < 65536
    → (due_time + clock < 2 ^ 32 → IsStored w.total_timer_count (add_timer clock due_time parm w))
      × (2 ^ 32 ≤ due_time + clock → add_timer clock due_time parm w ≡ out_of_bounds)
unfolding add_timer
add_timer_lem clock due_time parm w runs due inside =
    let ok : ltb 0x0fffffff due_time ≡ false = ground (arith, due) in
    (
      λ h.
          let small : (due_time + clock) / 65536 < 65536 = omega (arith, h) in
          elim (Bool-cases ((due_time + clock) / 65536 == w.slot_cursor)) [
            | inl e ↦ elim (Bool-cases (ltb w.current_nearly_array_cursor 65536)) [
              | inl f ↦ rw (runs, ok, e, f, add_timer) (wake-IsStored w.total_timer_count _ refl)
              | inr f ↦
                  rw (runs, ok, e, f, add_timer)
                    (add_to_slot-IsStored ((due_time + clock) / 65536) w.total_timer_count _ _ small
                      refl)
            ]
            | inr e ↦
                rw (runs, ok, e, add_timer)
                  (add_to_slot-IsStored ((due_time + clock) / 65536) w.total_timer_count _ _ small
                    refl)
          ],
      λ h.
          let other : (((due_time + clock) / 65536 == w.slot_cursor) ≡ false) =
            ground (arith, h, inside) in
          rw (runs, ok, other, add_timer)
            (past_slots ((due_time + clock) / 65536) _ _ (omega (arith, h))),
    )
