-- ===== src/TimerWheel/Keeping.antt =====
-- The places of new timers, and the loop of `expire`, of hds_udp/common/HDS_Timer_Wheel.cpp.
use test_resend.Prelude.{
  ℕ, zero, suc, ◌+◌, ◌-◌, ◌*◌, ◌%◌, ◌^◌, ◌<◌, ◌≤◌, ◌≡◌, ◌⊎◌, inl, inr, arith, ◌==◌, ltb→lt, true,
  false, Bool-cases,
}
use test_resend.Prelude.Words.{sub32}
use test_resend.TimerWheel.{
  TimerWheel, Expired, out_of_fuel, time_before_eq, scan, get_node_from_nearly_array, turn_to, turn,
  expire,
}
use test_resend.TimerWheel.Places.{list_cases}

abbrev pub Returns : Expired → Type 0
Returns out_of_fuel = true ≡ false
Returns _ = Unit {0}

scan-Returns : (rounds index : ℕ) (w : TimerWheel) → Returns (scan rounds index w)
unfolding scan
scan-Returns zero index w = tt
scan-Returns (suc rounds) index w =
    elim (list_cases (w.nearly_array w.current_nearly_array_cursor)) [
      | inl e ↦ rw (e, scan) (scan-Returns rounds index _)
      | inr (node, rest, e) ↦ rw (e, scan) tt
    ]

turn_to-Returns : (clock next : ℕ) (w : TimerWheel) → Returns (turn_to clock next w)
unfolding turn_to get_node_from_nearly_array
turn_to-Returns clock next w = scan-Returns _ _ _

-- How far the clock is past the slot after this one, on 32 bits.
abbrev ahead : ℕ → ℕ → ℕ
ahead clock previous = sub32 clock ((previous + 1) * 65536 % 2 ^ 32)

ahead_next :
    (clock previous : ℕ)
    → (65536 ≤ ahead clock previous) × (ahead clock (previous + 1) + 65536 ≡ ahead clock previous)
      ⊎ (ahead clock previous < 65536) × (2 ^ 31 ≤ ahead clock (previous + 1))
ahead_next clock previous = omega arith

before_near :
    (clock previous : ℕ)
    → time_before_eq ((previous + 1) * 65536) clock ≡ true
    → ahead clock previous < 2 ^ 31
unfolding time_before_eq
before_near clock previous e = ltb→lt _ _ e

-- The loop ends when the comparison fails, and it fails once the slots have passed the clock.
turn-Returns :
    (fuel clock previous : ℕ) (w : TimerWheel)
    → 0 < fuel
    → (ahead clock previous < fuel * 65536 - 65536) ⊎ (2 ^ 31 ≤ ahead clock previous)
    → Returns (turn fuel clock previous w)
unfolding turn
turn-Returns zero clock previous w g h = absurd (omega (arith, g))
turn-Returns (suc fuel) clock previous w g h =
    let next = previous + 1 in
    elim (Bool-cases (time_before_eq (next * 65536) clock)) [
      | inl e ↦
          let near : ahead clock previous < 2 ^ 31 = before_near clock previous e in
          let left : ahead clock previous < fuel * 65536 = left_of h near in
          elim (list_cases (w.slot_array next)) [
            | inl none_here ↦
                rw (e, none_here, turn)
                  (turn-Returns fuel clock next (record w { slot_cursor = next })
                    (omega (arith, left)) (later left))
            | inr (node, rest, some_here) ↦ rw (e, some_here, turn) (turn_to-Returns clock next w)
          ]
      | inr e ↦ rw (e, turn) tt
    ]
  where
    left_of :
        (ahead clock previous < suc fuel * 65536 - 65536) ⊎ (2 ^ 31 ≤ ahead clock previous)
        → ahead clock previous < 2 ^ 31
        → ahead clock previous < fuel * 65536
    left_of (inl l) n = omega (arith, l)
    left_of (inr f) n = absurd (omega (arith, f, n))

    later :
        ahead clock previous < fuel * 65536
        → (ahead clock (previous + 1) < fuel * 65536 - 65536)
          ⊎ (2 ^ 31 ≤ ahead clock (previous + 1))
    later l = elim (ahead_next clock previous) [
      | inl (m, q) ↦ inl (omega (arith, l, m, q))
      | inr (m, q) ↦ inr q
    ]

first_turn : (d : ℕ) → (d < 65536 * 65536 - 65536) ⊎ (2 ^ 31 ≤ d)
first_turn d = omega arith

-- `expire` ends within 65536 rounds of its loop over the slots, whatever the clock and the slots say: the
-- comparison on 32 bits fails before.
pub expire-Returns : (clock : ℕ) (w : TimerWheel) → Returns (expire 65536 clock w)
unfolding expire get_node_from_nearly_array
expire-Returns clock w = elim (Bool-cases (w.total_timer_count == 0)) [
  | inl none_left ↦ rw (none_left, expire) tt
  | inr some_left ↦ elim (Bool-cases (w.current_nearly_array_timer_count == 0)) [
    | inl far_only ↦ elim (Bool-cases (time_before_eq clock (w.slot_cursor * 65536 + 65535))) [
      | inl early ↦ rw (some_left, far_only, early, expire) tt
      | inr late ↦
          rw (some_left, far_only, late, expire)
            (turn-Returns 65536 clock w.slot_cursor _ (omega arith)
              (first_turn (ahead clock w.slot_cursor)))
    ]
    | inr near_some ↦ rw (some_left, near_some, expire) (scan-Returns _ _ w)
  ]
]
