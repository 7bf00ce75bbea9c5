-- ===== src/TimerWheel/Early.antt =====
-- When the timers of hds_udp/common/HDS_Timer_Wheel.cpp expire.
use mathlib.Core.Path.{subst}
use test_resend.Prelude.{
  ℕ, zero, suc, ◌+◌, ◌-◌, ◌*◌, ◌/◌, ◌%◌, ◌^◌, ◌<◌, ◌≤◌, ◌≡◌, refl, inl, inr, arith, ◌==◌, ltb,
  ltb→lt, not, Bool, true, false, Bool-cases, List, [], ◌∷◌,
}
use test_resend.Prelude.Words.{sub32}
use test_resend.TimerWheel.{
  TimerNode, TimerWheel, add_to_tail, replace, time_before_eq, time_after, scan,
  get_node_from_nearly_array, spread, turn_to, turn, expire,
}
use test_resend.TimerWheel.Places.{
  AllBy, AllIn, Placed, IsDue, replace-AllBy, add-AllBy, replace-AllIn, list_cases,
}

scan-IsDue :
    (rounds index time : ℕ) (w : TimerWheel)
    → rounds ≤ index + 1 - w.current_nearly_array_cursor
    → w.slot_cursor * 65536 + index ≤ time
    → Placed w
    → IsDue time (scan rounds index w)
unfolding scan
scan-IsDue zero index time w h t p = p
scan-IsDue (suc rounds) index time w h t p =
    let c = w.current_nearly_array_cursor in
    elim (list_cases (w.nearly_array c)) [
      | inl e ↦
          rw (e, scan)
            (scan-IsDue rounds index time (record w { current_nearly_array_cursor = c + 1 })
              (omega (arith, h)) t (record { near = p.near; far = p.far }))
      | inr (node, rest, e) ↦
          let due : AllBy (w.slot_cursor * 65536 + c) (node ∷ rest) =
            subst (λ l. AllBy (w.slot_cursor * 65536 + c) l) e (p.near c) in
          rw (e, scan)
            (
              omega (arith, due.0, h, t),
              record {
                near = replace-AllBy (w.slot_cursor * 65536) c rest w.nearly_array due.1 p.near;
                far = p.far;
              },
            )
    ]

-- The nodes of a slot go to buckets that end with their time.
record Spread (next : ℕ) (w v : TimerWheel) : Type 0 where
  pub near : (b : ℕ) → AllBy (next * 65536 + b) (v.nearly_array b)
  pub slots : v.slot_array ≡ w.slot_array
  pub cursor : v.current_nearly_array_cursor ≡ w.current_nearly_array_cursor

spread-Spread :
    (next : ℕ) (nodes : List TimerNode) (w : TimerWheel)
    → AllIn next nodes
    → ((b : ℕ) → AllBy (next * 65536 + b) (w.nearly_array b))
    → Spread next w (spread nodes w)
unfolding spread
spread-Spread next [] w h g = record { near = g; slots = refl; cursor = refl }
spread-Spread next (node ∷ nodes) w h g =
    let r =
      spread-Spread next nodes
        (record w {
          nearly_array = add_to_tail (node.expers_time % 65536) node w.nearly_array;
          current_nearly_array_timer_count = w.current_nearly_array_timer_count + 1;
        })
        h.1
        (add-AllBy (next * 65536) (node.expers_time % 65536) node w.nearly_array
          (omega (arith, h.0)) g) in
    record { near = r.near; slots = r.slots; cursor = r.cursor }

-- The comparisons on 32 bits, for times that are less than half of their range apart.
not-true : (b : Bool) → not b ≡ true → b ≡ false
not-true true e = cc
not-true false e = refl

not-false : (b : Bool) → not b ≡ false → b ≡ true
not-false true e = refl
not-false false e = cc

before_true :
    (a b : ℕ) → b < 2 ^ 32 → a ≤ b + 65536 → a < 2 ^ 32 + 65536 → time_before_eq a b ≡ true → a ≤ b
unfolding time_before_eq
before_true a b h near small e =
    omega (arith, h, near, small, ltb→lt (sub32 b (a % 2 ^ 32)) (2 ^ 31) e)

not_ltb : (a b : ℕ) → ltb a b ≡ false → b ≤ a
not_ltb a b e = ground arith

before_false : (a b : ℕ) → b < 2 ^ 32 → b < a + 2 ^ 31 → time_before_eq a b ≡ false → b < a
unfolding time_before_eq
before_false a b h near e = omega (arith, h, near, not_ltb (sub32 b (a % 2 ^ 32)) (2 ^ 31) e)

empty-AllBy :
    (base : ℕ) (lists : ℕ → List TimerNode)
    → ((b : ℕ) → lists b ≡ [])
    → (b : ℕ) → AllBy (base + b) (lists b)
empty-AllBy base lists h b = rw (h b) tt

turn_to-IsDue :
    (clock next : ℕ) (w : TimerWheel)
    → clock < 2 ^ 32
    → next * 65536 ≤ clock
    → clock < next * 65536 + 2 ^ 31
    → w.current_nearly_array_cursor ≡ 0
    → ((b : ℕ) → AllBy (next * 65536 + b) (w.nearly_array b))
    → ((s : ℕ) → AllIn s (w.slot_array s))
    → IsDue clock (turn_to clock next w)
unfolding turn_to get_node_from_nearly_array
turn_to-IsDue clock next w small h close zero_cursor near far =
    let r = spread-Spread next (w.slot_array next) w (far next) near in
    let turned = record (spread (w.slot_array next) w) {
      slot_cursor = next;
      slot_array = replace next [] w.slot_array;
    } in
    let p : Placed turned = record { near = r.near; far = replace-AllIn next w.slot_array far } in
    elim (Bool-cases (time_before_eq ((next + 1) * 65536) clock)) [
      | inl e ↦
          let le = before_true ((next + 1) * 65536) clock small (omega arith) (omega arith) e in
          let index = (clock / 65536 * 65536 + 65535) % 65536 in
          rw (e, turn_to)
            (scan-IsDue (index + 1 - turned.current_nearly_array_cursor) index clock turned
              (omega arith) (omega (arith, le)) p)
      | inr e ↦
          let lt = before_false ((next + 1) * 65536) clock small (omega (arith, close)) e in
          rw (e, turn_to)
            (scan-IsDue (clock % 65536 + 1 - turned.current_nearly_array_cursor) (clock % 65536)
              clock turned (omega arith) (omega (arith, lt, h)) p)
    ]

turn-IsDue :
    (fuel clock previous : ℕ) (w : TimerWheel)
    → clock < 2 ^ 32
    → previous * 65536 ≤ clock
    → clock < previous * 65536 + 2 ^ 31
    → w.current_nearly_array_cursor ≡ 0
    → ((b : ℕ) → w.nearly_array b ≡ [])
    → ((s : ℕ) → AllIn s (w.slot_array s))
    → IsDue clock (turn fuel clock previous w)
unfolding turn
turn-IsDue zero clock previous w small h close zero_cursor near far = tt
turn-IsDue (suc fuel) clock previous w small h close zero_cursor near far =
    let next = previous + 1 in
    elim (Bool-cases (time_before_eq (next * 65536) clock)) [
      | inl e ↦
          let le =
            before_true (next * 65536) clock small (omega (arith, h)) (omega (arith, h, small)) e in
          elim (list_cases (w.slot_array next)) [
            | inl none_here ↦
                rw (e, none_here, turn)
                  (turn-IsDue fuel clock next (record w { slot_cursor = next }) small le
                    (omega (arith, close)) zero_cursor near far)
            | inr (node, rest, some_here) ↦
                rw (e, some_here, turn)
                  (turn_to-IsDue clock next w small le (omega (arith, close)) zero_cursor
                    (empty-AllBy (next * 65536) w.nearly_array near) far)
          ]
      | inr e ↦
          rw (e, turn)
            (record { near = empty-AllBy (previous * 65536) w.nearly_array near; far = far })
    ]

after_true : (a b : ℕ) → a < 2 ^ 32 → b < 2 ^ 32 → b < a + 2 ^ 31 → time_after a b ≡ true → b ≤ a
unfolding time_after
after_true a b h g near e =
    omega (arith, h, g, near, not_ltb (sub32 b (a % 2 ^ 32)) (2 ^ 31) (not-true _ e))

after_false : (a b : ℕ) → a < 2 ^ 32 → b < 2 ^ 32 → a < b + 2 ^ 31 → time_after a b ≡ false → a ≤ b
unfolding time_after
after_false a b h g near e =
    omega (arith, h, g, near, ltb→lt (sub32 b (a % 2 ^ 32)) (2 ^ 31) (not-false _ e))

-- With its nodes in their places and a clock that does not run back, `expire` gives only a node whose
-- time has come, and leaves the nodes in their places.
pub expire-IsDue :
    (fuel clock : ℕ) (w : TimerWheel)
    → clock < 2 ^ 32
    → w.slot_cursor < 65536
    → w.slot_cursor * 65536 ≤ clock
    → clock < w.slot_cursor * 65536 + 2 ^ 31
    → Placed w
    → IsDue clock (expire fuel clock w)
unfolding expire get_node_from_nearly_array
expire-IsDue fuel clock w small inside h close p =
    let end = w.slot_cursor * 65536 + 65535 in
    let end_small : end < 2 ^ 32 = omega (arith, inside) in
    elim (Bool-cases (w.total_timer_count == 0)) [
      | inl none_left ↦ rw (none_left, expire) p
      | inr some_left ↦ elim (Bool-cases (w.current_nearly_array_timer_count == 0)) [
        | inl far_only ↦ elim (Bool-cases (time_before_eq clock end)) [
          | inl early ↦ rw (some_left, far_only, early, expire) p
          | inr late ↦
              rw (some_left, far_only, late, expire)
                (turn-IsDue fuel clock w.slot_cursor
                  (record w { nearly_array = λ _. []; current_nearly_array_cursor = 0 }) small h
                  close refl (λ _. refl) p.far)
        ]
        | inr near_some ↦ elim (Bool-cases (time_after clock end)) [
          | inl after ↦
              let le = after_true clock end small end_small (omega (arith, h)) after in
              rw (some_left, near_some, after, expire)
                (scan-IsDue (end % 65536 + 1 - w.current_nearly_array_cursor) (end % 65536) clock w
                  (omega arith) (omega (arith, le)) p)
          | inr not_after ↦
              let le = after_false clock end small end_small (omega (arith, close)) not_after in
              rw (some_left, near_some, not_after, expire)
                (scan-IsDue (clock % 65536 + 1 - w.current_nearly_array_cursor) (clock % 65536)
                  clock w (omega arith) (omega (arith, le, h)) p)
        ]
      ]
    ]
