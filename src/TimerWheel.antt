-- ===== src/TimerWheel.antt =====
-- hds_udp/common/HDS_Timer_Wheel.{h,cpp}: timers in 65536 slots of 65536 milliseconds, the present slot
-- spread over 65536 buckets. A method runs under `_lock`, so it is one step; the clock is an argument.
pub mod Bounds
pub mod Places
pub mod Early
pub mod Adding
pub mod Keeping
use test_resend.Prelude.{
  ℕ, zero, suc, ◌+◌, ◌-◌, ◌*◌, ◌/◌, ◌%◌, ◌^◌, ◌==◌, if◌then◌else◌, ltb, leb, Bool, true, false, not,
  List, [], ◌∷◌, Option, none, some,
}
use test_resend.Prelude.Words.{sub32}

-- `HDS_Timer_Node`; the call back and its argument are one number.
pub record TimerNode : Type 0 where
  pub expers_time : ℕ
  pub parm : ℕ

-- `HDS_timer_wheel`, with the lists of `HDS_Timer_Wheel_Bucket` and `HDS_Timer_Wheel_Slot`.
pub record TimerWheel : Type 0 where
  pub nearly_array : ℕ → List TimerNode
  -- From 65536 on this is the memory behind the array, as a list that is read there.
  pub slot_array : ℕ → List TimerNode
  pub current_nearly_array_cursor : ℕ
  pub current_nearly_array_timer_count : ℕ
  pub total_timer_count : ℕ
  pub slot_cursor : ℕ
  pub thread_count : ℕ
  pub wait_up_thread_cursor : ℕ
  pub hexit : Bool

-- `add_to_tail`, which puts the node in front.
unfoldable pub add_to_tail : ℕ → TimerNode → (ℕ → List TimerNode) → ℕ → List TimerNode
add_to_tail index node lists i = if i == index then node ∷ lists i else lists i

unfoldable pub replace : ℕ → List TimerNode → (ℕ → List TimerNode) → ℕ → List TimerNode
replace index nodes lists i = if i == index then nodes else lists i

-- `time_before_eq` of LP64, on the low 32 bits, and `time_after`.
unfoldable pub time_before_eq : ℕ → ℕ → Bool
time_before_eq a b = ltb (sub32 b (a % 2 ^ 32)) (2 ^ 31)

unfoldable pub time_after : ℕ → ℕ → Bool
time_after a b = not (ltb (sub32 b (a % 2 ^ 32)) (2 ^ 31))

-- The results of `add_timer`: -1, a write past an array, and 0 with the thread that is woken.
pub data Added : Type 0 where
  refused : Added
  out_of_bounds : Added
  added : TimerWheel → Option ℕ → Added

-- `HDS_Event_Set(&_event_array[…]); if(++_wait_up_thread_cursor>=_thread_count) …=0;`
unfoldable pub wake : TimerWheel → Added
wake w =
    let next = w.wait_up_thread_cursor + 1 in
    added (record w { wait_up_thread_cursor = if leb w.thread_count next then 0 else next })
      (some w.wait_up_thread_cursor)

-- `slot_array[slot_num].add_to_tail(node)`, and what follows it; `w` has counted the node.
unfoldable pub add_to_slot : ℕ → TimerNode → TimerWheel → Added
add_to_slot slot_num node w =
    let stored = record w { slot_array = add_to_tail slot_num node w.slot_array } in
    if leb 65536 slot_num
    then out_of_bounds
    else if w.total_timer_count == 1
    then wake stored
    else added stored none

-- `add_timer`, for a due time that is not negative and a node that the pool gives.
unfoldable pub add_timer : ℕ → ℕ → ℕ → TimerWheel → Added
add_timer clock due_time parm w =
    let xtime = due_time + clock in
    let node : TimerNode = record { expers_time = xtime; parm = parm } in
    let counted = record w { total_timer_count = w.total_timer_count + 1 } in
    let wanted = xtime % 65536 in
    let bucket =
      if ltb wanted w.current_nearly_array_cursor then w.current_nearly_array_cursor else wanted in
    if w.hexit
    then refused
    else if ltb 0x0fffffff due_time
    then refused
    else if xtime / 65536 == w.slot_cursor
    then (if ltb w.current_nearly_array_cursor 65536
        then wake (record counted {
          nearly_array = add_to_tail bucket node w.nearly_array;
          current_nearly_array_timer_count = w.current_nearly_array_timer_count + 1;
        })
        else add_to_slot (xtime / 65536) node counted)
    else add_to_slot (xtime / 65536) node counted

-- The results of `expire`: a node, or how long to wait, `none` for ever; and the end of the
-- fuel.
pub data Expired : Type 0 where
  expired : TimerNode → TimerWheel → Expired
  wait : Option ℕ → TimerWheel → Expired
  out_of_fuel : Expired

-- The second loop of `get_node_from_nearly_array`: from `index` on, `65536 - index` rounds.
unfoldable pub next_used : ℕ → ℕ → TimerWheel → ℕ
next_used zero index w = index
next_used (suc rounds) index w =
    let rest = next_used rounds (index + 1) w in
    elim (w.nearly_array index) [ [] ↦ rest | node ∷ nodes ↦ index ]

-- The first loop, from the cursor on, and then the second one.
unfoldable pub scan : ℕ → ℕ → TimerWheel → Expired
scan zero index w = wait (some (next_used (65536 - index) index w - index)) w
scan (suc rounds) index w =
    let rest =
      scan rounds index
        (record w { current_nearly_array_cursor = w.current_nearly_array_cursor + 1 }) in
    elim (w.nearly_array w.current_nearly_array_cursor) [
      | [] ↦ rest
      | node ∷ nodes ↦ expired node (record w {
        total_timer_count = w.total_timer_count - 1;
        current_nearly_array_timer_count = w.current_nearly_array_timer_count - 1;
        nearly_array = replace w.current_nearly_array_cursor nodes w.nearly_array;
      })
    ]

-- `get_node_from_nearly_array`
unfoldable pub get_node_from_nearly_array : ℕ → TimerWheel → Expired
get_node_from_nearly_array cur_time w =
    let index = cur_time % 65536 in scan (index + 1 - w.current_nearly_array_cursor) index w

-- The inner loop of `expire`: the nodes of a slot go to their buckets.
unfoldable pub spread : List TimerNode → TimerWheel → TimerWheel
spread [] w = w
spread (node ∷ nodes) w = spread nodes (record w {
  nearly_array = add_to_tail (node.expers_time % 65536) node w.nearly_array;
  current_nearly_array_timer_count = w.current_nearly_array_timer_count + 1;
})

-- The body of `while(true)` for a slot that has come, with nodes in it.
unfoldable pub turn_to : ℕ → ℕ → TimerWheel → Expired
turn_to cur_time next w =
    let turned = record (spread (w.slot_array next) w) {
      slot_cursor = next;
      slot_array = replace next [] w.slot_array;
    } in
    let late = time_before_eq ((next + 1) * 65536) cur_time in
    get_node_from_nearly_array (if late then cur_time / 65536 * 65536 + 65535 else cur_time) turned

-- `65535 - (cur_time & WHEEL_SHIFT_MASK) + 1`
abbrev pub rest_of_slot : ℕ → ℕ
rest_of_slot cur_time = 65535 - cur_time % 65536 + 1

-- `while(true)`. Like the code it has no test for the end of the array.
unfoldable pub turn : ℕ → ℕ → ℕ → TimerWheel → Expired
turn zero cur_time previous w = out_of_fuel
turn (suc fuel) cur_time previous w =
    let next = previous + 1 in
    let rest = turn fuel cur_time next (record w { slot_cursor = next }) in
    let here = turn_to cur_time next w in
    if time_before_eq (next * 65536) cur_time
    then elim (w.slot_array next) [ [] ↦ rest | node ∷ nodes ↦ here ]
    else wait (some (rest_of_slot cur_time)) (record w { slot_cursor = previous })

-- `expire`
unfoldable pub expire : ℕ → ℕ → TimerWheel → Expired
expire fuel clock w =
    let end = w.slot_cursor * 65536 + 65535 in
    let cur_time = if time_after clock end then end else clock in
    let emptied = record w { nearly_array = λ _. []; current_nearly_array_cursor = 0 } in
    if w.total_timer_count == 0
    then wait none w
    else if not (w.current_nearly_array_timer_count == 0)
    then get_node_from_nearly_array cur_time w
    else if time_before_eq clock end
    then wait (some (rest_of_slot clock)) w
    else turn fuel clock w.slot_cursor emptied
