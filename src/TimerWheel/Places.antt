-- ===== src/TimerWheel/Places.antt =====
-- Where the timers of hds_udp/common/HDS_Timer_Wheel.cpp stand: each list with the time that it ends at.
use test_resend.Prelude.{
  ℕ, ◌+◌, ◌*◌, ◌/◌, ◌≤◌, ◌≡◌, refl, ◌⊎◌, inl, inr, arith, ◌==◌, true, false, List, [], ◌∷◌,
}
use test_resend.TimerWheel.{
  TimerNode, TimerWheel, Expired, expired, wait, out_of_fuel, add_to_tail, replace,
}

abbrev pub AllBy : ℕ → List TimerNode → Type 0
AllBy time [] = Unit {0}
AllBy time (node ∷ nodes) = (node.expers_time ≤ time) × AllBy time nodes

abbrev pub AllIn : ℕ → List TimerNode → Type 0
AllIn slot [] = Unit {0}
AllIn slot (node ∷ nodes) = (node.expers_time / 65536 ≡ slot) × AllIn slot nodes

-- A node in a bucket is due by the time of the bucket, and one in a slot is due in that slot.
pub record Placed (w : TimerWheel) : Type 0 where
  pub near : (b : ℕ) → AllBy (w.slot_cursor * 65536 + b) (w.nearly_array b)
  pub far : (s : ℕ) → AllIn s (w.slot_array s)

-- What `expire` may give at a time: a node that is due, and a wheel whose nodes are in their places.
abbrev pub IsDue : ℕ → Expired → Type 0
IsDue time (expired node w) = (node.expers_time ≤ time) × Placed w
IsDue time (wait delay w) = Placed w
IsDue time out_of_fuel = Unit {0}

pub test_cases : (i j : ℕ) → ((i == j) ≡ true) × (i ≡ j) ⊎ ((i == j) ≡ false)
test_cases i j = ground arith

pub replace-AllBy :
    (base index : ℕ) (nodes : List TimerNode) (lists : ℕ → List TimerNode)
    → AllBy (base + index) nodes
    → ((b : ℕ) → AllBy (base + b) (lists b))
    → (b : ℕ) → AllBy (base + b) (replace index nodes lists b)
unfolding replace
replace-AllBy base index nodes lists h g b = elim (test_cases b index) [
  | inl (e, same) ↦ rw (e, same) h
  | inr e ↦ rw e (g b)
]

pub add-AllBy :
    (base index : ℕ) (node : TimerNode) (lists : ℕ → List TimerNode)
    → node.expers_time ≤ base + index
    → ((b : ℕ) → AllBy (base + b) (lists b))
    → (b : ℕ) → AllBy (base + b) (add_to_tail index node lists b)
unfolding add_to_tail
add-AllBy base index node lists h g b = elim (test_cases b index) [
  | inl (e, same) ↦ rw e (rw same h, g b)
  | inr e ↦ rw e (g b)
]

pub add-AllIn :
    (index : ℕ) (node : TimerNode) (lists : ℕ → List TimerNode)
    → node.expers_time / 65536 ≡ index
    → ((s : ℕ) → AllIn s (lists s))
    → (s : ℕ) → AllIn s (add_to_tail index node lists s)
unfolding add_to_tail
add-AllIn index node lists h g b = elim (test_cases b index) [
  | inl (e, same) ↦ rw e (rw same h, g b)
  | inr e ↦ rw e (g b)
]

pub replace-AllIn :
    (index : ℕ) (lists : ℕ → List TimerNode)
    → ((s : ℕ) → AllIn s (lists s))
    → (s : ℕ) → AllIn s (replace index [] lists s)
unfolding replace
replace-AllIn index lists g b = elim (test_cases b index) [
  | inl (e, same) ↦ rw e tt
  | inr e ↦ rw e (g b)
]

pub list_cases :
    (nodes : List TimerNode)
    → (nodes ≡ []) ⊎ ((node : TimerNode) × (rest : List TimerNode) × (nodes ≡ node ∷ rest))
list_cases [] = inl refl
list_cases (node ∷ rest) = inr (node, rest, refl)
