-- ===== src/TimerWheel/Adding.antt =====
-- Where `add_timer` of hds_udp/common/HDS_Timer_Wheel.cpp puts a node.
use mathlib.Core.Path.{subst}
use test_resend.Prelude.{
  ℕ, ◌/◌, ◌<◌, ◌≡◌, ◌≢◌, refl, ◌⊎◌, inl, inr, arith, ◌==◌, if◌then◌else◌, leb, Bool, true, false,
  Bool-cases, List, ◌∷◌,
}
use test_resend.TimerWheel.{
  TimerNode, TimerWheel, Added, refused, out_of_bounds, added, add_to_tail, wake, add_to_slot,
}
use test_resend.TimerWheel.Places.{Placed, add-AllIn}

-- One list has a node in front of it, and the others are as they were.
abbrev pub Joined : TimerNode → (ℕ → List TimerNode) → (ℕ → List TimerNode) → Type 0
Joined node lists lists' =
    (i : ℕ) × (lists' i ≡ node ∷ lists i) × ((j : ℕ) → j ≢ i → lists' j ≡ lists j)

-- The node is in one of the two arrays, and the other one is as it was.
abbrev pub TakesIn : TimerNode → TimerWheel → TimerWheel → Type 0
TakesIn node w w' =
    Joined node w.nearly_array w'.nearly_array × (w'.slot_array ≡ w.slot_array)
    ⊎ Joined node w.slot_array w'.slot_array × (w'.nearly_array ≡ w.nearly_array)

abbrev pub KeepsPlaces : ℕ → TimerNode → TimerWheel → Added → Type 0
KeepsPlaces due_time node w refused = (w.hexit ≡ true) ⊎ (0x0fffffff < due_time)
KeepsPlaces due_time node w out_of_bounds = true ≡ false
KeepsPlaces due_time node w (added w' thread) = Placed w' × TakesIn node w w'

pub add_to_tail-Joined :
    (i : ℕ) (node : TimerNode) (lists : ℕ → List TimerNode)
    → Joined node lists (add_to_tail i node lists)
unfolding add_to_tail
add_to_tail-Joined i node lists = (
  i,
  let same : (i == i) ≡ true = ground arith in rw same refl,
  λ j n. let other : (j == i) ≡ false = ground (arith, n) in rw other refl,
)

module _ (due_time : ℕ) (node : TimerNode) (w : TimerWheel) where
  pub wake-KeepsPlaces :
      (w' : TimerWheel) → Placed w' → TakesIn node w w' → KeepsPlaces due_time node w (wake w')
  unfolding wake
  wake-KeepsPlaces w' p h = (record { near = p.near; far = p.far }, h)

  pub add_to_slot-KeepsPlaces :
      (counted : TimerWheel)
      → counted.slot_array ≡ w.slot_array
      → counted.nearly_array ≡ w.nearly_array
      → node.expers_time / 65536 < 65536
      → Placed counted
      → KeepsPlaces due_time node w (add_to_slot (node.expers_time / 65536) node counted)
  unfolding add_to_slot
  add_to_slot-KeepsPlaces counted far_same near_same inside p =
      let slot = node.expers_time / 65536 in
      let stored = record counted { slot_array = add_to_tail slot node counted.slot_array } in
      let q : Placed stored = record {
        near = p.near;
        far = add-AllIn slot node counted.slot_array refl p.far;
      } in
      let taken : TakesIn node w stored = inr (
        subst (λ l. Joined node l stored.slot_array) far_same
            (add_to_tail-Joined slot node counted.slot_array),
        near_same,
      ) in
      elim (Bool-cases (leb 65536 slot)) [
        | inl far ↦ absurd (ground (arith, far, inside))
        | inr near ↦ elim (Bool-cases (counted.total_timer_count == 1)) [
          | inl one ↦ rw (near, one) (wake-KeepsPlaces stored q taken)
          | inr more ↦ rw (near, more) (q, taken)
        ]
      ]

  pub either-KeepsPlaces :
      (b : Bool) (x y : Added)
      → KeepsPlaces due_time node w x
      → KeepsPlaces due_time node w y
      → KeepsPlaces due_time node w (if b then x else y)
  either-KeepsPlaces true x y h g = h
  either-KeepsPlaces false x y h g = g

  pub refused-KeepsPlaces :
      (b : Bool) (x : Added)
      → (b ≡ true → (w.hexit ≡ true) ⊎ (0x0fffffff < due_time))
      → KeepsPlaces due_time node w x
      → KeepsPlaces due_time node w (if b then refused else x)
  refused-KeepsPlaces true x h g = h refl
  refused-KeepsPlaces false x h g = g
