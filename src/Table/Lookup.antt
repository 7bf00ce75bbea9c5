-- ===== src/Table/Lookup.antt =====
-- Which packets and resets reach a connection, by the id table of
-- hds_udp/connection/HDS_UDP_Connection.cpp.
use test_resend.Prelude.{
  ℕ, ◌+◌, ◌*◌, ◌%◌, ◌<◌, ◌≡◌, ◌≢◌, ◌⊎◌, refl, sym, ap, ◌∙◌, arith, inl, inr, none, some, true,
  false,
}
use test_resend.Prelude.Words.{u32, add64}
use test_resend.Config.{max_connection_count}
use test_resend.Connection.{Connection}
use test_resend.Table.{
  Slot, empty, suspended, live, Table, put, offset_of, create_connection_id, suspend_connection_id,
  release_connection_id, get_connection, connection_do_time_out, network_target, reset_target,
}

-- What a successful creation leaves.
pub record Created (addr id0 : ℕ) (t t' : Table) : Type 0 where
  pub place : offset_of id0 ≡ t.cid_array_offset
  pub was_empty : t.cid_array (offset_of id0) ≡ empty
  pub is_live : t'.cid_array (offset_of id0) ≡ live addr
  pub others : (j : ℕ) → offset_of id0 ≢ j → t'.cid_array j ≡ t.cid_array j
  pub next : t'.cid_array_offset < max_connection_count
  pub actor : t'.verification_actor ≡ add64 t.verification_actor 1

put_self : (k j : ℕ) (x : Slot) (f : ℕ → Slot) → k ≡ j → put k x f j ≡ x
put_self k j x f e = ground arith

put_other : (k j : ℕ) (x : Slot) (f : ℕ → Slot) → k ≢ j → put k x f j ≡ f j
put_other k j x f n = ground arith

slot_cases : (x : Slot) → (x ≡ empty) ⊎ (x ≡ suspended) ⊎ ((a : ℕ) × (x ≡ live a))
slot_cases empty = inl refl
slot_cases suspended = inr (inl refl)
slot_cases (live a) = inr (inr (a, refl))

suspended_used : suspended ≢ empty
suspended_used e = cc

live_used : (a : ℕ) → live a ≢ empty
live_used a e = cc

-- The id that a creation at this place gives, and its place again.
offset-id :
    (offset ver : ℕ)
    → offset < max_connection_count
    → offset_of (u32 (offset + ver % 4096 * max_connection_count)) ≡ offset
offset-id offset ver h = omega arith

-- With an offset inside the table, a creation takes the slot at the offset, which was empty: the id leads
-- back to that slot, which then holds the connection, every other slot is kept, and the next
-- offset is inside the table again. Or the slot at the offset is in use, and the creation fails and keeps every
-- slot.
pub create_connection_id_lem :
    (addr : ℕ) (t : Table)
    → t.cid_array_offset < max_connection_count
    → let (id, t') = create_connection_id addr t in
      ((id0 : ℕ) × (id ≡ some id0) × Created addr id0 t t')
      ⊎ ((id ≡ none) × (t.cid_array t.cid_array_offset ≢ empty) × (t'.cid_array ≡ t.cid_array))
unfolding create_connection_id
create_connection_id_lem addr t h = elim (slot_cases (t.cid_array t.cid_array_offset)) [
  | inl free ↦
      let place = offset-id t.cid_array_offset t.verification_actor h in
      rw (free, create_connection_id)
        (inl (
          _,
          refl,
          record {
            place = place;
            was_empty = ap t.cid_array place ∙ free;
            is_live = put_self t.cid_array_offset _ (live addr) t.cid_array (sym place);
            others =
                λ j n. put_other t.cid_array_offset j (live addr) t.cid_array (λ e. n (place ∙ e));
            next = ground arith;
            actor = refl;
          },
        ))
  | inr (inl gone) ↦ rw (gone, create_connection_id) (inr (refl, suspended_used, refl))
  | inr (inr (a, taken)) ↦ rw (taken, create_connection_id) (inr (refl, live_used a, refl))
]

-- A packet reaches a connection only when the packet's first id word is the connection's own.
network_target-same_id :
    (memory : ℕ → Connection) (id0 con : ℕ) (t : Table)
    → network_target memory id0 t ≡ some con
    → (memory con).con_id.id0 ≡ id0
unfolding network_target
network_target-same_id memory id0 con t e = ground (arith, e)

-- After a connection's id was suspended or released, no packet reaches a connection in its slot.
network_target-gone :
    (memory : ℕ → Connection) (own id0 : ℕ) (t : Table)
    → offset_of id0 ≡ offset_of own
    → (network_target memory id0 (suspend_connection_id own t) ≡ none)
      × (network_target memory id0 (release_connection_id own t) ≡ none)
unfolding network_target get_connection
network_target-gone memory own id0 t e = ground (
  arith,
  put_self (offset_of own) (offset_of id0) suspended t.cid_array (sym e),
  put_self (offset_of own) (offset_of id0) empty t.cid_array (sym e),
)

-- A reset reaches whatever connection is in the slot: ids that differ in their upper twelve bits lead
-- to the same one.
reset_target-any_id :
    (id0 other : ℕ) (t : Table)
    → offset_of id0 ≡ offset_of other
    → reset_target id0 t ≡ reset_target other t
unfolding reset_target
reset_target-any_id id0 other t e = ap (λ k. get_connection k t) e

-- A timer that comes after its connection was suspended reaches that connection; after the id was released it
-- reaches nobody, and its parameters are not given back; and once another connection has the slot it reaches
-- that one.
connection_do_time_out_lem :
    (id0 own other : ℕ) (t : Table)
    → (connection_do_time_out (offset_of id0) own (suspend_connection_id id0 t) ≡ (some own, true))
      × (connection_do_time_out (offset_of id0) own (release_connection_id id0 t) ≡ (none, false))
      × (connection_do_time_out
            (offset_of id0)
            own
            (record t { cid_array = put (offset_of id0) (live other) t.cid_array })
          ≡ (some other, true))
unfolding connection_do_time_out
connection_do_time_out_lem id0 own other t = (
  rw (put_self (offset_of id0) (offset_of id0) suspended t.cid_array refl, connection_do_time_out)
      refl,
  rw (put_self (offset_of id0) (offset_of id0) empty t.cid_array refl, connection_do_time_out) refl,
  rw
      (
        put_self (offset_of id0) (offset_of id0) (live other) t.cid_array refl,
        connection_do_time_out,
      )
      refl,
)
