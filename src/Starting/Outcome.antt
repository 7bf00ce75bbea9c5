-- ===== src/Starting/Outcome.antt =====
-- How `start_recver` of hds_udp/connection/HDS_UDP_Connection.cpp ends.
use test_resend.Prelude.{
  ℕ, ◌<◌, ◌^◌, ◌≡◌, ◌≢◌, refl, sym, ap, ◌∙◌, ◌⊎◌, inl, inr, arith, ◌==◌, if◌then◌else◌, Bool, true,
  false, Bool-cases, Option, none, some, Option-cases, List, [], ◌∷◌,
}
use test_resend.HpMap.Entries.{
  lookup, insert_entry, IsSorted, lookup-Above, Above-le, compare_cases,
}
use test_resend.RecvWaitQueue.Refine.{lookup-insert_self}
use test_resend.Prelude.Words.{sub64, add64}
use test_resend.Config.{max_connection_count}
use test_resend.Connection.{MsgType}
use test_resend.Wire.{ConnectionId}
use test_resend.RecvWaitQueue.{wait_key, waiting_insert}
use test_resend.Table.{Slot, empty, live, put, offset_of, create_connection_id}
use test_resend.Table.Lookup.{create_connection_id_lem}
use test_resend.Starting.{
  Surroundings, Receiver, Start, rejected, started, RecvBufType, recv_reject, with_buffer,
  user_buffer, verify, register, is_simple_require, unverified, start_recver,
}

-- What a reader finds when it goes to the queue: it waits, with its offset, when there is a node for it and its
-- key does not wait; else the queue stays as it was.
abbrev pub Waits : Bool → ℕ → ℕ → List (ℕ × ℕ) → List (ℕ × ℕ) → Type 0
Waits node key offset waiting waiting' =
    (node ≡ true) × (lookup key waiting ≡ none) × (lookup key waiting' ≡ some offset)
    ⊎ ((node ≡ false) ⊎ (lookup key waiting ≢ none)) × (waiting' ≡ waiting)

-- The ends of a call that gave a reader an id: it is in its slot, went to the queue and is counted; or the
-- packet is rejected, its slot is empty again and the count is back, but the queue is not.
abbrev pub Ended : Bool → Receiver → ConnectionId → ℕ → Start → Type 0
Ended node r wq id0 (started reader buf type ack r') =
    (r'.table.cid_array (offset_of id0) ≡ live reader)
    × (r'.waiting ≡ waiting_insert node (wait_key wq) (offset_of id0) r.waiting)
    × Waits node (wait_key wq) (offset_of id0) r.waiting r'.waiting
    × (r'.reader_count ≡ add64 r.reader_count 1)
Ended node r wq id0 (rejected type id r') =
    (id ≡ id0)
    × ((j : ℕ) → r'.table.cid_array j ≡ r.table.cid_array j)
    × (r'.waiting ≡ waiting_insert node (wait_key wq) (offset_of id0) r.waiting)
    × Waits node (wait_key wq) (offset_of id0) r.waiting r'.waiting
    × (r'.reader_count ≡ r.reader_count)
Ended node r wq id0 _ = true ≡ false

-- The end of a call that found no id: slot 0 of the table is empty, whoever had it.
abbrev pub SlotZeroLost : Receiver → Start → Type 0
SlotZeroLost r (rejected type id r') =
    (id ≡ 0)
    × (r'.table.cid_array 0 ≡ empty)
    × (r'.waiting ≡ r.waiting)
    × (r'.reader_count ≡ r.reader_count)
SlotZeroLost r _ = true ≡ false

-- A reader that has its id and waits.
record Registered (node : Bool) (r : Receiver) (wq : ConnectionId) (id0 reader : ℕ) (r' : Receiver)
    : Type 0 where
  pub was_empty : r.table.cid_array (offset_of id0) ≡ empty
  pub is_live : r'.table.cid_array (offset_of id0) ≡ live reader
  pub others : (j : ℕ) → offset_of id0 ≢ j → r'.table.cid_array j ≡ r.table.cid_array j
  pub waits : r'.waiting ≡ waiting_insert node (wait_key wq) (offset_of id0) r.waiting
  pub place : Waits node (wait_key wq) (offset_of id0) r.waiting r'.waiting
  pub counted : r'.reader_count ≡ add64 r.reader_count 1

count_back : (n : ℕ) → n < 2 ^ 64 → sub64 (add64 n 1) 1 ≡ n
count_back n h = omega (arith, h)

put_cases :
    (k j : ℕ) (x : Slot) (f : ℕ → Slot)
    → (k ≡ j) × (put k x f j ≡ x) ⊎ (k ≢ j) × (put k x f j ≡ f j)
put_cases k j x f = ground arith

module _ (r : Receiver) (small : r.reader_count < 2 ^ 64) (node : Bool) (wq : ConnectionId)
    (id0 reader : ℕ) (type : MsgType) (r' : Receiver) (h : Registered node r wq id0 reader r') where
  recv_reject-Ended : Ended node r wq id0 (recv_reject type id0 r')
  recv_reject-Ended = (
    refl,
    λ j. elim (put_cases (offset_of id0) j empty r'.table.cid_array) [
      | inl (same, e) ↦ e ∙ sym (ap r.table.cid_array (sym same) ∙ h.was_empty)
      | inr (other, e) ↦ e ∙ h.others j other
    ],
    h.waits,
    h.place,
    ap (λ n. sub64 n 1) h.counted ∙ count_back r.reader_count small,
  )

  with_buffer-Ended :
      (length : ℕ) (env : Surroundings) (user : Option (ℕ × RecvBufType))
      → Ended node r wq id0 (with_buffer type length env reader id0 user r')
  unfolding with_buffer
  with_buffer-Ended length env (some (buf, t)) = (h.is_live, h.waits, h.place, h.counted)
  with_buffer-Ended length env none = elim (Option-cases env.buffer) [
    | inl e ↦ rw (e, with_buffer) recv_reject-Ended
    | inr (buf, e) ↦ rw (e, with_buffer) (h.is_live, h.waits, h.place, h.counted)
  ]

  verify-Ended :
      (length : ℕ) (env : Surroundings) → Ended node r wq id0 (verify type length env reader id0 r')
  unfolding verify
  verify-Ended length env = elim (Option-cases env.verification) [
    | inl e ↦ rw (e, verify) (with_buffer-Ended length env none)
    | inr (atti, e) ↦ elim (Bool-cases atti.recv) [
      | inl yes_recv ↦ rw (e, verify, yes_recv) (with_buffer-Ended length env (user_buffer atti))
      | inr no_recv ↦ rw (e, verify, no_recv) recv_reject-Ended
    ]
  ]

-- An insertion for a key that waits changes nothing.
insert_entry-known :
    (key value old : ℕ) (m : List (ℕ × ℕ))
    → IsSorted m
    → lookup key m ≡ some old
    → insert_entry key value m ≡ m
unfolding lookup insert_entry
insert_entry-known key value old [] h e = cc
insert_entry-known key value old ((k, v) ∷ m) h e = elim (compare_cases key k) [
  | inl (c, lt) ↦
      absurd (not_there (sym (lookup-Above key ((k, v) ∷ m) (lt, Above-le key k m lt h.0)) ∙ e))
  | inr (inl (c, same)) ↦ rw (c, insert_entry) refl
  | inr (inr (c, gt)) ↦
      let there : lookup key m ≡ some old = ground (arith, gt, e) in
      rw (c, insert_entry) (ap (λ z. (k, v) ∷ z) (insert_entry-known key value old m h.1 there))
]
  where
    not_there : none ≡ some old → ⊥
    not_there x = cc

waiting_insert-Waits :
    (node : Bool) (key offset : ℕ) (m : List (ℕ × ℕ))
    → IsSorted m
    → Waits node key offset m (waiting_insert node key offset m)
unfolding waiting_insert
waiting_insert-Waits false key offset m h = inr (inl refl, refl)
waiting_insert-Waits true key offset m h = elim (Option-cases (lookup key m)) [
  | inl e ↦ inl (refl, e, lookup-insert_self key offset m e)
  | inr (old, e) ↦
      inr (inr (λ x. absurd (never (sym e ∙ x))), insert_entry-known key offset old m h e)
]
  where
    never : {a : ℕ} → some a ≡ none → ⊥
    never x = cc

not_refused :
    (simple unverified : Bool) → unverified ≡ false → (if simple then false else unverified) ≡ false
not_refused true u e = refl
not_refused false u e = e

slot_zero : (f : ℕ → Slot) → put (offset_of 0) empty f 0 ≡ empty
slot_zero f = refl

-- For a packet that names a length, a reader that can be had and need not be verified, and a queue that is in
-- order: when the slot at the offset of the id table is empty, the reader gets it and is counted, or the packet
-- is rejected, the slot is empty again and the count is back; either way the reader waits, with that slot, when
-- there is a node for the queue and the packet's id did not wait, and else the queue stays as it was. When the
-- slot is in use, the packet is rejected and slot 0 of the table is empty, whichever connection had it.
pub start_recver_lem :
    (type : MsgType) (wq : ConnectionId) (length reader : ℕ) (env : Surroundings) (r : Receiver)
    → env.reader ≡ some reader
    → unverified env ≡ false
    → 0 < length
    → r.table.cid_array_offset < max_connection_count
    → r.reader_count < 2 ^ 64
    → IsSorted r.waiting
    → ((id0 : ℕ) × (offset_of id0 ≡ r.table.cid_array_offset)
        × (r.table.cid_array (offset_of id0) ≡ empty)
        × Ended env.queue_node r wq id0 (start_recver type wq length env r))
      ⊎ ((r.table.cid_array r.table.cid_array_offset ≢ empty)
          × SlotZeroLost r (start_recver type wq length env r))
unfolding start_recver register
start_recver_lem type wq length reader env r given verified named inside small sorted =
    let go_on = not_refused (is_simple_require type) (unverified env) verified in
    let sized : (length == 0) ≡ false = ground (arith, named) in
    let counted = record r { reader_count = add64 r.reader_count 1 } in
    let t' = (create_connection_id reader r.table).1 in
    elim (create_connection_id_lem reader r.table inside) [
      | inl (id0, e, c) ↦
          let r' = record counted {
            table = t';
            waiting = waiting_insert env.queue_node (wait_key wq) (offset_of id0) r.waiting;
          } in
          inl (
            id0,
            c.place,
            c.was_empty,
            rw (given, go_on, sized, start_recver, register, e)
                (verify-Ended r small env.queue_node wq id0 reader type r'
                  (record {
                    was_empty = c.was_empty;
                    is_live = c.is_live;
                    others = c.others;
                    waits = refl;
                    place =
                        waiting_insert-Waits env.queue_node (wait_key wq) (offset_of id0) r.waiting
                          sorted;
                    counted = refl;
                  })
                  length env),
          )
      | inr (e, used, kept) ↦ inr (
        used,
        rw (given, go_on, sized, start_recver, register, e)
            (refl, slot_zero t'.cid_array, refl, count_back r.reader_count small),
      )
    ]
