-- ===== src/Receiving/Leaving.antt =====
-- How a reader of hds_udp/connection/HDS_UDP_Connection.cpp leaves the wait queue, and what the packet that
-- started it does afterwards.
use test_resend.Prelude.{
  ℕ, ◌≡◌, refl, ap, ◌∙◌, arith, if◌then◌else◌, Bool, true, false, List, Option, none, some,
}
use test_resend.Config.{packet_max_data_length}
use test_resend.Wire.{ConnectionId}
use test_resend.Connection.{
  MsgType, simple_file_data, complex_file_data, in_recv_wait_ack_queue_bit, test_status,
}
use test_resend.Connection.Status.{reset_status_was, test-reset_status}
use test_resend.HpMap.Entries.{lookup, IsSorted}
use test_resend.HpMap.Erase.Removing.{remove_entry}
use test_resend.RecvWaitQueue.{wait_key}
use test_resend.RecvWaitQueue.Refine.{lookup-remove_self}
use test_resend.Table.{network_target}
use test_resend.Starting.{Surroundings, Receiver, start_recver}
use test_resend.Receiving.{
  Peer, leave_queue, second_packet, network_data, restarted, require_of, require_duplicate,
}

-- A reader that waits is taken out, and is marked as one that does not wait; a reader that does not wait
-- leaves the queue as it is.
leave_queue_lem :
    (id1 : ℕ) (con : Peer) (m : List (ℕ × ℕ))
    → ((leave_queue id1 con m).1 ≡ (
        if test_status in_recv_wait_ack_queue_bit con.base
        then remove_entry (wait_key (record { id0 = con.require_duplicate_label; id1 = id1 })) m
        else m))
      × (test_status in_recv_wait_ack_queue_bit (leave_queue id1 con m).0.base ≡ false)
unfolding leave_queue
leave_queue_lem id1 con m = (
  ap
      (λ b.
        if b
        then remove_entry (wait_key (record { id0 = con.require_duplicate_label; id1 = id1 })) m
        else m)
      (reset_status_was in_recv_wait_ack_queue_bit con.base (omega arith)),
  test-reset_status in_recv_wait_ack_queue_bit in_recv_wait_ack_queue_bit con.base (omega arith),
)

abbrev pub is_data : MsgType → Bool
is_data simple_file_data = true
is_data complex_file_data = true
is_data _ = false

second_data :
    (type : MsgType) (i : ConnectionId) (con : Peer) (m : List (ℕ × ℕ))
    → is_data type ≡ true
    → second_packet type i con m ≡ leave_queue i.id1 con m
unfolding second_packet
second_data simple_file_data i con m e = refl
second_data complex_file_data i con m e = refl
second_data _ i con m e = cc

-- A reader that has got its second packet: its own handler is called for it, it does not wait any more, and
-- no later packet takes an entry out for it.
pub record Left (wq : ConnectionId) (r : Receiver) (con : Peer) (r' : Receiver) : Type 0 where
  pub gone : lookup (wait_key wq) r'.waiting ≡ none
  pub marked : test_status in_recv_wait_ack_queue_bit con.base ≡ false
  pub same_table : r'.table ≡ r.table
  pub once : (id1 : ℕ) (m : List (ℕ × ℕ)) → (leave_queue id1 con m).1 ≡ m

-- A handler that is called for this connection.
abbrev pub Handed : ConnectionId → ℕ → Receiver → Option (ℕ × Peer × Receiver) → Type 0
Handed wq address r none = true ≡ false
Handed wq address r (some (a, con, r')) = (a ≡ address) × Left wq r con r'

-- The data packet at the second place, for a reader that waits and that its id leads to, is handed to the
-- reader, which leaves the queue once.
pub second_data-Handed :
    (type : MsgType) (i wq : ConnectionId) (memory : ℕ → Peer) (address : ℕ) (r : Receiver)
    → is_data type ≡ true
    → IsSorted r.waiting
    → network_target (λ a. (memory a).base) i.id0 r.table ≡ some address
    → test_status in_recv_wait_ack_queue_bit (memory address).base ≡ true
    → (memory address).require_duplicate_label ≡ wq.id0
    → i.id1 ≡ wq.id1
    → Handed wq address r (network_data type i packet_max_data_length memory r)
unfolding network_data
second_data-Handed type i wq memory address r carries sorted target waits label id1 =
    let con = memory address in
    let left = leave_queue_lem i.id1 con r.waiting in
    let key =
      ap (λ a. wait_key (record { id0 = a; id1 = i.id1 })) label
      ∙ ap (λ b. wait_key (record { id0 = wq.id0; id1 = b })) id1 in
    let out =
      left.0
      ∙ ap
          (λ b.
            if b
            then remove_entry (wait_key (record { id0 = con.require_duplicate_label; id1 = i.id1 }))
                r.waiting
            else r.waiting)
          waits
      ∙ ap (λ k. remove_entry k r.waiting) key in
    rw (target, network_data, second_data type i con r.waiting carries)
      (
        refl,
        record {
          gone = ap (lookup (wait_key wq)) out ∙ lookup-remove_self (wait_key wq) r.waiting sorted;
          marked = left.1;
          same_table = refl;
          once = λ j m.
              (leave_queue_lem j (leave_queue i.id1 con r.waiting).0 m).0
              ∙ ap
                  (λ b.
                    if b
                    then remove_entry
                        (wait_key (record {
                          id0 = (leave_queue i.id1 con r.waiting).0.require_duplicate_label;
                          id1 = j;
                        }))
                        m
                    else m)
                  left.1;
        },
      )

-- From then on the require packet that started the reader starts another.
duplicate-after_second :
    (wq : ConnectionId) (r : Receiver) (con : Peer) (left : Receiver)
    → Left wq r con left
    → (msgtype : MsgType) (send_time dt_note : ℕ) (addr : ℕ → ℕ) (addr_length : ℕ)
      (env : Surroundings) (memory : ℕ → Peer)
    → require_duplicate msgtype wq send_time dt_note addr addr_length env memory left
      ≡ restarted (require_of msgtype) (start_recver (require_of msgtype) wq dt_note env left)
unfolding require_duplicate
duplicate-after_second wq r con left h msgtype send_time dt_note addr addr_length env memory =
    rw (h.gone, require_duplicate) refl
