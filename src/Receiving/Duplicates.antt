-- ===== src/Receiving/Duplicates.antt =====
-- What a require packet that comes again does, by `connection_do_require_duplicate` of
-- hds_udp/connection/HDS_UDP_Connection.cpp.
use test_resend.Prelude.{
  ℕ, zero, suc, ◌<◌, ◌≡◌, refl, ap, inl, inr, arith, ◌==◌, Bool, true, false, ◌&&◌, Bool-cases,
  none, some, Option-cases,
}
use test_resend.Config.{packet_max_data_length}
use test_resend.Wire.{ConnectionId}
use test_resend.Connection.{MsgType}
use test_resend.HpMap.Entries.{lookup}
use test_resend.RecvWaitQueue.{wait_key}
use test_resend.Table.{Slot, live, suspended, empty, address, get_connection}
use test_resend.Starting.{Surroundings, Receiver}
use test_resend.Receiving.{
  Peer, same_bytes, sockaddrcmp, Answer, ignored, restarted, acknowledged, require_of,
  is_first_again, require_duplicate,
}

-- Addresses that compare as equal have the same bytes.
same_bytes_lem : (n : ℕ) (a b : ℕ → ℕ) → same_bytes n a b ≡ true → (i : ℕ) → i < n → a i ≡ b i
unfolding same_bytes
same_bytes_lem zero a b e i h = absurd (omega (arith, h))
same_bytes_lem (suc n) a b e zero h = ground (arith, e)
same_bytes_lem (suc n) a b e (suc i) h =
    same_bytes_lem n (λ j. a (suc j)) (λ j. b (suc j)) (ground (arith, e)) i (omega (arith, h))

-- What the test before an acknowledgement has seen.
pub record FirstAgain (con_id : ConnectionId) (addr : ℕ → ℕ) (addr_length : ℕ) (con : Peer)
    : Type 0 where
  pub own : con.con_id.id1 ≡ con_id.id1
  pub label : con.require_duplicate_label ≡ con_id.id0
  pub cursor : con.left_window_cursor ≡ packet_max_data_length
  pub bytes : (i : ℕ) → i < addr_length → addr i ≡ con.remote_addr i

and_cases : (a b : Bool) → (a && b) ≡ true → (a ≡ true) × (b ≡ true)
and_cases true b e = (refl, e)
and_cases false b e = cc

is_true : (m n : ℕ) → (m == n) ≡ true → m ≡ n
is_true m n e = ground (arith, e)

is_first_again_lem :
    (con_id : ConnectionId) (addr : ℕ → ℕ) (addr_length : ℕ) (con : Peer)
    → is_first_again con_id addr addr_length con ≡ true
    → FirstAgain con_id addr addr_length con
unfolding is_first_again sockaddrcmp
is_first_again_lem con_id addr addr_length con e =
    let words = con.con_id.id1 == con_id.id1 && con.require_duplicate_label == con_id.id0 in
    let place = con.left_window_cursor == packet_max_data_length in
    let same = sockaddrcmp addr addr_length con.remote_addr addr_length in
    let p = and_cases (words && place) same e in
    let q = and_cases words place p.0 in
    let z =
      and_cases (con.con_id.id1 == con_id.id1) (con.require_duplicate_label == con_id.id0) q.0 in
    record {
      own = is_true con.con_id.id1 con_id.id1 z.0;
      label = is_true con.require_duplicate_label con_id.id0 z.1;
      cursor = is_true con.left_window_cursor packet_max_data_length q.1;
      bytes = same_bytes_lem addr_length addr con.remote_addr (ground (arith, p.1));
    }

-- What an answer means: another reader is started for an id that does not wait, and an acknowledgement
-- goes out for a reader that holds exactly the first packet of the sender.
abbrev pub Justified :
    MsgType → ConnectionId → ℕ → (ℕ → ℕ) → ℕ → (ℕ → Peer) → Receiver → Answer → Type 0
Justified msgtype con_id send_time addr addr_length memory r ignored = Unit {0}
Justified msgtype con_id send_time addr addr_length memory r (restarted type s) =
    (lookup (wait_key con_id) r.waiting ≡ none) × (type ≡ require_of msgtype)
Justified msgtype con_id send_time addr addr_length memory r (acknowledged type id time place) =
    (offset reader : ℕ) × (lookup (wait_key con_id) r.waiting ≡ some offset)
    × (r.table.cid_array offset ≡ live reader)
    × FirstAgain con_id addr addr_length (memory reader)
    × (id ≡ (memory reader).con_id)
    × (time ≡ send_time)
    × (place ≡ packet_max_data_length)

address_live : (x : Slot) (a : ℕ) → address x ≡ some a → x ≡ live a
address_live (live b) a e = ap live (some_inj b a e)
  where
    some_inj : (m n : ℕ) → some m ≡ some n → m ≡ n
    some_inj m n h = cc
address_live empty a e = cc
address_live suspended a e = cc

-- Another reader is started only for an id that does not wait; an acknowledgement goes out only for the
-- reader at the offset that waits for the id, with the same two id words, the sender's address and
-- exactly the first packet, and it carries that reader's id, the time of the packet and its second place.
pub require_duplicate-Justified :
    (msgtype : MsgType) (con_id : ConnectionId) (send_time dt_note : ℕ) (addr : ℕ → ℕ)
    (addr_length : ℕ) (env : Surroundings) (memory : ℕ → Peer) (r : Receiver)
    → Justified msgtype con_id send_time addr addr_length memory r
        (require_duplicate msgtype con_id send_time dt_note addr addr_length env memory r)
unfolding require_duplicate get_connection
require_duplicate-Justified msgtype con_id send_time dt_note addr addr_length env memory r =
    elim (Option-cases (lookup (wait_key con_id) r.waiting)) [
      | inl e ↦ rw (e, require_duplicate) (e, refl)
      | inr (offset, e) ↦ elim (Option-cases (address (r.table.cid_array offset))) [
        | inl d ↦ rw (e, require_duplicate, get_connection, d) tt
        | inr (reader, d) ↦
            let con = memory reader in
            elim (Bool-cases (is_first_again con_id addr addr_length con)) [
              | inl first ↦
                  rw (e, require_duplicate, get_connection, d, first)
                    (
                      offset,
                      reader,
                      e,
                      address_live (r.table.cid_array offset) reader d,
                      is_first_again_lem con_id addr addr_length con first,
                      refl,
                      refl,
                      refl,
                    )
              | inr later ↦ rw (e, require_duplicate, get_connection, d, later) tt
            ]
      ]
    ]
