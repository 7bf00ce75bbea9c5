-- ===== src/Wire/Addressing.antt =====
-- The packet header of hds_udp/connection/HDS_UDP_Connection.h, from the sender to the receiver.
use test_resend.Prelude.{ℕ, ◌+◌, ◌≤◌, ◌<◌, ◌^◌, ◌≡◌, refl, arith, List, length, inr, ◌∙◌}
use test_resend.Wire.{
  ConnectionId, Header, open_cdr, fill_header, unfill_header, read_ulong, put_word, get_word,
}
use test_resend.Wire.Bytes.{length-put_word, get_word-put_word_self, get_word-put_word_ne}

-- The id as the other side names it: its own word comes first.
abbrev pub swapped : ConnectionId → ConnectionId
swapped i = record { id0 = i.id1; id1 = i.id0 }

pub record Fits (h : Header) : Type 0 where
  pub id0 : h.con_id.id0 < 2 ^ 32
  pub id1 : h.con_id.id1 < 2 ^ 32
  pub time : h.send_time < 2 ^ 32
  pub note : h.dt_note < 2 ^ 32

module _ (msgtype : ℕ) (h : Header) (packet : List ℕ) (room : 20 ≤ length packet) where
  abbrev after_type : List ℕ
  after_type = put_word 0 msgtype packet

  abbrev after_id1 : List ℕ
  after_id1 = put_word 4 h.con_id.id1 after_type

  abbrev after_id0 : List ℕ
  after_id0 = put_word 8 h.con_id.id0 after_id1

  abbrev after_time : List ℕ
  after_time = put_word 12 h.send_time after_id0

  abbrev after_note : List ℕ
  after_note = put_word 16 h.dt_note after_time

  sizes :
      (length after_type ≡ length packet)
      × (length after_id1 ≡ length packet)
      × (length after_id0 ≡ length packet)
      × (length after_time ≡ length packet)
  sizes = omega (
    arith,
    length-put_word 0 msgtype packet,
    length-put_word 4 h.con_id.id1 after_type,
    length-put_word 8 h.con_id.id0 after_id1,
    length-put_word 12 h.send_time after_id0,
  )

  -- A word below position `q` outlives the writes from there on.
  past_note : (q : ℕ) → q + 4 ≤ 16 → get_word q after_note ≡ get_word q after_time
  past_note q b = get_word-put_word_ne 16 q h.dt_note after_time (omega (arith, sizes)) (inr b)

  past_time : (q : ℕ) → q + 4 ≤ 12 → get_word q after_time ≡ get_word q after_id0
  past_time q b = get_word-put_word_ne 12 q h.send_time after_id0 (omega (arith, sizes)) (inr b)

  past_id0 : (q : ℕ) → q + 4 ≤ 8 → get_word q after_id0 ≡ get_word q after_id1
  past_id0 q b = get_word-put_word_ne 8 q h.con_id.id0 after_id1 (omega (arith, sizes)) (inr b)

  past_id1 : (q : ℕ) → q + 4 ≤ 4 → get_word q after_id1 ≡ get_word q after_type
  past_id1 q b = get_word-put_word_ne 4 q h.con_id.id1 after_type (omega (arith, sizes)) (inr b)

  got_type : msgtype < 2 ^ 32 → get_word 0 after_note ≡ msgtype
  got_type small =
      past_note 0 (omega arith)
      ∙ past_time 0 (omega arith)
      ∙ past_id0 0 (omega arith)
      ∙ past_id1 0 (omega arith)
      ∙ get_word-put_word_self 0 msgtype packet (omega arith) small

  module _ (f : Fits h) where
    got_id1 : get_word 4 after_note ≡ h.con_id.id1
    got_id1 =
        past_note 4 (omega arith)
        ∙ past_time 4 (omega arith)
        ∙ past_id0 4 (omega arith)
        ∙ get_word-put_word_self 4 h.con_id.id1 after_type (omega (arith, sizes)) f.id1

    got_id0 : get_word 8 after_note ≡ h.con_id.id0
    got_id0 =
        past_note 8 (omega arith)
        ∙ past_time 8 (omega arith)
        ∙ get_word-put_word_self 8 h.con_id.id0 after_id1 (omega (arith, sizes)) f.id0

    got_time : get_word 12 after_note ≡ h.send_time
    got_time =
        past_note 12 (omega arith)
        ∙ get_word-put_word_self 12 h.send_time after_id0 (omega (arith, sizes)) f.time

    got_note : get_word 16 after_note ≡ h.dt_note
    got_note = get_word-put_word_self 16 h.dt_note after_time (omega (arith, sizes)) f.note

  -- With at least 20 bytes of room and values that fit 32 bits, the receiver reads from a filled
  -- header the type, the time and the note as they were written, and the connection id with its two
  -- words exchanged. The payload starts at byte 20, and the packet keeps its size.
  pub unfill-fill :
      msgtype < 2 ^ 32
      → Fits h
      → let filled = fill_header msgtype h (open_cdr packet) in
        ((read_ulong (open_cdr filled.buf)).0 ≡ msgtype)
        × ((unfill_header (open_cdr filled.buf)).0 ≡ record h { con_id = swapped h.con_id })
        × ((unfill_header (open_cdr filled.buf)).1.pos ≡ filled.pos)
        × (filled.pos ≡ 20)
        × (length filled.buf ≡ length packet)
  unfolding fill_header unfill_header
  unfill-fill small f = (
    got_type small,
    λ i. record {
      con_id = record { id0 = got_id1 f i; id1 = got_id0 f i };
      send_time = got_time f i;
      dt_note = got_note f i;
    },
    refl,
    refl,
    length-put_word 16 h.dt_note after_time ∙ sizes.3,
  )
