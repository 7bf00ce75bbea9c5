-- ===== src/SimpleTransfer/Invariant.antt =====
-- What holds at every moment of a transfer by hds_udp/connection/HDS_UDP_Simple_Connection.cpp.
use test_resend.Prelude.{
  ℕ, ◌+◌, ◌≤◌, ◌<◌, ◌^◌, ◌≡◌, ◌⊎◌, inl, inr, refl, sym, ap, ◌∙◌, arith, true, Bool-cases, ==_iff,
  ◌==◌, List, [], ◌∷◌, ◌++◌, length, take, take_all, length-replicate,
}
use test_resend.Prelude.Words.{u32}
use test_resend.Wire.{ConnectionId}
use test_resend.Connection.{
  Connection, Effect, Packet, memcpy_at, simple_file_require, simple_file_require_duplicate,
  simple_file_data, simple_file_ack, msg_reset, last_byte, test_status,
}
use test_resend.Writer.{Writer}
use test_resend.SimpleReader.{SimpleReader, do_network_data}
use test_resend.SimpleTransfer.{
  System, Step, send, writer_timer, reader_timer, open_reader, repeat, arrive, answer,
  require_duplicate, reader_acts, seq_of_kind, Reach, here, next, start, seq_of, packets,
  deliveries,
}
use test_resend.SimpleTransfer.Chunks.{chunk, length-chunk, length-memcpy_at, prefix_grows}
use test_resend.SimpleTransfer.WriterFrame.{
  SameData, Silent, Carries, Sends, Raised, do_send-Sends, time_out-Silent, do_network_data-Raised,
}
use test_resend.SimpleTransfer.ReaderFrame.{ended, Idle, Stays, Takes, time_out-Idle, network-cases}

abbrev pub All {ℓ} : {A : Type ℓ} → (A → Type 0) → List A → Type 0
All P [] = Unit {0}
All P (x ∷ xs) = P x × All P xs

All-at {ℓ} :
    {A : Type ℓ} (P : A → Type 0) (before after : List A) (x : A)
    → All P (before ++ (x ∷ after))
    → P x
All-at P [] after x h = h.0
All-at P (y ∷ before) after x h = All-at P before after x h.1

All-map {ℓ} :
    {A : Type ℓ} (P Q : A → Type 0) → ((x : A) → P x → Q x) → (xs : List A) → All P xs → All Q xs
All-map P Q f [] h = tt
All-map P Q f (x ∷ xs) h = (f x h.0, All-map P Q f xs h.1)

-- An acknowledgement names no byte that the reader has not passed.
abbrev pub Acks : ℕ → Packet → Type 0
Acks cursor p = p.msgtype ≡ simple_file_ack → p.dt_note ≤ cursor

Acks-mono : (a b : ℕ) (ps : List Packet) → a ≤ b → All (Acks a) ps → All (Acks b) ps
Acks-mono a b ps h =
    All-map (Acks a) (Acks b) (λ p f e. let q : p.dt_note ≤ a = f e in omega arith) ps

-- The writer holds the message, and is not ahead of the reader.
pub record WriterInv (message : List ℕ) (cursor : ℕ) (w : Writer) : Type 0 where
  pub buf : w.transmit_buf ≡ message
  pub len : w.transmit_buf_length ≡ length message
  pub behind : w.left_window_cursor ≤ cursor

-- The reader holds the message up to its cursor.
pub record ReaderInv (message : List ℕ) (r : SimpleReader) : Type 0 where
  pub len : r.transmit_buf_length ≡ length message
  pub size : length r.transmit_buf ≡ length message
  pub prefix : take r.left_window_cursor r.transmit_buf ≡ take r.left_window_cursor message
  pub below : r.left_window_cursor < length message + 1452

-- At most one delivery, of the message itself, and then the transfer has ended.
abbrev pub Output : List ℕ → SimpleReader → List (List ℕ) → Type 0
Output message r out = (out ≡ []) ⊎ ((out ≡ message ∷ []) × (ended r.base ≡ true))

pub record Inv (message : List ℕ) (s : System) : Type 0 where
  pub writes : WriterInv message s.reader.left_window_cursor s.writer
  pub reads : ReaderInv message s.reader
  pub carried : All (Carries message) s.to_reader
  pub acked : All (Acks s.reader.left_window_cursor) s.to_writer
  pub output : Output message s.reader s.delivered

pub start-Inv : (message : List ℕ) (w r : ConnectionId) → Inv message (start message w r)
start-Inv message w r = record {
  writes = record { buf = refl; len = refl; behind = omega arith };
  reads = record {
    len = refl;
    size = length-replicate (length message) 0;
    prefix = refl;
    below = omega arith;
  };
  carried = tt;
  acked = tt;
  output = inl refl;
}

-- One answer more, when the cursor may have grown.
more_acks :
    (a b : ℕ) (p : Packet) (es : List Effect) (ps : List Packet)
    → packets es ≡ p ∷ []
    → Acks b p
    → a ≤ b
    → All (Acks a) ps
    → All (Acks b) (packets es ++ ps)
more_acks a b p es ps e h le old = rw e (h, Acks-mono a b ps le old)

same_end : (a b : Connection) → a.status ≡ b.status → ended a ≡ ended b
unfolding test_status
same_end a b e = ground arith

reset_or_ack :
    (cursor : ℕ) (p : Packet) → (p.msgtype ≡ msg_reset) ⊎ (p.dt_note ≡ u32 cursor) → Acks cursor p
reset_or_ack cursor p h e = ground arith

-- `start_recver` has run.
started-Inv :
    {message : List ℕ} {s : System} → Inv message s → Inv message (record s { started = true })
started-Inv v = record {
  writes = v.writes;
  reads = v.reads;
  carried = v.carried;
  acked = v.acked;
  output = v.output;
}

seq_of_require :
    (p : Packet)
    → (p.msgtype ≡ simple_file_require) ⊎ (p.msgtype ≡ simple_file_require_duplicate)
    → seq_of p ≡ 0
unfolding seq_of_kind
seq_of_require p (inl e) = rw e
seq_of_require p (inr e) = rw e

seq_of_data : (p : Packet) → p.msgtype ≡ simple_file_data → seq_of p ≡ p.dt_note
unfolding seq_of_kind
seq_of_data p e = rw e

module _ (message : List ℕ) (positive : 0 < length message) (small : length message < 2 ^ 31) where
  same-WriterInv :
      {cursor : ℕ} {w w' : Writer}
      → SameData w'.base w.base
      → WriterInv message cursor w
      → WriterInv message cursor w'
  same-WriterInv d i = record {
    buf = d.buf ∙ i.buf;
    len = d.len ∙ i.len;
    behind = rw d.cursor i.behind;
  }

  same-ReaderInv :
      {r r' : SimpleReader} → SameData r'.base r.base → ReaderInv message r → ReaderInv message r'
  same-ReaderInv d i = record {
    len = d.len ∙ i.len;
    size = ap length d.buf ∙ i.size;
    prefix = rw (d.cursor, d.buf) i.prefix;
    below = rw d.cursor i.below;
  }

  -- The copy of a packet at the cursor.
  taken-ReaderInv :
      (p : Packet) {r r' : SimpleReader} {es : List Effect}
      → Carries message p
      → Takes (seq_of p) p.payload r r' es
      → ReaderInv message r
      → ReaderInv message r'
  taken-ReaderInv p {r} {r'} c t i =
      let seq = seq_of p in
      let cursor : r'.left_window_cursor ≡ seq + 1452 = omega (arith, t.cursor, c.inside) in
      let buf : r'.transmit_buf ≡ memcpy_at seq (chunk message seq) r.transmit_buf =
        t.buf ∙ ap (λ b. memcpy_at seq b r.transmit_buf) c.bytes in
      let fits : seq + length (chunk message seq) ≤ length r.transmit_buf =
        omega (arith, length-chunk message seq, i.size, c.inside) in
      let before : take seq r.transmit_buf ≡ take seq message =
        ap (λ k. take k r.transmit_buf) (sym t.at_cursor)
        ∙ i.prefix
        ∙ ap (λ k. take k message) t.at_cursor in
      record {
        len = t.len ∙ i.len;
        size =
            ap length buf ∙ length-memcpy_at seq (chunk message seq) r.transmit_buf fits ∙ i.size;
        prefix = rw (cursor, buf) (prefix_grows seq message r.transmit_buf i.size c.inside before);
        below = omega (arith, c.inside);
      }

  -- A cursor beyond the last byte means that the whole message is there.
  pub whole :
      {r : SimpleReader}
      → ReaderInv message r
      → last_byte r.base < r.left_window_cursor
      → r.transmit_buf ≡ message
  whole {r} i past =
      sym (take_all r.left_window_cursor r.transmit_buf (omega (arith, i.size, i.len)))
      ∙ i.prefix
      ∙ take_all r.left_window_cursor message (omega (arith, i.len))

  grown_cursor :
      (p : Packet) {r r' : SimpleReader} {es : List Effect}
      → Carries message p
      → Takes (seq_of p) p.payload r r' es
      → r.left_window_cursor ≤ r'.left_window_cursor
  grown_cursor p c t = omega (arith, t.cursor, t.at_cursor, c.inside)

  taken-Output :
      (p : Packet) {r r' : SimpleReader} {es : List Effect} {out : List (List ℕ)}
      → Takes (seq_of p) p.payload r r' es
      → ReaderInv message r'
      → Output message r out
      → Output message r' (deliveries es ++ out)
  taken-Output p {r} {r'} t i o = ground (arith, whole {r = r'} i)

  module _ (s : System) (v : Inv message s) where
    Sends-Inv :
        {w' : Writer} {es : List Effect}
        → Sends message s.writer w' es
        → Inv message (record s { writer = w'; to_reader = packets es ++ s.to_reader })
    Sends-Inv d = record {
      writes = same-WriterInv d.same v.writes;
      reads = v.reads;
      carried = ground (arith, d.sent, v.carried);
      acked = v.acked;
      output = v.output;
    }

    Silent-Inv :
        {w' : Writer} {es : List Effect}
        → Silent w'.base s.writer.base es
        → Inv message (record s { writer = w'; to_reader = packets es ++ s.to_reader })
    Silent-Inv q = record {
      writes = same-WriterInv q.same v.writes;
      reads = v.reads;
      carried = rw q.sends v.carried;
      acked = v.acked;
      output = v.output;
    }

    Raised-Inv :
        (seq : ℕ) {w' : Writer} {es : List Effect}
        → seq ≤ s.reader.left_window_cursor
        → Raised seq s.writer w' es
        → Inv message (record s { writer = w'; to_reader = packets es ++ s.to_reader })
    Raised-Inv seq h q = record {
      writes = record {
        buf = q.buf ∙ v.writes.buf;
        len = q.len ∙ v.writes.len;
        behind = omega (arith, q.cursor, v.writes.behind);
      };
      reads = v.reads;
      carried = rw q.sends v.carried;
      acked = v.acked;
      output = v.output;
    }

    Idle-Inv :
        {r' : SimpleReader} {es : List Effect}
        → Idle s.reader.base r'.base es
        → Inv message (record s {
          reader = r';
          to_writer = packets es ++ s.to_writer;
          delivered = deliveries es ++ s.delivered;
        })
    Idle-Inv {r'} q = record {
      writes = rw q.silent.same.cursor v.writes;
      reads = same-ReaderInv q.silent.same v.reads;
      carried = v.carried;
      acked = rw (q.silent.sends, q.silent.same.cursor) v.acked;
      output = ground (arith, v.output, q.keeps, q.silent.delivers);
    }

    Stays-Inv :
        {r' : SimpleReader} {es : List Effect}
        → Stays s.reader r' es
        → Inv message (record s {
          reader = r';
          to_writer = packets es ++ s.to_writer;
          delivered = deliveries es ++ s.delivered;
        })
    Stays-Inv {r'} {es} q = record {
      writes = rw q.same.cursor v.writes;
      reads = same-ReaderInv q.same v.reads;
      carried = v.carried;
      acked =
          let (p, e, h) = q.answers in
          more_acks s.reader.left_window_cursor r'.left_window_cursor p es s.to_writer e
            (reset_or_ack r'.left_window_cursor p h) (omega (arith, q.same.cursor)) v.acked;
      output = rw (q.delivers, same_end r'.base s.reader.base q.status) v.output;
    }

    Takes-Inv :
        (p : Packet) {r' : SimpleReader} {es : List Effect}
        → Carries message p
        → Takes (seq_of p) p.payload s.reader r' es
        → Inv message (record s {
          reader = r';
          to_writer = packets es ++ s.to_writer;
          delivered = deliveries es ++ s.delivered;
        })
    Takes-Inv p {r'} {es} c t =
        let i = taken-ReaderInv p c t v.reads in
        record {
          writes = record {
            buf = v.writes.buf;
            len = v.writes.len;
            behind = omega (arith, v.writes.behind, grown_cursor p c t);
          };
          reads = i;
          carried = v.carried;
          acked =
              let (a, e, h) = t.answers in
              more_acks s.reader.left_window_cursor r'.left_window_cursor a es s.to_writer e
                (reset_or_ack r'.left_window_cursor a (inr h)) (grown_cursor p c t) v.acked;
          output = taken-Output p t i v.output;
        }

    small_cursor : s.writer.left_window_cursor < 2 ^ 32
    small_cursor = omega (arith, v.writes.behind, v.reads.below)

    carried_at :
        (before after : List Packet) (p : Packet)
        → s.to_reader ≡ before ++ (p ∷ after)
        → Carries message p
    carried_at before after p e = All-at (Carries message) before after p (rw (sym e) v.carried)

    -- A packet that reaches the reader's handler under its own number.
    handled-Inv :
        (seq : ℕ) (p : Packet)
        → Carries message p
        → seq_of p ≡ seq
        → Inv message (reader_acts s (do_network_data seq p.send_time p.payload s.reader))
    handled-Inv seq p c same =
        rw (sym same) (elim (network-cases (seq_of p) p.send_time p.payload s.reader) [
          | inl q ↦ Stays-Inv q
          | inr q ↦ Takes-Inv p c q
        ])

    repeat-Inv :
        (time : ℕ) → Inv message (reader_acts s (s.reader, require_duplicate time s.reader.base))
    unfolding require_duplicate
    repeat-Inv time = elim (Bool-cases (s.reader.left_window_cursor == 1452)) [
      | inl first ↦ record {
        writes = v.writes;
        reads = v.reads;
        carried = v.carried;
        acked = rw first ((λ _. omega (arith, (==_iff _ _).0 first)), v.acked);
        output = rw first v.output;
      }
      | inr later ↦ record {
        writes = v.writes;
        reads = v.reads;
        carried = v.carried;
        acked = rw later v.acked;
        output = rw later v.output;
      }
    ]

    Step-Inv : {t : System} → Step s t → Inv message t
    Step-Inv (send clock) =
        Sends-Inv (
          do_send-Sends clock message s.writer v.writes.buf v.writes.len positive small
            small_cursor)
    Step-Inv (writer_timer type rc) = Silent-Inv (time_out-Silent type rc s.writer)
    Step-Inv (reader_timer type rc) = Idle-Inv (time_out-Idle type rc s.reader).0
    Step-Inv (open_reader before after p e kind _) =
        started-Inv (handled-Inv 0 p (carried_at before after p e) (seq_of_require p kind))
    Step-Inv (repeat before after p e kind _) = repeat-Inv p.send_time
    Step-Inv (arrive before after p e kind _) =
        handled-Inv p.dt_note p (carried_at before after p e) (seq_of_data p kind)
    Step-Inv (answer before after p clock e kind) =
        let h : Acks s.reader.left_window_cursor p =
          All-at (Acks s.reader.left_window_cursor) before after p (rw (sym e) v.acked) in
        Raised-Inv p.dt_note (h kind) (do_network_data-Raised clock p.dt_note p.send_time s.writer)

  pub Reach-Inv : {s t : System} → Inv message s → Reach s t → Inv message t
  Reach-Inv v here = v
  Reach-Inv v (next r q) = Step-Inv _ (Reach-Inv v r) q
