-- ===== src/ComplexReader/Packets.antt =====
-- The packets that reach the reader of hds_udp/connection/HDS_UDP_Complex_Connection.cpp.
use mathlib.Core.Bool.{false≢true}
use mathlib.Core.Path.{subst}
use test_resend.Prelude.{
  ℕ, ◌*◌, ◌/◌, ◌<◌, ◌^◌, ◌≡◌, ◌⊎◌, inl, inr, refl, sym, ap, ◌∙◌, arith, Bool, true, false, ◌||◌,
  ◌==◌, Bool-cases, ==_iff, List, [], ◌∷◌, length, get_or, Option, none, some,
}
use test_resend.Prelude.Int.{ℤ}
use test_resend.Atomic.{is_one}
use test_resend.Connection.{
  Connection, Effect, force_stop_bit, trans_suc_bit, test_status, memcpy_at,
}
use test_resend.AckCollector.{AckInfoCollector}
use test_resend.AckCollector.Repr.{Represents}
use test_resend.AckCollector.Refine.{
  insert, old_value, SetOutcome, stored, late, beyond, set_seq_refines,
}
use test_resend.AckCollector.Ack.{seq_at, time_of, get_next_ack_refines}
use test_resend.Writer.{count_run}
use test_resend.SimpleTransfer.{deliveries}
use test_resend.SimpleTransfer.Chunks.{chunk, length-chunk, length-memcpy_at}
use test_resend.ComplexReader.{finished_reply, store, do_network_data}
use test_resend.ComplexReader.Bytes.{copied_right, stays_right}
use test_resend.ComplexReader.Invariant.{State, acts, arms, Inv, Quiet-Inv}
use test_resend.ComplexReader.Timers.{Result}

-- The collector's report of an old packet is 1 only where the packet was there.
seen_before : (p : ℕ) (seen : Bool) → is_one (old_value p seen) ≡ true → seen ≡ true
seen_before p seen e = ground arith

insert-grows : (p : ℕ) (recv : ℕ → Bool) (q : ℕ) → recv q ≡ true → insert p recv q ≡ true
insert-grows p recv q e = ground arith

insert-same :
    (p : ℕ) (recv : ℕ → Bool) (q : ℕ) → recv p ≡ true → insert p recv q ≡ true → recv q ≡ true
insert-same p recv q e f = elim (Bool-cases (p == q)) [
  | inl same ↦ let eq : p ≡ q = (==_iff _ _).0 same in ap recv (sym eq) ∙ e
  | inr other ↦ ground arith
]

insert-other :
    (p : ℕ) (recv : ℕ → Bool) (q : ℕ) → insert p recv q ≡ true → (p ≡ q) ⊎ (recv q ≡ true)
insert-other p recv q f = elim (Bool-cases (p == q)) [
  | inl same ↦ inl ((==_iff _ _).0 same)
  | inr other ↦ inr (ground arith)
]

module _ (message : List ℕ) (small : length message < 2 ^ 32) (s : State) (v : Inv message s)
    (p : ℕ) (within : p * 1452 < length message) where
  abbrev seq : ℕ
  seq = p * 1452

  number : seq / 1452 ≡ p
  number = omega arith

  -- The buffer after the copy is right where it was right and in the packet.
  right_after :
      (i : ℕ)
      → i < length message
      → insert p v.recv (i / 1452) ≡ true
      → get_or (memcpy_at seq (chunk message seq) s.reader.transmit_buf) i 0 ≡ get_or message i 0
  right_after i h e = elim (insert-other p v.recv (i / 1452) e) [
    | inl same ↦
        copied_right seq message s.reader.transmit_buf v.size within i h (omega arith) (omega arith)
    | inr old ↦ stays_right seq message s.reader.transmit_buf v.size within i h (v.right i h old)
  ]

  armed_before : (s.armed || false) ≡ true → s.armed ≡ true
  armed_before e = ground arith

  refused-Inv :
      (k : AckInfoCollector)
      → Represents v.recv k
      → Inv message (acts s (record { base = count_run s.reader.base; collector = k }, []))
  unfolding count_run test_status
  refused-Inv k w = record {
    recv = v.recv;
    repr = w;
    len = v.len;
    size = v.size;
    right = v.right;
    covered = λ e. v.covered (armed_before e);
    output = v.output;
  }

  store-Inv :
      (r : Option ℤ × AckInfoCollector)
      → SetOutcome v.recv p r
      → Inv message (acts s (store seq (chunk message seq) r (count_run s.reader.base), []))
  unfolding store count_run test_status
  store-Inv (some _, k) (stored w) = elim (Bool-cases (is_one (old_value p (v.recv p)))) [
    | inl old ↦ rw old (record {
      recv = insert p v.recv;
      repr = w;
      len = v.len;
      size = v.size;
      right =
          λ i h e. v.right i h (insert-same p v.recv (i / 1452) (seen_before p (v.recv p) old) e);
      covered = λ e i h. insert-grows p v.recv (i / 1452) (v.covered (armed_before e) i h);
      output = v.output;
    })
    | inr fresh ↦ rw fresh (record {
      recv = insert p v.recv;
      repr = w;
      len = v.len;
      size =
          length-memcpy_at seq (chunk message seq) s.reader.transmit_buf
            (omega (arith, length-chunk message seq, v.size))
          ∙ v.size;
      right = right_after;
      covered = λ e i h. insert-grows p v.recv (i / 1452) (v.covered (armed_before e) i h);
      output = v.output;
    })
  ]
  store-Inv (none, k) (late seen w) = refused-Inv k w
  store-Inv (none, k) (beyond gap far w) = refused-Inv k w

  finished-Inv :
      (k : AckInfoCollector) (e : Effect)
      → deliveries (e ∷ []) ≡ []
      → arms (e ∷ []) ≡ false
      → Represents v.recv k
      → Inv message (acts s (record s.reader { collector = k }, e ∷ []))
  finished-Inv k e quiet calm w = Quiet-Inv message s v {es = e ∷ []} (record {
    same = record { buf = refl; len = refl; cursor = refl };
    keeps = λ f. f;
    delivers = quiet;
    arming = λ a. absurd (false≢true (sym calm ∙ a));
    repr = w;
  })

  finished_quiet :
      (ack_seq time : ℕ) (c : Connection)
      → (deliveries (finished_reply ack_seq time c ∷ []) ≡ [])
        × (arms (finished_reply ack_seq time c ∷ []) ≡ false)
  unfolding finished_reply
  finished_quiet ack_seq time c = ground arith

  -- A packet of the message, whether it is new, has arrived before or is out of reach.
  pub network-Result :
      (time : ℕ) → Result message s (do_network_data seq time (chunk message seq) s.reader)
  unfolding do_network_data
  network-Result time =
      elim (Bool-cases
        (test_status force_stop_bit s.reader.base || test_status trans_suc_bit s.reader.base)) [
          | inl e ↦
              let (type, k, run, w, _, _, _) = get_next_ack_refines v.repr in
              let answer = finished_reply (seq_at k) (time_of s.reader.collector) s.reader.base in
              let quiet = finished_quiet (seq_at k) (time_of s.reader.collector) s.reader.base in
              (
                (record s.reader { collector = k }, answer ∷ []),
                rw (e, run, do_network_data),
                finished-Inv k answer quiet.0 quiet.1 w,
              )
          | inr e ↦
              let (r, run, outcome) = set_seq_refines seq time v.repr (omega arith) in
              (
                (store seq (chunk message seq) r (count_run s.reader.base), []),
                rw (e, run, do_network_data),
                store-Inv r (subst (λ j. SetOutcome v.recv j r) number outcome),
              )
        ]
