-- ===== src/AckCollector/Ack.antt =====
-- What an acknowledgement from `get_next_ack` of HDS_UDP_Connection_Ack_Info_Collector.cpp says
-- about the packets that have arrived.
use mathlib.Core.Path.{subst₂}
use native.Mathlib.Decide.{dec_lt}
use test_resend.Prelude.{
  ℕ, ◌+◌, ◌-◌, ◌*◌, ◌/◌, ◌%◌, ◌^◌, ◌≤◌, ◌<◌, ◌≡◌, ◌≢◌, refl, sym, ◌==◌, if◌then◌else◌, arith, ap,
  ◌∙◌, Bool, true, false, some, some-injective,
}
use test_resend.Prelude.Words.{u32, sub32}
use test_resend.Config.{packet_max_data_length}
use test_resend.AckCollector.{
  AckInfoCollector, AckType, ack, sack, max_bit_num, advance, ack_of, get_next_ack_pos,
  get_next_ack,
}
use test_resend.AckCollector.Repr.{Represents, small_pos}
use test_resend.AckCollector.Refine.{squeeze}

-- The `ack_time` that goes back to the sender.
abbrev pub time_of : AckInfoCollector → ℕ
time_of c = if u32 c.ack_time == 0 then u32 c.last_recv_time else u32 c.ack_time

-- The position, as bytes in an `unsigned int`, and the type that goes with it.
abbrev pub seq_at : AckInfoCollector → ℕ
seq_at c = u32 (c.last_ack_pos * packet_max_data_length)

forget_time :
    {recv : ℕ → Bool} {c : AckInfoCollector}
    → Represents recv c
    → Represents recv (record c { ack_time = 0 })
forget_time v = record {
  sized = v.sized;
  below = v.below;
  window = v.window;
  above = v.above;
  top = v.top;
  word = v.word;
}

abbrev quiet : AckInfoCollector → AckInfoCollector
quiet c = record c { ack_time = 0 }

next_run :
    (c c' : AckInfoCollector)
    → advance (max_bit_num + 1) (quiet c) ≡ some c'
    → get_next_ack c ≡ some ((ack_of c').0, (ack_of c').1, time_of c, c')
unfolding get_next_ack get_next_ack_pos
next_run c c' run = ground (arith, run)

-- `get_next_ack` always returns. Its `seq` is the position of the first packet that is missing,
-- all before it have arrived, the set of arrived packets is kept, and the time that it returns is
-- used up.
pub get_next_ack_refines :
    {recv : ℕ → Bool} {c : AckInfoCollector}
    → Represents recv c
    → (type : AckType) × (c' : AckInfoCollector) × (get_next_ack c
        ≡ some (type, seq_at c', time_of c, c'))
      × Represents recv c'
      × (recv c'.last_ack_pos ≡ false)
      × (c.last_ack_pos ≤ c'.last_ack_pos)
      × (c'.ack_time ≡ 0)
unfolding ack_of
get_next_ack_refines {c} v =
    let (c', run, a) = squeeze (forget_time v) in
    (_, c', next_run c c' run, a.repr, a.missing, a.grown, a.same_ack_time)

eq_of_test : {a b : ℕ} → (a == b) ≡ true → a ≡ b
eq_of_test e = ground arith

ne_of_test : {a b : ℕ} → (a == b) ≡ false → a ≢ b
ne_of_test e = ground arith

-- The result of a run, from the run of its loop.
record Found (recv : ℕ → Bool) (c : AckInfoCollector) (type : AckType) (c' : AckInfoCollector)
    : Type 0 where
  repr : Represents recv c'
  missing : recv c'.last_ack_pos ≡ false
  same_max_seq : c'.max_seq ≡ c.max_seq
  decided : type ≡ (if c'.max_seq == sub32 (seq_at c') packet_max_data_length then ack else sack)

found :
    {recv : ℕ → Bool} {c : AckInfoCollector} {type : AckType} {seq time : ℕ} {c' : AckInfoCollector}
    → Represents recv c
    → get_next_ack c ≡ some (type, seq, time, c')
    → Found recv c type c'
unfolding ack_of
found {recv} {c} v e =
    let (d, run, a) = squeeze (forget_time v) in
    let q = some-injective (sym (next_run c d run) ∙ e) in
    subst₂ (λ t x. Found recv c t x) (ap (λ r. r.0) q) (ap (λ r. r.3) q)
      (record { repr = a.repr; missing = a.missing; same_max_seq = a.same_max_seq; decided = refl })

decided_ack : (b : Bool) → ack ≡ (if b then ack else sack) → b ≡ true
decided_ack true e = refl
decided_ack false e = cc

decided_sack : (b : Bool) → sack ≡ (if b then ack else sack) → b ≡ false
decided_sack true e = cc
decided_sack false e = refl

-- The window cannot end one packet beyond `max_seq` when the result is a SACK.
no_further :
    {recv : ℕ → Bool} {c' : AckInfoCollector} (c : AckInfoCollector)
    → Represents recv c'
    → c'.max_seq ≢ sub32 (seq_at c') packet_max_data_length
    → c'.max_seq ≡ c.max_seq
    → c.max_seq % 1452 ≡ 0
    → c'.last_ack_pos ≤ c.max_seq / 1452
no_further {recv} {c'} c w other same aligned = elim (dec_lt (c.max_seq / 1452) c'.last_ack_pos) [
  | yes past ↦
      let before : recv (c'.last_ack_pos - 1) ≡ true = w.below _ (omega arith) in
      let top : c'.last_ack_pos - 1 ≤ c'.max_seq / 1452 = w.top _ before in
      absurd (other (omega arith))
  | no h ↦ omega arith
]

module _ {recv : ℕ → Bool} {c : AckInfoCollector} {seq time : ℕ} {c' : AckInfoCollector}
    (v : Represents recv c) (room : c.max_seq < 2 ^ 32 - 1452) where
  -- When the highest number seen leaves room for one packet, an ACK covers every packet that has
  -- arrived.
  ack_means_no_gap :
      get_next_ack c ≡ some (ack, seq, time, c') → (p : ℕ) → recv p ≡ true → p < c'.last_ack_pos
  ack_means_no_gap e p r =
      let f = found v e in
      let small : c'.last_ack_pos ≤ 2957967 = small_pos f.repr in
      let last : c'.max_seq ≡ sub32 (seq_at c') packet_max_data_length =
        eq_of_test
          (decided_ack (c'.max_seq == sub32 (seq_at c') packet_max_data_length) f.decided) in
      let top : p ≤ c'.max_seq / 1452 = f.repr.top p r in omega (arith, f.same_max_seq)

  -- When the highest number seen leaves room for one packet and is at a packet boundary, a SACK names
  -- a missing packet that is not above the highest one seen.
  sack_means_gap :
      c.max_seq % 1452 ≡ 0
      → get_next_ack c ≡ some (sack, seq, time, c')
      → (c'.last_ack_pos ≤ c.max_seq / 1452) × (recv c'.last_ack_pos ≡ false)
  sack_means_gap aligned e =
      let f = found v e in
      let small : c'.last_ack_pos ≤ 2957967 = small_pos f.repr in
      let other : c'.max_seq ≢ sub32 (seq_at c') packet_max_data_length =
        ne_of_test
          (decided_sack (c'.max_seq == sub32 (seq_at c') packet_max_data_length) f.decided) in
      (no_further c f.repr other f.same_max_seq aligned, f.missing)
