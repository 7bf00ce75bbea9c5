-- ===== src/AckCollector/Refine.antt =====
-- `set` and `get_next_ack` of HDS_UDP_Connection_Ack_Info_Collector.cpp as operations on the set of
-- the packet numbers that have arrived.
use mathlib.Core.Bool.{false≢true}
use native.Mathlib.Decide.{dec_lt}
use test_resend.Prelude.{
  ℕ, ◌+◌, ◌/◌, ◌%◌, ◌^◌, ◌≤◌, ◌<◌, ◌≡◌, ◌≢◌, sym, ◌==◌, if◌then◌else◌, arith, ap, ◌∙◌, ltb, leb,
  Bool, Bool-cases, true, false, inl, inr, Option, none, some, ==_iff, leb→le, ltb→lt,
}
use test_resend.Prelude.Int.{ℤ, pos, negsuc}
use test_resend.Prelude.Digits.{bit}
use test_resend.Prelude.Words.{add64}
use test_resend.Atomic.{shifted_bit}
use test_resend.Atomic.Bits.{shifted_bit-low, shifted_bit_sign}
use test_resend.AckCollector.{
  AckInfoCollector, max_bit_num, advance, record_arrival, raise_max_seq, set_after_squeeze, set_pos,
  set_seq,
}
use test_resend.Prelude.BitArrays.{bit_at}
use test_resend.AckCollector.Bitmap.{bit_at-set, length-bitmap_test_and_set, test_and_set_result}
use test_resend.AckCollector.Repr.{Represents, bit_of, small_pos, Advanced, advance_total}

-- The set with one packet number more.
abbrev pub insert : ℕ → (ℕ → Bool) → ℕ → Bool
insert p recv q = if p == q then true else recv q

not_leb : (a b : ℕ) → leb a b ≡ false → b < a
not_leb a b e = ground arith

not_ltb : (a b : ℕ) → ltb a b ≡ false → b ≤ a
not_ltb a b e = ground arith

-- What `*oldvalue` is: the old bit, but -1 at the sign bit of a word.
abbrev pub old_value : ℕ → Bool → ℤ
old_value inpos seen = if seen then (if inpos % 64 == 63 then negsuc 0 else pos 1) else pos 0

shifted_bit-bit_of :
    (k w : ℕ) (b : Bool)
    → k < 64
    → bit w k ≡ bit_of b
    → shifted_bit k w ≡ (if b then (if k == 63 then negsuc 0 else pos 1) else pos 0)
shifted_bit-bit_of k w b h e = elim (Bool-cases (k == 63)) [
  | inl top ↦
      let q : k ≡ 63 = (==_iff _ _).0 top in
      rw (q, shifted_bit_sign w) (ground (arith, ap (λ (j : ℕ). bit w j) q))
  | inr low ↦ rw (shifted_bit-low k w (ground arith)) (ground arith)
]

raise-Represents :
    {recv : ℕ → Bool} {c : AckInfoCollector} (seq : ℕ)
    → seq < 2 ^ 32
    → Represents recv c
    → Represents recv (raise_max_seq seq c)
unfolding raise_max_seq
raise-Represents {recv} {c} seq h v = elim (Bool-cases (ltb c.max_seq seq)) [
  | inl up ↦ rw up (record {
    sized = v.sized;
    below = v.below;
    window = v.window;
    above = v.above;
    top = λ p r. let t : p ≤ c.max_seq / 1452 = v.top p r in ground arith;
    word = h;
  })
  | inr stay ↦ rw stay v
]

raise_reaches : (seq : ℕ) (c : AckInfoCollector) → seq / 1452 ≤ (raise_max_seq seq c).max_seq / 1452
unfolding raise_max_seq
raise_reaches seq c = ground arith

module _ {recv : ℕ → Bool} {c : AckInfoCollector} (v : Represents recv c) (inpos recv_time : ℕ)
    (lo : c.last_ack_pos ≤ inpos) (hi : inpos < c.last_ack_pos + max_bit_num)
    (known : inpos ≤ c.max_seq / 1452) where
  unfoldable pub arrived : AckInfoCollector
  arrived = (record_arrival inpos recv_time c).1

  arrived_bit :
      (j : ℕ)
      → bit_at arrived.bitmap j ≡ (if inpos % max_bit_num == j then 1 else bit_at c.bitmap j)
  unfolding arrived record_arrival
  arrived_bit j = bit_at-set c.bitmap (inpos % max_bit_num) (omega arith) v.sized j

  pub arrival-Represents : Represents (insert inpos recv) arrived
  unfolding arrived record_arrival
  arrival-Represents = record {
    sized = length-bitmap_test_and_set (inpos % max_bit_num) c.bitmap ∙ v.sized;
    below = λ p h. ground (arith, v.below p h);
    window = λ p a b. elim (Bool-cases (inpos % max_bit_num == p % max_bit_num)) [
      | inl same ↦
          let q : inpos ≡ p = meet p a b ((==_iff _ _).0 same) in
          rw (arrived_bit (p % max_bit_num), same) (ground arith)
      | inr other ↦
          let d : inpos ≢ p = λ q. apart (ap (λ (t : ℕ). t % max_bit_num) q) other in
          rw (arrived_bit (p % max_bit_num), other) (ground (arith, v.window p a b))
    ];
    above = λ p h. ground (arith, v.above p h);
    top = λ p h. elim (Bool-cases (inpos == p)) [
      | inl same ↦ let q : inpos ≡ p = (==_iff _ _).0 same in omega arith
      | inr other ↦ v.top p (ground arith)
    ];
    word = v.word;
  }
    where
      apart : {a b : ℕ} → a ≡ b → (a == b) ≡ false → ⊥
      apart q n = ground arith

      meet :
          (p : ℕ)
          → c.last_ack_pos ≤ p
          → p < c.last_ack_pos + max_bit_num
          → inpos % max_bit_num ≡ p % max_bit_num
          → inpos ≡ p
      meet p a b e = omega arith

  arrival_old : (record_arrival inpos recv_time c).0 ≡ old_value inpos (recv inpos)
  unfolding record_arrival
  arrival_old =
      test_and_set_result (inpos % max_bit_num) c.bitmap
      ∙ shifted_bit-bit_of (inpos % max_bit_num % 64) _ (recv inpos) (omega arith)
          (v.window inpos lo hi)
      ∙ ap (λ (k : ℕ). if recv inpos then (if k == 63 then negsuc 0 else pos 1) else pos 0)
          (omega arith)

-- What `set` may do with packet `inpos`, when `recv` had arrived before.
pub data SetOutcome (recv : ℕ → Bool) (inpos : ℕ) : Option ℤ × AckInfoCollector → Type 0 where
  stored :
      {c' : AckInfoCollector}
      → Represents (insert inpos recv) c'
      → SetOutcome recv inpos (some (old_value inpos (recv inpos)), c')
  late :
      {c' : AckInfoCollector}
      → recv inpos ≡ true
      → Represents recv c'
      → SetOutcome recv inpos (none, c')
  beyond :
      {c' : AckInfoCollector}
      → recv c'.last_ack_pos ≡ false
      → c'.last_ack_pos + max_bit_num ≤ inpos
      → Represents recv c'
      → SetOutcome recv inpos (none, c')

module _ {recv : ℕ → Bool} {c : AckInfoCollector} (v : Represents recv c) where
  no_wrap : add64 c.last_ack_pos max_bit_num ≡ c.last_ack_pos + max_bit_num
  no_wrap = omega (arith, small_pos v)

  pub squeeze :
      (c' : AckInfoCollector) × (advance (max_bit_num + 1) c ≡ some c') × Advanced recv c c'
  squeeze =
      advance_total (max_bit_num + 1) (c.last_ack_pos + max_bit_num) v
        (v.above (c.last_ack_pos + max_bit_num) (omega arith)) (omega arith) (omega arith)

  accept :
      (inpos recv_time : ℕ)
      → c.last_ack_pos ≤ inpos
      → inpos < c.last_ack_pos + max_bit_num
      → inpos ≤ c.max_seq / 1452
      → let (old, after) = record_arrival inpos recv_time c in
        SetOutcome recv inpos (some old, after)
  unfolding arrived
  accept inpos recv_time lo hi known =
      rw (arrival_old v inpos recv_time lo hi known)
        (stored (arrival-Represents v inpos recv_time lo hi known))

  after_squeeze :
      (inpos recv_time : ℕ)
      → recv c.last_ack_pos ≡ false
      → c.last_ack_pos ≤ inpos
      → inpos ≤ c.max_seq / 1452
      → SetOutcome recv inpos (set_after_squeeze inpos recv_time c)
  unfolding set_after_squeeze
  after_squeeze inpos recv_time gap lo known =
      elim (Bool-cases (leb (add64 c.last_ack_pos max_bit_num) inpos)) [
        | inl out ↦ rw out (beyond gap (omega (arith, leb→le _ _ out, no_wrap)) v)
        | inr fits ↦
            rw fits (accept inpos recv_time lo (omega (arith, not_leb _ _ fits, no_wrap)) known)
      ]

  not_past : {limit : ℕ} → recv limit ≡ false → c.last_ack_pos ≤ limit
  not_past {limit} free = elim (dec_lt limit c.last_ack_pos) [
    | yes h ↦ absurd (false≢true (sym free ∙ v.below limit h))
    | no h ↦ omega arith
  ]

set_pos_outcome :
    {recv : ℕ → Bool} {c : AckInfoCollector} (v : Represents recv c) (inpos recv_time : ℕ)
    → inpos ≤ c.max_seq / 1452
    → (r : Option ℤ × AckInfoCollector) × (set_pos inpos recv_time c ≡ some r)
      × SetOutcome recv inpos r
unfolding set_pos
set_pos_outcome {c} v inpos recv_time known = elim (Bool-cases (ltb inpos c.last_ack_pos)) [
  | inl old ↦ ((none, c), rw old, late (v.below inpos (ltb→lt _ _ old)) v)
  | inr new ↦ elim (Bool-cases (leb (add64 c.last_ack_pos max_bit_num) inpos)) [
    | inl out ↦
        let (c', run, a) = squeeze v in
        let far : c.last_ack_pos + max_bit_num ≤ inpos = omega (arith, leb→le _ _ out, no_wrap v) in
        let near : c'.last_ack_pos ≤ c.last_ack_pos + max_bit_num =
          not_past a.repr (v.above (c.last_ack_pos + max_bit_num) (omega arith)) in
        (
          set_after_squeeze inpos recv_time c',
          rw (new, out) (ground (arith, run)),
          after_squeeze a.repr inpos recv_time a.missing (omega arith) (rw a.same_max_seq known),
        )
    | inr fits ↦ (
      _,
      rw (new, fits),
      accept v inpos recv_time (not_ltb _ _ new) (omega (arith, not_leb _ _ fits, no_wrap v)) known,
    )
  ]
]

-- On every packet that fits an `unsigned int`, `set` returns, and it does what `SetOutcome` says.
pub set_seq_refines :
    {recv : ℕ → Bool} {c : AckInfoCollector} (seq recv_time : ℕ)
    → Represents recv c
    → seq < 2 ^ 32
    → (r : Option ℤ × AckInfoCollector) × (set_seq seq recv_time c ≡ some r)
      × SetOutcome recv (seq / 1452) r
unfolding set_seq
set_seq_refines {c} seq recv_time v h =
    set_pos_outcome (raise-Represents seq h v) (seq / 1452) recv_time (raise_reaches seq c)
