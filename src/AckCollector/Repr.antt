-- ===== src/AckCollector/Repr.antt =====
-- What the state of HDS_UDP_Connection_Ack_Info_Collector.h stands for: the set of the packet
-- numbers that have arrived. The loop of `_get_next_ack` keeps it, and ends.
use test_resend.Prelude.{
  ℕ, zero, suc, ◌+◌, ◌/◌, ◌%◌, ◌^◌, ◌≤◌, ◌<◌, ◌≡◌, ◌≢◌, refl, sym, ◌==◌, if◌then◌else◌, arith, ap,
  ◌∙◌, Bool, Bool-cases, true, false, inl, inr, some, length, ==_iff,
}
use test_resend.Prelude.Words.{u32}
use test_resend.Atomic.{is_zero}
use test_resend.AckCollector.{
  AckInfoCollector, max_bit_num, max_long_num, bitmap_test_and_reset, advance, init,
}
use test_resend.Prelude.BitArrays.{bit_at}
use test_resend.AckCollector.Bitmap.{
  bit_at-reset, length-bitmap_test_and_reset, is_zero-test_and_reset, bit_at-init,
}

-- The bit that a packet number has in the bitmap.
abbrev pub bit_of : Bool → ℕ
bit_of b = if b then 1 else 0

pub record Represents (recv : ℕ → Bool) (c : AckInfoCollector) : Type 0 where
  pub sized : length c.bitmap ≡ max_long_num
  pub below : (p : ℕ) → p < c.last_ack_pos → recv p ≡ true
  pub window :
      (p : ℕ)
      → c.last_ack_pos ≤ p
      → p < c.last_ack_pos + max_bit_num
      → bit_at c.bitmap (p % max_bit_num) ≡ bit_of (recv p)
  pub above : (p : ℕ) → c.last_ack_pos + max_bit_num ≤ p → recv p ≡ false
  pub top : (p : ℕ) → recv p ≡ true → p ≤ c.max_seq / 1452
  pub word : c.max_seq < 2 ^ 32

pub init-Represents : Represents (λ _. false) init
init-Represents = record {
  sized = refl;
  below = λ p h. elim h [ ];
  window = λ p _ _. bit_at-init (p % max_bit_num);
  above = λ _ _. refl;
  top = λ p h. cc;
  word = omega arith;
}

-- The cumulative position stays far below the range of an `int`.
pub small_pos :
    {recv : ℕ → Bool} {c : AckInfoCollector} → Represents recv c → c.last_ack_pos ≤ 2957967
small_pos {recv} {c} v = go c.last_ack_pos refl
  where
    go : (n : ℕ) → c.last_ack_pos ≡ n → n ≤ 2957967
    go zero e = omega arith
    go (suc n) e =
        let t : n ≤ c.max_seq / 1452 = v.top n (v.below n (omega arith)) in omega (arith, v.word)

same_slot :
    (base p : ℕ)
    → base ≤ p
    → p < base + max_bit_num
    → base % max_bit_num ≡ p % max_bit_num
    → base ≡ p
same_slot base p h k e = omega arith

-- What the loop leaves: the same set, with the window at the first packet that is missing.
pub record Advanced (recv : ℕ → Bool) (c c' : AckInfoCollector) : Type 0 where
  pub repr : Represents recv c'
  pub missing : recv c'.last_ack_pos ≡ false
  pub grown : c.last_ack_pos ≤ c'.last_ack_pos
  pub same_max_seq : c'.max_seq ≡ c.max_seq
  pub same_ack_time : c'.ack_time ≡ c.ack_time
  pub same_recv_time : c'.last_recv_time ≡ c.last_recv_time

module _ {recv : ℕ → Bool} {c : AckInfoCollector} (v : Represents recv c) where
  slot : ℕ
  slot = c.last_ack_pos % max_bit_num

  cleared : AckInfoCollector
  cleared = record c { bitmap = (bitmap_test_and_reset slot c.bitmap).1 }

  cleared_bit : (j : ℕ) → bit_at cleared.bitmap j ≡ (if slot == j then 0 else bit_at c.bitmap j)
  unfolding cleared slot
  cleared_bit j = bit_at-reset c.bitmap slot (omega arith) v.sized j

  -- The round that finds the bit clear changes nothing.
  stop_round : recv c.last_ack_pos ≡ false → Represents recv cleared
  unfolding cleared slot
  stop_round e = record {
    sized = length-bitmap_test_and_reset slot c.bitmap ∙ v.sized;
    below = v.below;
    window = λ p lo hi. elim (Bool-cases (slot == p % max_bit_num)) [
      | inl same ↦
          let q : c.last_ack_pos ≡ p = same_slot c.last_ack_pos p lo hi (ground arith) in
          rw (cleared_bit (p % max_bit_num), same, ← q, e)
      | inr other ↦ rw (cleared_bit (p % max_bit_num), other) (v.window p lo hi)
    ];
    above = v.above;
    top = v.top;
    word = v.word;
  }

  moved : AckInfoCollector
  unfolding cleared
  moved = record cleared { last_ack_pos = c.last_ack_pos + 1 }

  wrapped :
      (p : ℕ)
      → c.last_ack_pos + 1 ≤ p
      → p < c.last_ack_pos + 1 + max_bit_num
      → (slot == p % max_bit_num) ≡ true
      → c.last_ack_pos + max_bit_num ≤ p
  unfolding slot
  wrapped p lo hi e =
      let q : c.last_ack_pos % max_bit_num ≡ p % max_bit_num = (==_iff _ _).0 e in omega arith

  unwrapped :
      (p : ℕ)
      → c.last_ack_pos + 1 ≤ p
      → p < c.last_ack_pos + 1 + max_bit_num
      → (slot == p % max_bit_num) ≡ false
      → p < c.last_ack_pos + max_bit_num
  unfolding slot
  unwrapped p lo hi e =
      let q : c.last_ack_pos % max_bit_num ≢ p % max_bit_num = ground arith in omega arith

  -- A round that finds the bit set moves the window by one packet.
  move_round : recv c.last_ack_pos ≡ true → Represents recv moved
  unfolding moved cleared slot
  move_round e = record {
    sized = length-bitmap_test_and_reset slot c.bitmap ∙ v.sized;
    below = λ p h. elim (Bool-cases (p == c.last_ack_pos)) [
      | inl same ↦ let q : p ≡ c.last_ack_pos = (==_iff _ _).0 same in rw q e
      | inr other ↦ v.below p (ground arith)
    ];
    window = λ p lo hi. elim (Bool-cases (slot == p % max_bit_num)) [
      | inl same ↦ rw (cleared_bit (p % max_bit_num), same, v.above p (wrapped p lo hi same))
      | inr other ↦
          rw (cleared_bit (p % max_bit_num), other)
            (v.window p (omega arith) (unwrapped p lo hi other))
    ];
    above = λ p h. v.above p (omega arith);
    top = v.top;
    word = v.word;
  }

  same_word : u32 c.last_ack_pos ≡ c.last_ack_pos
  same_word = omega (arith, small_pos v)

  -- What one round tests: whether the packet at the cumulative position has arrived.
  round_test :
      is_zero (bitmap_test_and_reset (u32 c.last_ack_pos % max_bit_num) c.bitmap).0
      ≡ (if recv c.last_ack_pos then false else true)
  round_test =
      rw (is_zero-test_and_reset (u32 c.last_ack_pos % max_bit_num) c.bitmap, same_word)
        (rw (v.window c.last_ack_pos (omega arith) (omega arith)) (ground arith))

  advance_stop : (f : ℕ) → recv c.last_ack_pos ≡ false → advance (suc f) c ≡ some cleared
  unfolding advance cleared slot
  advance_stop f e = ground (arith, round_test, same_word)

  advance_move : (f : ℕ) → recv c.last_ack_pos ≡ true → advance (suc f) c ≡ advance f moved
  unfolding advance moved slot
  advance_move f e = ground (arith, round_test, same_word)

  moved_pos : moved.last_ack_pos ≡ c.last_ack_pos + 1
  unfolding moved
  moved_pos = refl

  moved-Advanced : {c' : AckInfoCollector} → Advanced recv moved c' → Advanced recv c c'
  unfolding moved cleared
  moved-Advanced a = record {
    repr = a.repr;
    missing = a.missing;
    grown = omega (arith, a.grown);
    same_max_seq = a.same_max_seq;
    same_ack_time = a.same_ack_time;
    same_recv_time = a.same_recv_time;
  }

  cleared-Advanced : recv c.last_ack_pos ≡ false → Advanced recv c cleared
  unfolding cleared
  cleared-Advanced gap = record {
    repr = stop_round gap;
    missing = gap;
    grown = omega arith;
    same_max_seq = refl;
    same_ack_time = refl;
    same_recv_time = refl;
  }

-- With more fuel than the distance to a missing packet the loop ends.
pub advance_total :
    {recv : ℕ → Bool} (fuel limit : ℕ) {c : AckInfoCollector}
    → Represents recv c
    → recv limit ≡ false
    → c.last_ack_pos ≤ limit
    → limit < c.last_ack_pos + fuel
    → (c' : AckInfoCollector) × (advance fuel c ≡ some c') × Advanced recv c c'
advance_total zero limit v free lo hi = absurd (omega arith)
advance_total {recv} (suc fuel) limit {c} v free lo hi = elim (Bool-cases (recv c.last_ack_pos)) [
  | inl here ↦
      let ne : c.last_ack_pos ≢ limit = λ q. cc (sym here ∙ ap recv q ∙ free) in
      let (c', run, a) =
        advance_total fuel limit (move_round v here) free (omega (arith, moved_pos v))
          (omega (arith, moved_pos v)) in
      (c', advance_move v fuel here ∙ run, moved-Advanced v a)
  | inr gap ↦ (cleared v, advance_stop v fuel gap, cleared-Advanced v gap)
]
