-- ===== src/Cursor/Threads.antt =====
-- The macro `set_connection_left_window_cursor` of hds_udp/connection/HDS_UDP_Connection.h, run by
-- any number of threads at once: one exchange is one step, and the steps interleave in any order.
use test_resend.Prelude.{
  ℕ, ◌<◌, ◌≡◌, refl, arith, ltb, if◌then◌else◌, List, [], ◌∷◌, ◌++◌, max, length, ap, ◌∙◌,
  length-append, ◌⊎◌,
}
use test_resend.Atomic.{exchange}

-- The cursor, and for each thread that is still in the loop its next `olseq`.
pub record Race : Type 0 where
  pub cursor : ℕ
  pub pending : List ℕ

-- One round of one thread's loop: what it still has to write, if anything.
unfoldable pub round : ℕ → ℕ → List ℕ × ℕ
round olseq cursor =
    let (old, cursor') = exchange olseq cursor in (if ltb olseq old then old ∷ [] else [], cursor')

-- Any thread may be the next to run its round.
pub data Step : Race → Race → Type 0 where
  turn :
      (before after : List ℕ) (olseq : ℕ) {r : Race}
      → r.pending ≡ before ++ olseq ∷ after
      → Step r (record {
        cursor = (round olseq r.cursor).1;
        pending = before ++ ((round olseq r.cursor).0 ++ after);
      })

pub data Reach (r : Race) : Race → Type 0 where
  here : Reach r r
  next : {s t : Race} → Reach r s → Step s t → Reach r t

pub maximum : List ℕ → ℕ
maximum [] = 0
maximum (x ∷ xs) = max x (maximum xs)

maximum-append : (xs ys : List ℕ) → maximum (xs ++ ys) ≡ max (maximum xs) (maximum ys)
unfolding maximum
maximum-append [] ys = omega arith
maximum-append (x ∷ xs) ys = omega (arith, maximum-append xs ys)

-- The largest number in play, in the cursor or in a thread's hand.
abbrev pub peak : Race → ℕ
peak r = max r.cursor (maximum r.pending)

round_peak :
    (olseq cursor : ℕ)
    → max (round olseq cursor).1 (maximum (round olseq cursor).0) ≡ max cursor olseq
unfolding round maximum
round_peak olseq cursor = ground arith

Step-peak : {r s : Race} → Step r s → peak s ≡ peak r
unfolding maximum
Step-peak (turn before after olseq {r} e) = omega (
  arith,
  ap maximum e,
  maximum-append before (olseq ∷ after),
  maximum-append before ((round olseq r.cursor).0 ++ after),
  maximum-append (round olseq r.cursor).0 after,
  round_peak olseq r.cursor,
)

Reach-peak : {r s : Race} → Reach r s → peak s ≡ peak r
Reach-peak here = refl
Reach-peak (next p q) = Step-peak q ∙ Reach-peak p

-- When every thread has left the loop, the cursor holds the largest of all the numbers: no
-- interleaving loses an acknowledgement.
pub all_done :
    {r s : Race} → Reach r s → s.pending ≡ [] → s.cursor ≡ max r.cursor (maximum r.pending)
unfolding maximum
all_done p e = omega (arith, Reach-peak p, ap maximum e)

-- The threads still in the loop, and among equally many the cursor: every step lowers one of them.
round_progress :
    (olseq cursor : ℕ)
    → (length (round olseq cursor).0 ≡ 0)
      ⊎ ((length (round olseq cursor).0 ≡ 1) × ((round olseq cursor).1 < cursor))
unfolding round
round_progress olseq cursor = ground arith

-- Every round ends its thread or lowers the cursor and keeps the number of threads, so no schedule
-- goes on for ever.
Step-progress :
    {r s : Race}
    → Step r s
    → (length s.pending < length r.pending)
      ⊎ ((length s.pending ≡ length r.pending) × (s.cursor < r.cursor))
Step-progress (turn before after olseq {r} e) = ground (
  arith,
  ap (λ (l : List ℕ). length l) e,
  length-append before (olseq ∷ after),
  length-append before ((round olseq r.cursor).0 ++ after),
  length-append (round olseq r.cursor).0 after,
  round_progress olseq r.cursor,
)
