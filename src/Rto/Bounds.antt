-- ===== src/Rto/Bounds.antt =====
-- The bounds that hds_udp/connection/HDS_UDP_Connection.h keeps the retransmission timeout in.
use test_resend.Prelude.{◌≡◌, arith, Bool-cases, inl, inr, ◌⊎◌}
use test_resend.Prelude.Int.{ℤ, pos, ◌+ℤ◌, ◌*ℤ◌, ◌≤ℤ◌, ltb_ℤ}
use test_resend.Rto.{RttState, clamp_rto, set_connection_rto, set_connection_rto_double}

abbrev pub InRange : RttState → Type 0
InRange s = (pos 1000 ≤ℤ s.rto) × (s.rto ≤ℤ pos 8000)

clamp_range : (r : ℤ) → (pos 1000 ≤ℤ clamp_rto r) × (clamp_rto r ≤ℤ pos 8000)
unfolding clamp_rto
clamp_range r = ground arith

-- Whatever round trip is measured and whatever the smoothed values are, a timeout from 1000 to 8000
-- milliseconds stays in that range.
pub set_connection_rto-InRange :
    (rtt : ℤ) (s : RttState) → InRange s → InRange (set_connection_rto rtt s)
unfolding set_connection_rto
set_connection_rto-InRange rtt s h = elim (Bool-cases (ltb_ℤ (pos 0) rtt)) [
  | inl up ↦ rw up (clamp_range _)
  | inr down ↦ rw down h
]

-- Doubling a timeout from 1000 to 8000 milliseconds keeps the range, and the result is exactly twice
-- the old one or at least the ceiling.
set_connection_rto_double_lem :
    (s : RttState)
    → InRange s
    → InRange (set_connection_rto_double s)
      × ((pos 8000 ≤ℤ (set_connection_rto_double s).rto)
          ⊎ ((set_connection_rto_double s).rto ≡ s.rto +ℤ s.rto))
unfolding set_connection_rto_double ◌*ℤ◌ ◌+ℤ◌
set_connection_rto_double_lem s h = ground arith
