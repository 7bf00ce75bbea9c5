-- ===== src/Rto/Variance.antt =====
-- What `rto_diff` of hds_udp/connection/HDS_UDP_Connection.h does to `_RTTVAR`, against the
-- algorithm that the comment above `set_connection_RTO` describes.
use test_resend.Prelude.{ℕ, ◌+◌, ◌*◌, ◌-◌, ◌/◌, ◌≤◌, ◌<◌, ◌≢◌, arith, ltb, if◌then◌else◌}
use test_resend.Prelude.Int.{pos, ◌+ℤ◌, ◌-ℤ◌, ◌*ℤ◌, ◌<ℤ◌}
use test_resend.Rto.{next_rttvar}

-- (3 * RTTVAR + |SRTT - RTT|) / 4, as documented.
pub documented_rttvar : ℕ → ℕ → ℕ → ℕ
documented_rttvar rttvar srtt rtt =
    (3 * rttvar + (if ltb rtt srtt then srtt - rtt else rtt - srtt)) / 4

-- A round trip that is longer than the average, but by less than three times the variance, makes
-- the variance negative: the documented value never is.
rttvar_negative :
    (rttvar srtt rtt : ℕ)
    → srtt < rtt
    → rtt < 3 * rttvar + srtt
    → next_rttvar (pos rttvar) (pos srtt) (pos rtt) <ℤ pos 0
unfolding next_rttvar ◌+ℤ◌ ◌-ℤ◌ ◌*ℤ◌
rttvar_negative rttvar srtt rtt h k = ground arith

-- From an old variance of at least 2 the new one is never the documented value.
pub rttvar_diverges :
    (rttvar srtt rtt : ℕ)
    → 2 ≤ rttvar
    → next_rttvar (pos rttvar) (pos srtt) (pos rtt) ≢ pos (documented_rttvar rttvar srtt rtt)
unfolding next_rttvar documented_rttvar ◌+ℤ◌ ◌-ℤ◌ ◌*ℤ◌
rttvar_diverges rttvar srtt rtt h e = ground arith
