-- ===== src/Rto.antt =====
-- The retransmission timeout of a writer, `set_connection_RTO` and `set_connection_RTO_Double` of
-- hds_udp/connection/HDS_UDP_Connection.h. The macros run under a try-lock bit: a call that does not
-- get it does nothing, and one that does is alone in its block. `_SRTT`, `_RTTVAR` and `_RTO` are
-- `long` values as integers; no operation on them comes near 2 ^ 63.
pub mod Bounds
pub mod Variance
use test_resend.Prelude.{ℕ, ◌==◌, if◌then◌else◌, Bool, true, false}
use test_resend.Prelude.Int.{ℤ, pos, negsuc, ◌+ℤ◌, ◌-ℤ◌, ◌*ℤ◌, ltb_ℤ, sar}
use test_resend.Config.{connection_min_rto, connection_max_rto}

pub record RttState : Type 0 where
  pub srtt : ℤ
  pub rttvar : ℤ
  pub rto : ℤ

abbrev pub is_zero_ℤ : ℤ → Bool
is_zero_ℤ (pos n) = n == 0
is_zero_ℤ (negsuc n) = false

-- `(3*con->_RTTVAR +rto_diff(con->_SRTT,RTT))>>2` with `rto_diff(x,y)` replaced by its text
-- `x>y?(x-y):(y-x)`: the sum belongs to the test.
pub next_rttvar : ℤ → ℤ → ℤ → ℤ
next_rttvar rttvar srtt rtt =
    sar (if ltb_ℤ rtt (3 *ℤ rttvar +ℤ srtt) then srtt -ℤ rtt else rtt -ℤ srtt) 2

-- The two tests at the end of `set_connection_RTO`.
pub clamp_rto : ℤ → ℤ
clamp_rto rto =
    let raised = if ltb_ℤ rto (pos connection_min_rto) then pos connection_min_rto else rto in
    if ltb_ℤ (pos connection_max_rto) raised then pos connection_max_rto else raised

-- The first measurement, and a later one.
pub measured : ℤ → RttState → RttState
measured rtt s =
    if is_zero_ℤ s.srtt
    then record s { srtt = rtt; rttvar = sar rtt 1 }
    else record s { rttvar = next_rttvar s.rttvar s.srtt rtt; srtt = sar (7 *ℤ s.srtt +ℤ rtt) 3 }

-- `set_connection_RTO`, at `RTT = con_clock-send_time` and when the lock bit was clear.
pub set_connection_rto : ℤ → RttState → RttState
set_connection_rto rtt s =
    let m = measured rtt s in
    if ltb_ℤ (pos 0) rtt then record m { rto = clamp_rto (m.srtt +ℤ 4 *ℤ m.rttvar) } else s

-- `set_connection_RTO_Double`, when the lock bit was clear.
pub set_connection_rto_double : RttState → RttState
set_connection_rto_double s =
    let doubled = 2 *ℤ s.rto in
    record s {
      rto = if ltb_ℤ (pos connection_max_rto) doubled then pos connection_max_rto else doubled;
    }
