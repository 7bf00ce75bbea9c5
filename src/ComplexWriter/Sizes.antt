-- ===== src/ComplexWriter/Sizes.antt =====
-- The bounds of window and threshold of hds_udp/connection/HDS_UDP_Complex_Connection.cpp, as numbers.
use test_resend.Prelude.{
  ℕ, ◌*◌, ◌/◌, ◌%◌, ◌^◌, ◌<◌, ◌≤◌, ◌≡◌, arith, if◌then◌else◌, ltb, leb, false,
}
use test_resend.Config.{packet_max_data_length}

-- Window, threshold and default size: at least a packet, and at most twice a bound on the default size
-- and the first threshold; a window still in slow start is under a threshold within that bound.
pub record Sized (bound site ssthresh default : ℕ) : Type 0 where
  pub packet : packet_max_data_length ≤ bound
  pub wide : bound < 2 ^ 62
  pub default_le : default ≤ bound
  pub site_ge : packet_max_data_length ≤ site
  pub ssthresh_ge : packet_max_data_length ≤ ssthresh
  pub site_le : site ≤ 2 * bound
  pub ssthresh_le : ssthresh ≤ 2 * bound
  pub slow_start : site < ssthresh → ssthresh ≤ bound

pub not_leb : (a b : ℕ) → leb a b ≡ false → b < a
not_leb a b e = ground arith

module _ (bound site ssthresh default : ℕ) (h : Sized bound site ssthresh default) where
  pub Sized-congestion :
      (half : ℕ)
      → half ≡ (
          if ltb (ssthresh / 2) packet_max_data_length
          then packet_max_data_length
          else ssthresh / 2)
      → Sized bound packet_max_data_length half default
  Sized-congestion half e =
      let at_least : packet_max_data_length ≤ half = ground (arith, e) in
      let at_most : half ≤ bound = ground (arith, e, h.ssthresh_le, h.packet) in
      record {
        packet = h.packet;
        wide = h.wide;
        default_le = h.default_le;
        site_ge = omega arith;
        ssthresh_ge = at_least;
        site_le = omega (arith, h.packet);
        ssthresh_le = omega (arith, at_most);
        slow_start = λ lt. at_most;
      }

  -- Slow start, the end of a repair, and congestion avoidance.
  pub Sized-double : site < ssthresh → Sized bound (site * 2 % 2 ^ 64) ssthresh default
  Sized-double lt =
      let le = h.slow_start lt in
      record {
        packet = h.packet;
        wide = h.wide;
        default_le = h.default_le;
        site_ge = omega (arith, h.site_ge, h.wide, le);
        ssthresh_ge = h.ssthresh_ge;
        site_le = omega (arith, h.wide, le);
        ssthresh_le = h.ssthresh_le;
        slow_start = λ _. le;
      }

  pub Sized-same :
      (size : ℕ) → packet_max_data_length ≤ size → size ≤ 2 * bound → Sized bound size size default
  Sized-same size ge le = record {
    packet = h.packet;
    wide = h.wide;
    default_le = h.default_le;
    site_ge = ge;
    ssthresh_ge = ge;
    site_le = le;
    ssthresh_le = le;
    slow_start = λ lt. absurd (omega (arith, lt));
  }
