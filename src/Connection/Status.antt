-- ===== src/Connection/Status.antt =====
-- The status bits of hds_udp/connection/HDS_UDP_Connection.h as flags.
use test_resend.Prelude.{ℕ, ◌<◌, ◌≡◌, refl, ◌==◌, if◌then◌else◌, arith, true, false, not}
use test_resend.Prelude.Digits.{bit, bit-le-one}
use test_resend.Atomic.{bit_test_and_set, bit_test_and_reset}
use test_resend.Atomic.Bits.{bit-set, bit-reset, bit_test-low, shifted_bit-low}
use test_resend.Connection.{Connection, set_status, reset_status, test_status}

test_status-bit : (k : ℕ) (c : Connection) → k < 63 → test_status k c ≡ (bit c.status k == 1)
unfolding test_status
test_status-bit k c h = rw (bit_test-low k c.status h)

-- A set of a bit below 63 reports 0 exactly when the test of the bit was false.
pub set_status_first :
    (k : ℕ) (c : Connection) → k < 63 → (set_status k c).0 ≡ not (test_status k c)
unfolding set_status bit_test_and_set
set_status_first k c h =
    rw (shifted_bit-low k c.status h, test_status-bit k c h) (ground (arith, bit-le-one c.status k))

-- A set makes the test of its bit true, and leaves the test of every other bit below 63 as it was.
pub test-set_status :
    (k j : ℕ) (c : Connection)
    → j < 63
    → test_status j (set_status k c).1 ≡ (if k == j then true else test_status j c)
unfolding set_status
test-set_status k j c h =
    rw (test_status-bit j (set_status k c).1 h, test_status-bit j c h)
      (ground (arith, bit-set k c.status j))

-- A reset reports whether the bit was set.
pub reset_status_was : (k : ℕ) (c : Connection) → k < 63 → (reset_status k c).0 ≡ test_status k c
unfolding reset_status bit_test_and_reset
reset_status_was k c h = rw (shifted_bit-low k c.status h, test_status-bit k c h) refl

-- A reset makes the test of its bit false, and leaves the test of every other bit below 63 as it was.
pub test-reset_status :
    (k j : ℕ) (c : Connection)
    → j < 63
    → test_status j (reset_status k c).1 ≡ (if k == j then false else test_status j c)
unfolding reset_status
test-reset_status k j c h =
    rw (test_status-bit j (reset_status k c).1 h, test_status-bit j c h)
      (ground (arith, bit-reset k c.status j))

-- The word alone changes.
pub set_status_word :
    (k : ℕ) (c : Connection) → (set_status k c).1 ≡ record c { status = (set_status k c).1.status }
unfolding set_status
set_status_word k c = refl

pub reset_status_word :
    (k : ℕ) (c : Connection)
    → (reset_status k c).1 ≡ record c { status = (reset_status k c).1.status }
unfolding reset_status
reset_status_word k c = refl
