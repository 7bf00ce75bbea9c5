-- ===== src/Cursor/Max.antt =====
-- The macro `set_connection_left_window_cursor` of hds_udp/connection/HDS_UDP_Connection.h, run by
-- one thread.
use test_resend.Prelude.{ℕ, ◌≡◌, arith, leb, some, max}
use test_resend.Cursor.{exchange_loop, set_left_window_cursor}

-- Run alone, the macro ends, raises the cursor to the larger of itself and `seq`, and reports 0
-- exactly when the cursor was not beyond `seq`.
pub set_left_window_cursor_lem :
    (seq cursor : ℕ) → set_left_window_cursor seq cursor ≡ some (leb cursor seq, max cursor seq)
unfolding set_left_window_cursor exchange_loop
set_left_window_cursor_lem seq cursor = ground arith
