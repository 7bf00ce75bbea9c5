-- ===== src/Cursor.antt =====
-- `set_connection_left_window_cursor` of hds_udp/connection/HDS_UDP_Connection.h: the loop by which
-- a writer raises its left window cursor, one atomic exchange a round. The values are below 2 ^ 63,
-- so `long` and `unsigned long` agree on them.
pub mod Threads
pub mod Max
use test_resend.Prelude.{
  ℕ, zero, suc, ltb, leb, if◌then◌else◌, Bool, true, false, Option, none, some,
}
use test_resend.Atomic.{exchange}

-- `do{lseq = olseq; olseq = cursor.AtomicExchange(lseq);}while(olseq > lseq);`: the final `lseq`
-- and the cursor. `none` means that the fuel ran out.
unfoldable pub exchange_loop : ℕ → ℕ → ℕ → Option (ℕ × ℕ)
exchange_loop zero olseq cursor = none
exchange_loop (suc fuel) olseq cursor =
    let lseq = olseq in
    let (old, cursor') = exchange lseq cursor in
    elim (ltb lseq old) [ true ↦ exchange_loop fuel old cursor' | false ↦ some (lseq, cursor') ]

-- The macro: whether `res` is 0, and the cursor. Alone, the loop takes at most two rounds.
unfoldable pub set_left_window_cursor : ℕ → ℕ → Option (Bool × ℕ)
set_left_window_cursor seq cursor = elim (exchange_loop 2 seq cursor) [
  | none ↦ none
  | some (lseq, cursor') ↦ some (leb lseq seq, cursor')
]
