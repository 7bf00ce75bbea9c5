-- ===== src/Tests/Parts.antt =====
-- Small parts of hds_udp/common and of the macros in hds_udp/connection/HDS_UDP_Connection.h.
use test_resend.Prelude.{
  ℕ, ◌≡◌, ◌≢◌, refl, arith, List, [], ◌∷◌, length, replicate, some, max, take, drop,
}
use test_resend.Prelude.Int.{pos}
use test_resend.Cursor.Threads.{Race, round, Step, here, next, turn, maximum, all_done}
use test_resend.Rto.{RttState, next_rttvar, set_connection_rto}
use test_resend.Rto.Bounds.{InRange, set_connection_rto-InRange}
use test_resend.Rto.Variance.{documented_rttvar, rttvar_diverges}
use test_resend.Wire.{Cdr, Header, open_cdr, fill_header, unfill_header, read_ulong}
use test_resend.Wire.Addressing.{swapped, unfill-fill}
use test_resend.Connection.{Connection, unset}
use test_resend.Connection.Chain.{fill_chain, joined, fill_chain_lem}

-- A thread with the number 2904 at a cursor of 5000: it takes two rounds.
abbrev race0 : Race
race0 = record { cursor = 5000; pending = 2904 ∷ [] }

abbrev race1 : Race
race1 = record { cursor = 2904; pending = 5000 ∷ [] }

abbrev race2 : Race
race2 = record { cursor = 5000; pending = [] }

first_turn : Step race0 race1
unfolding round
first_turn = turn [] [] 2904 refl

second_turn : Step race1 race2
unfolding round
second_turn = turn [] [] 5000 refl

all_done_example : race2.cursor ≡ max race0.cursor (maximum race0.pending)
all_done_example = all_done (next (next here first_turn) second_turn) refl

-- A smoothed round trip of 100 and a variance of 100 milliseconds.
abbrev rtt0 : RttState
rtt0 = record { srtt = pos 100; rttvar = pos 100; rto = pos 3000 }

set_connection_rto-InRange_example : InRange (set_connection_rto (pos 150) rtt0)
set_connection_rto-InRange_example =
    set_connection_rto-InRange (pos 150) rtt0 (ground arith, ground arith)

rttvar_diverges_example :
    next_rttvar (pos 100) (pos 100) (pos 150) ≢ pos (documented_rttvar 100 100 150)
rttvar_diverges_example = rttvar_diverges 100 100 150 (omega arith)

abbrev header : Header
header = record { con_id = record { id0 = 17; id1 = 34 }; send_time = 5000; dt_note = 1452 }

abbrev filled : Cdr
filled = fill_header 116 header (open_cdr (replicate 20 0))

unfill-fill_example :
    ((read_ulong (open_cdr filled.buf)).0 ≡ 116)
    × ((unfill_header (open_cdr filled.buf)).0 ≡ record header { con_id = swapped header.con_id })
    × ((unfill_header (open_cdr filled.buf)).1.pos ≡ filled.pos)
    × (filled.pos ≡ 20)
    × (length filled.buf ≡ 20)
unfill-fill_example =
    unfill-fill 116 header (replicate 20 0) (omega arith) (omega arith)
      (record { id0 = omega arith; id1 = omega arith; time = omega arith; note = omega arith })

abbrev nodes : List (List ℕ)
nodes = (1 ∷ 2 ∷ []) ∷ (3 ∷ 4 ∷ []) ∷ []

fill_chain_lem_example : fill_chain 1 2 nodes ≡ some (take 2 (drop 1 (joined nodes)))
unfolding joined
fill_chain_lem_example = fill_chain_lem 1 2 nodes (omega arith) (omega arith)

abbrev idle : Connection
idle = record {
  con_id = header.con_id;
  running_count = 0;
  trans_result_code = unset;
  status = 8;
  transmit_buf = [];
  transmit_buf_length = 0;
  left_window_cursor = 0;
}
