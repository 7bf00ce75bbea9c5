-- ===== src/Tests/Table.antt =====
-- The id table of hds_udp/connection/HDS_UDP_Connection.cpp with one connection.
use test_resend.Prelude.{ℕ, ◌≡◌, ◌≢◌, ◌⊎◌, refl, arith, true, [], ◌∷◌, none, some}
use test_resend.Prelude.Int.{pos}
use test_resend.Atomic.{bit_test}
use test_resend.Connection.{Connection, unset, test_status}
use test_resend.Writer.{Writer}
use test_resend.Table.{empty, live, Table, create_connection_id, get_connection, network_target}
use test_resend.Table.Lookup.{Created, create_connection_id_lem}
use test_resend.Table.Stopping.{is_stopped}

abbrev table0 : Table
table0 = record { cid_array = λ _. empty; cid_array_offset = 5; verification_actor = 2 }

create_connection_id_lem_example :
    let (id, t') = create_connection_id 4096 table0 in
    ((id0 : ℕ) × (id ≡ some id0) × Created 4096 id0 table0 t')
    ⊎ ((id ≡ none)
        × (table0.cid_array table0.cid_array_offset ≢ empty)
        × (t'.cid_array ≡ table0.cid_array))
create_connection_id_lem_example = create_connection_id_lem 4096 table0 (omega arith)

abbrev table1 : Table
table1 = record { cid_array = λ _. live 4096; cid_array_offset = 6; verification_actor = 3 }

abbrev held : Connection
held = record {
  con_id = record { id0 = 2097157; id1 = 34 };
  running_count = 0;
  trans_result_code = unset;
  status = 12;
  transmit_buf = 7 ∷ [];
  transmit_buf_length = 1;
  left_window_cursor = 0;
}

abbrev memory : ℕ → Connection
memory _ = held

reaches : network_target memory 2097157 table1 ≡ some 4096
unfolding network_target get_connection
reaches = refl

was_stopped : is_stopped held ≡ true
unfolding test_status bit_test
was_stopped = refl

abbrev writer : Writer
writer = record {
  base = record held { status = 24 };
  rtt = record { srtt = pos 0; rttvar = pos 0; rto = pos 3000 };
  try_time = 0;
}
