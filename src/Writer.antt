-- ===== src/Writer.antt =====
-- What both kinds of writer share: the macros on a `Connection_Writer` of
-- hds_udp/connection/HDS_UDP_Connection.h, and its timer case for a connection that is done.
use test_resend.Prelude.{ℕ, if◌then◌else◌, List, [], ◌∷◌}
use test_resend.Prelude.Int.{signed32}
use test_resend.Prelude.Words.{sub32, add64}
use test_resend.Rto.{RttState, set_connection_rto, set_connection_rto_double}
use test_resend.Connection.{
  Connection, Effect, reflesh_rto_bit, trans_suc_bit, set_status, reset_status,
  sended_handle_and_clean_data, release_connection_id, free_connection,
}

-- `struct Connection_Writer`
pub record Writer : Type 0 where
  pub base : Connection
  pub open base use *
  pub rtt : RttState
  pub try_time : ℕ

-- `set_connection_RTO_Double`, with its lock bit.
unfoldable pub rto_double : Writer → Writer
rto_double w =
    let (free, locked) = set_status reflesh_rto_bit w.base in
    if free
    then record w {
      base = (reset_status reflesh_rto_bit locked).1;
      rtt = set_connection_rto_double w.rtt;
    }
    else record w { base = locked }

-- `set_connection_RTO`, with its lock bit: `long RTT = con_clock-send_time` is an `int` difference.
unfoldable pub rto_sample : ℕ → ℕ → Writer → Writer
rto_sample con_clock send_time w =
    let (free, locked) = set_status reflesh_rto_bit w.base in
    if free
    then record w {
      base = (reset_status reflesh_rto_bit locked).1;
      rtt = set_connection_rto (signed32 (sub32 con_clock send_time)) w.rtt;
    }
    else record w { base = locked }

-- `_running_count++`
unfoldable pub count_run : Connection → Connection
count_run c = record c { running_count = add64 c.running_count 1 }

-- `case Connection_Suspend_Timer:` of a writer, the same in both kinds.
unfoldable pub writer_suspended : Connection → Connection × List Effect
writer_suspended c =
    let (first, c') = set_status trans_suc_bit c in
    (
      c',
      if first
          then sended_handle_and_clean_data c.trans_result_code
            ∷ release_connection_id
            ∷ free_connection
            ∷ []
          else [],
    )
