-- ===== src/Table/Stopping.antt =====
-- Stopping a connection, and the sender thread's round, in
-- hds_udp/connection/HDS_UDP_Connection.cpp.
use test_resend.Prelude.{
  ℕ, ◌≡◌, refl, ap, ◌∙◌, arith, if◌then◌else◌, Bool, true, false, not, List, [], ◌∷◌, ◌++◌,
}
use test_resend.Connection.{
  Connection, Effect, MsgType, TransResultCode, add_to_send_queue, force_stop_bit, buf_clean_bit,
  in_sender_bit, reback_sender_bit, set_status, reset_status, test_status, suspend,
  add_to_sender_queue,
}
use test_resend.Connection.Status.{
  set_status_first, test-set_status, reset_status_was, test-reset_status,
}
use test_resend.Writer.{Writer}
use test_resend.Table.{
  stop_with, connection_reset, connection_stop, connection_do_sender, code_of_reset,
}

abbrev pub is_stopped : Connection → Bool
is_stopped c = test_status force_stop_bit c

set_status-code :
    (k : ℕ) (c : Connection) → (set_status k c).1.trans_result_code ≡ c.trans_result_code
unfolding set_status
set_status-code k c = refl

-- A reset or a stop of a connection that is stopped already has no effect and keeps the result code.
stopped_once :
    (msgtype : MsgType) (c : Connection)
    → is_stopped c ≡ true
    → ((connection_reset msgtype c).1 ≡ [])
      × ((connection_reset msgtype c).0.trans_result_code ≡ c.trans_result_code)
      × ((connection_stop c).1 ≡ [])
      × ((connection_stop c).0.trans_result_code ≡ c.trans_result_code)
unfolding connection_reset connection_stop
stopped_once msgtype c e =
    let no_first : (set_status force_stop_bit c).0 ≡ false =
      set_status_first force_stop_bit c (omega arith) ∙ ap not e in
    ground (arith, no_first, set_status-code force_stop_bit c)

stop_with-stopped :
    (code : TransResultCode) (c : Connection) → is_stopped (stop_with code c).0 ≡ is_stopped c
unfolding stop_with suspend test_status
stop_with-stopped code c =
    let coded : Connection = record c { trans_result_code = code } in
    ground (arith, test-set_status buf_clean_bit force_stop_bit coded)

reset_stops :
    (msgtype : MsgType) (c : Connection) → is_stopped (connection_reset msgtype c).0 ≡ true
unfolding connection_reset
reset_stops msgtype c = ground (
  arith,
  test-set_status force_stop_bit force_stop_bit c,
  stop_with-stopped (code_of_reset msgtype) (set_status force_stop_bit c).1,
)

-- A reset leaves the connection stopped, and whatever reset comes next has no effect.
reset_is_final :
    (first later : MsgType) (c : Connection)
    → (is_stopped (connection_reset first c).0 ≡ true)
      × ((connection_reset later (connection_reset first c).0).1 ≡ [])
reset_is_final first later c =
    let done = reset_stops first c in
    (done, (stopped_once later (connection_reset first c).0 done).0)

-- After a sender's round the connection is in the queue again exactly when its send asked for it,
-- whether by a timer, an acknowledgement or its own limit, and it has been entered once.
connection_do_sender_lem :
    (do_send : Writer → Writer × List Effect) (w : Writer)
    → let sent = do_send (record w { base = (reset_status reback_sender_bit w.base).1 }) in
      let asked = test_status reback_sender_bit sent.0.base in
      let (w', es) = connection_do_sender do_send w in
      (test_status in_sender_bit w'.base ≡ asked)
      × (test_status reback_sender_bit w'.base ≡ false)
      × (es ≡ (if asked then sent.1 ++ (add_to_send_queue ∷ []) else sent.1))
unfolding connection_do_sender add_to_sender_queue
connection_do_sender_lem do_send w =
    let sent = do_send (record w { base = (reset_status reback_sender_bit w.base).1 }) in
    let left = (reset_status in_sender_bit sent.0.base).1 in
    let calm = (reset_status reback_sender_bit left).1 in
    ground (
      arith,
      reset_status_was reback_sender_bit left,
      test-reset_status in_sender_bit reback_sender_bit sent.0.base,
      test-reset_status reback_sender_bit in_sender_bit left,
      test-reset_status reback_sender_bit reback_sender_bit left,
      test-reset_status in_sender_bit in_sender_bit sent.0.base,
      set_status_first in_sender_bit calm,
      test-set_status in_sender_bit in_sender_bit calm,
      test-set_status in_sender_bit reback_sender_bit calm,
    )
