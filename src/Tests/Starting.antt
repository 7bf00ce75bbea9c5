-- ===== src/Tests/Starting.antt =====
-- A first packet for an empty id table of hds_udp/connection/HDS_UDP_Connection.cpp, with a buffer of the
-- pool and no verification by the application.
use test_resend.Prelude.{ℕ, ◌≡◌, ◌≢◌, ◌⊎◌, refl, arith, true, false, [], none, some}
use test_resend.Connection.{simple_file_require}
use test_resend.Wire.{ConnectionId}
use test_resend.Table.{empty, offset_of}
use test_resend.Starting.{Surroundings, Receiver, start_recver}
use test_resend.Starting.Outcome.{Ended, SlotZeroLost, start_recver_lem}

abbrev pub nobody : Receiver
nobody = record {
  table = record { cid_array = λ _. empty; cid_array_offset = 5; verification_actor = 1 };
  waiting = [];
  reader_count = 0;
}

abbrev pub calls : Surroundings
calls = record {
  reader = some 4096;
  need_verification = false;
  verification = none;
  buffer = some 8192;
  queue_node = true;
}

abbrev pub first_id : ConnectionId
first_id = record { id0 = 17; id1 = 34 }

start_recver_lem_example :
    ((id0 : ℕ) × (offset_of id0 ≡ 5)
      × (nobody.table.cid_array (offset_of id0) ≡ empty)
      × Ended true nobody first_id id0 (start_recver simple_file_require first_id 3 calls nobody))
    ⊎ ((nobody.table.cid_array nobody.table.cid_array_offset ≢ empty)
        × SlotZeroLost nobody (start_recver simple_file_require first_id 3 calls nobody))
start_recver_lem_example =
    start_recver_lem simple_file_require first_id 3 4096 calls nobody refl refl (omega arith)
      (omega arith) (omega arith) tt
