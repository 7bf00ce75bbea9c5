-- ===== src/Tests/Queue.antt =====
-- The queue of hds_udp/common/HDS_Blocking_Queue.h with two values.
use test_resend.Prelude.{
  ◌+◌, ◌==◌, if◌then◌else◌, arith, refl, ℕ, ◌≡◌, Bool, true, false, List, [], ◌∷◌, some,
}
use test_resend.SendQueue.{BlockingQueue}
use test_resend.Connection.{
  Effect, set_status, reset_status, test_status, reback_sender_bit, add_to_sender_queue,
}
use test_resend.Atomic.{bit_test_and_set, bit_test_and_reset}
use test_resend.Prelude.Digits.{bit_clear}
use test_resend.Writer.{Writer}
use test_resend.Table.{live, Table, connection_do_sender, get_connection}
use test_resend.Submitting.{construct}
use test_resend.SenderThreads.{serve, again_of, write_back}
use test_resend.SenderThreads.Serving.{serve_all}
use test_resend.SList
use test_resend.SList.{SList, find_value, find_and_del_value}
use test_resend.SList.Removing.{Removed, operations_refine}
use test_resend.SList.Refine.{Holds, Taken}

abbrev waiting_queue : BlockingQueue ℕ
waiting_queue = record { read_queue = []; write_queue = []; reader_blocked = true }

abbrev filled_queue : BlockingQueue ℕ
filled_queue = record { read_queue = []; write_queue = 5 ∷ 6 ∷ []; reader_blocked = false }

-- A send that asks for the queue again.
abbrev send_again : ℕ → Writer → Writer × List Effect
send_again con w = (record w { base = (set_status reback_sender_bit w.base).1 }, [])

abbrev all_at_4096 : Table
all_at_4096 = record { cid_array = λ _. live 4096; cid_array_offset = 6; verification_actor = 3 }

-- Each of them has asked again, by the offset of its id.
asked_again : (serve_all send_again all_at_4096 (5 ∷ 6 ∷ []) (λ _. construct)).2 ≡ 0 ∷ 0 ∷ []
unfolding serve_all serve again_of write_back connection_do_sender set_status reset_status
    test_status add_to_sender_queue get_connection bit_test_and_set bit_test_and_reset bit_clear
asked_again = refl

-- Two nodes, at 64 and at 128.
abbrev two_nodes : SList ℕ
two_nodes = record {
  next = λ a. if a == 64 then 128 else 0;
  value = λ a. a + 1;
  head = 64;
  tail = 128;
  cur_size = 2;
}

two_nodes-Holds : Holds two_nodes (64 ∷ 128 ∷ []) (65 ∷ 129 ∷ [])
two_nodes-Holds = record {
  chain = (refl, omega arith, ((λ e. omega (arith, e)), tt), (refl, omega arith, tt, refl));
  ends = refl;
  size = refl;
  values = refl;
}

abbrev same_number : ℕ → ℕ → Bool
same_number a b = a == b

operations_refine_example :
    Holds (SList.push_back (some 256) 129 two_nodes).1 (64 ∷ 128 ∷ 256 ∷ []) (65 ∷ 129 ∷ 129 ∷ [])
    × Taken two_nodes (64 ∷ 128 ∷ []) (65 ∷ 129 ∷ []) (SList.dequeue_head two_nodes)
    × (find_value same_number 129 3 two_nodes ≡ some true)
    × Removed same_number 129 two_nodes
        (64 ∷ 128 ∷ [])
        (find_and_del_value same_number 129 3 two_nodes)
operations_refine_example =
    operations_refine same_number 129 two_nodes (64 ∷ 128 ∷ []) 256 two_nodes-Holds (omega arith)
      ((λ e. omega (arith, e)), ((λ e. omega (arith, e)), tt)) (omega arith)
