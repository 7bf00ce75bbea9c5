-- ===== src/MethodProcessor.antt =====
-- hds_udp/method_processor/HDS_UDP_Method_Processor.cpp: the table of the application's methods and the
-- round of a worker thread on a message. A method is a name; what it does to the type of its buffer is an
-- argument. The queue between the two is that of the sender threads.
pub mod Released
use test_resend.Prelude.{
  ℕ, ◌+◌, ◌%◌, ◌^◌, if◌then◌else◌, Bool, true, false, List, [], ◌∷◌, ◌++◌, Option, none, some,
}
use test_resend.Wire.{get_word}
use test_resend.HpMap.{Root, find_node}
use test_resend.RecvWaitQueue.{map_insert}
use test_resend.SendQueue.{BlockingQueue, enqueue, dequeue}
use test_resend.Starting.{
  RecvBufType, pool_space, malloc_space_del, malloc_space_no_del, user_space_del, user_space_no_del,
}
use test_resend.Connection.{TransResultCode}

-- `HDS_UDP_Result_Process_Data`, without the address of the sender; the bytes stand at `buf`.
pub record ProcessData : Type 0 where
  pub buf : ℕ
  pub bytes : List ℕ
  pub data_length : ℕ
  pub buf_type : RecvBufType

-- A call of a method with the message, and the two ways in which a buffer is given back.
pub data WorkCall : Type 0 where
  process : ℕ → ProcessData → WorkCall
  release_buffer : ℕ → ℕ → WorkCall
  free : ℕ → WorkCall

-- The message type is an `int`: with the offset that keeps the order.
abbrev pub type_key : ℕ → ℕ
type_key msgtype = (msgtype + 2 ^ 31) % 2 ^ 32

-- `registe_method`, with whether the pool of the map has a node.
unfoldable pub registe_method : Bool → ℕ → ℕ → Root ℕ → Option (Bool × Root ℕ)
registe_method has_node msg_type proc methods = map_insert has_node (type_key msg_type) proc methods

-- `push_msg`: whether a worker is woken, and the queue.
unfoldable pub push_msg : ProcessData → BlockingQueue ProcessData → Bool × BlockingQueue ProcessData
push_msg process_data queue = enqueue process_data queue

-- The `switch` at the end of a round.
unfoldable pub give_back : ProcessData → List WorkCall
give_back d = elim d.buf_type [
  | user_space_no_del ↦ []
  | malloc_space_no_del ↦ []
  | pool_space ↦ release_buffer d.buf d.data_length ∷ []
  | malloc_space_del ↦ free d.buf ∷ []
  | user_space_del ↦ free d.buf ∷ []
]

-- A round of `_method_processor` on a message; `change` is what a method leaves as the type of the buffer.
unfoldable pub method_processor :
    (ℕ → RecvBufType → RecvBufType) → Root ℕ → ProcessData → List WorkCall
method_processor change methods d =
    elim (find_node (type_key (get_word 0 d.bytes)) methods.rb_node) [
      | none ↦ give_back d
      | some processor ↦
          process processor d ∷ give_back (record d { buf_type = change processor d.buf_type })
    ]

-- The whole round, with the queue: `none` is a worker that goes on to wait.
unfoldable pub work :
    (ℕ → RecvBufType → RecvBufType)
    → Root ℕ
    → BlockingQueue ProcessData
    → Option (List WorkCall) × BlockingQueue ProcessData
work change methods queue =
    let (head, rest) = dequeue queue in
    elim head [ none ↦ (none, rest) | some d ↦ (some (method_processor change methods d), rest) ]

-- `query_separate_recv_buf`: whether it returns 0, and the type of the buffer.
abbrev pub query_separate_recv_buf : RecvBufType → Bool × RecvBufType
query_separate_recv_buf pool_space = (false, pool_space)
query_separate_recv_buf user_space_del = (true, user_space_no_del)
query_separate_recv_buf malloc_space_del = (true, malloc_space_no_del)
query_separate_recv_buf user_space_no_del = (true, user_space_no_del)
query_separate_recv_buf malloc_space_no_del = (true, malloc_space_no_del)
