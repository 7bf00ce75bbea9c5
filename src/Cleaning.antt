-- ===== src/Cleaning.antt =====
-- What hds_udp/connection/HDS_UDP_Connection.cpp does with the data of a connection that ends: the calls
-- of `writer_do_connection_sended_handle_and_clean_data` and of its reader's counterpart, in their order.
pub mod Once
use test_resend.Prelude.{
  ℕ, if◌then◌else◌, Bool, true, false, List, [], ◌∷◌, ◌++◌, Option, none, some,
}
use test_resend.Connection.{TransResultCode, trans_successfully}
use test_resend.Submitting.{MessageNode}
use test_resend.Starting.{
  RecvBufType, pool_space, malloc_space_del, malloc_space_no_del, user_space_del, user_space_no_del,
}

-- A call of a handler with the address of its data, a `free` of data, the return of a message node to its
-- pool, a read of its `next` pointer, the return of a buffer to the buffer pool, and `release` of an ACE block.
pub data CleanCall : Type 0 where
  call_handler : ℕ → ℕ → TransResultCode → CleanCall
  free_data : ℕ → CleanCall
  free_node : ℕ → CleanCall
  read_next : ℕ → CleanCall
  release_buffer : ℕ → CleanCall
  release_block : ℕ → CleanCall

-- The data of a writer: `_trans_message_node`, `_transmit_buf`, `_ace_transmit_block`, which is there with
-- `_SUPPORT_ACE_`, `_sended_handle` and `_del_type`.
pub record SentData : Type 0 where
  pub trans_message_node : List MessageNode
  pub transmit_buf : ℕ
  pub ace_transmit_block : Option ℕ
  pub sended_handle : Option ℕ
  pub delete_after_send : Bool

abbrev pub handled : Option ℕ → ℕ → TransResultCode → List CleanCall
handled none source_data code = []
handled (some handler) source_data code = call_handler handler source_data code ∷ []

abbrev pub deleted : Bool → ℕ → List CleanCall
deleted true source_data = free_data source_data ∷ []
deleted false source_data = []

-- The first loop over the chain.
unfoldable pub clean_nodes : TransResultCode → List MessageNode → List CleanCall
clean_nodes code [] = []
clean_nodes code (n ∷ rest) =
    handled n.send_handle n.source_data code
    ++ deleted n.delete_after_send n.source_data
    ++ clean_nodes code rest

-- The second loop, which reads `next` of a node that it has freed.
unfoldable pub free_nodes : List MessageNode → List CleanCall
free_nodes [] = []
free_nodes (n ∷ rest) = free_node n.node ∷ read_next n.node ∷ free_nodes rest

-- A message from an ACE block gives back the block, and any other its data.
abbrev pub deleted_message : Option ℕ → Bool → ℕ → List CleanCall
deleted_message none delete transmit_buf = deleted delete transmit_buf
deleted_message (some block) true transmit_buf = release_block block ∷ []
deleted_message (some block) false transmit_buf = []

-- Without a handler nothing is freed.
unfoldable pub clean_single : TransResultCode → SentData → List CleanCall
clean_single code s = elim s.sended_handle [
  | none ↦ []
  | some handler ↦
      call_handler handler s.transmit_buf code
      ∷ deleted_message s.ace_transmit_block s.delete_after_send s.transmit_buf
]

-- `writer_do_connection_sended_handle_and_clean_data`
unfoldable pub writer_clean : TransResultCode → SentData → List CleanCall
writer_clean code s = elim s.trans_message_node [
  | [] ↦ clean_single code s
  | ◌∷◌ n rest ↦ clean_nodes code (n ∷ rest) ++ free_nodes (n ∷ rest)
]

-- The `switch` of the reader, where the case of a pool goes on into the next.
abbrev pub reader_release : RecvBufType → ℕ → List CleanCall
reader_release user_space_no_del buf = []
reader_release malloc_space_no_del buf = []
reader_release pool_space buf = release_buffer buf ∷ free_data buf ∷ []
reader_release malloc_space_del buf = free_data buf ∷ []
reader_release user_space_del buf = free_data buf ∷ []

-- `reader_do_connection_sended_handle_and_clean_data`: a handler has a name and may change the type of the
-- buffer, which the `switch` reads afterwards.
unfoldable pub failed_clean :
    TransResultCode → Option (ℕ × (RecvBufType → RecvBufType)) → RecvBufType → ℕ → List CleanCall
failed_clean code none buf_type buf = reader_release buf_type buf
failed_clean code (some (handler, change)) buf_type buf =
    call_handler handler buf code ∷ reader_release (change buf_type) buf

unfoldable pub reader_clean :
    TransResultCode → Option (ℕ × (RecvBufType → RecvBufType)) → RecvBufType → ℕ → List CleanCall
reader_clean trans_successfully handler buf_type buf = []
reader_clean code handler buf_type buf = failed_clean code handler buf_type buf
