-- ===== src/SenderThreads/Serving.antt =====
-- Which writers the threads of hds_udp/connection/HDS_UDP_Connection_Sender.cpp serve.
use test_resend.Prelude.{ℕ, List, [], ◌∷◌, ◌++◌}
use test_resend.Connection.{Effect}
use test_resend.Writer.{Writer}
use test_resend.Table.{Table}
use test_resend.SenderThreads.{Served, again, write_back, serve}

module _ (do_send : ℕ → Writer → Writer × List Effect) (t : Table) where
  -- The writers one after the other, as a list of offsets names them: what was done, the memory, and the
  -- offsets that asked for the queue again.
  unfoldable pub serve_all : List ℕ → (ℕ → Writer) → List Served × (ℕ → Writer) × List ℕ
  serve_all [] memory = ([], memory, [])
  serve_all (offset ∷ offsets) memory =
      let served = serve do_send t memory offset in
      let (more, memory', asked) = serve_all offsets (write_back served memory) in
      (served ∷ more, memory', again served ++ asked)
