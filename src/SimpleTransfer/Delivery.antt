-- ===== src/SimpleTransfer/Delivery.antt =====
-- What a simple transfer promises, whatever the network and the timers do:
-- hds_udp/connection/HDS_UDP_Simple_Connection.cpp.
use test_resend.Prelude.{ℕ, ◌≤◌, ◌<◌, ◌^◌, ◌≡◌, ◌⊎◌, arith, List, [], ◌∷◌, length, take}
use test_resend.Wire.{ConnectionId}
use test_resend.Connection.{last_byte}
use test_resend.SimpleTransfer.{System, Reach, start}
use test_resend.SimpleTransfer.Invariant.{Inv, start-Inv, Reach-Inv, whole}

module _ (message : List ℕ) (positive : 0 < length message) (small : length message < 2 ^ 31)
    (w r : ConnectionId) (t : System) (run : Reach (start message w r) t) where
  reached : Inv message t
  reached = Reach-Inv message positive small (start-Inv message w r) run

  -- After any run of a simple transfer to one reader, of a message that is not empty and is below
  -- 2 ^ 31 bytes, with any loss, repetition and order of packets and any timers, either nothing was
  -- delivered to the application or exactly one message was, and it is the message that was sent.
  pub delivered_once : (t.delivered ≡ []) ⊎ (t.delivered ≡ message ∷ [])
  delivered_once = ground (arith, reached.output)

  -- After any run of a simple transfer to one reader, of a message that is not empty and is below
  -- 2 ^ 31 bytes, the reader's buffer holds the message up to its cursor, and the writer's cursor is
  -- not beyond the reader's.
  pub prefix_held :
      (take t.reader.left_window_cursor t.reader.transmit_buf
        ≡ take t.reader.left_window_cursor message)
      × (t.writer.left_window_cursor ≤ t.reader.left_window_cursor)
  prefix_held = (reached.reads.prefix, reached.writes.behind)

  -- After any run of a simple transfer to one reader, of a message that is not empty and is below
  -- 2 ^ 31 bytes, once the writer's cursor is beyond its last byte, where it reports success, the
  -- whole message is in the reader's buffer.
  pub acknowledged_means_held :
      last_byte t.writer.base < t.writer.left_window_cursor → t.reader.transmit_buf ≡ message
  acknowledged_means_held past =
      whole message positive small reached.reads
        (omega (arith, reached.writes.behind, reached.writes.len, reached.reads.len))
