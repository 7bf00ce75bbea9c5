-- ===== src/Lib.antt =====
-- The reliable transport over UDP in hds_udp/: a sender splits a message into packets of 1452 bytes
-- behind a header of 20, a receiver puts them together again and acknowledges them, and timers
-- repeat what was lost. A simple connection sends one packet at a time; a complex connection keeps
-- a window of packets and a bitmap for selective repeat.
--
-- Config: the constants of hds_udp/config/HDS_UDP_Kernel_Config.h.
-- Atomic: the operations of atomic_t, hds_udp/common/atomic_t.h, as functions on a word that return
--   the result and the new word. A `long` is the pattern of its 64 bits.
-- Wire: HDS_WriteCDR, HDS_ReaderCDR and the two header macros of
--   hds_udp/connection/HDS_UDP_Connection.h, on a list of bytes.
-- Connection: `struct connection`, its status bits, the macros on them, and what the handlers call:
--   a handler returns its `Effect`s in order. Connection.Chain is the fill macro for message nodes.
-- Cursor: the loop of set_left_window_cursor, alone and as interleaved steps of several threads.
-- Rto: the macros that keep SRTT, RTTVAR and RTO. Their division by shifting is on signed values.
-- AckCollector: HDS_UDP_Connection_Ack_Info_Collector.cpp. The loop of `_get_next_ack` runs on
--   fuel: it clears a bit each round, so one round more than the bitmap has bits is enough, and
--   AckCollector.Repr proves it. The state stands for the set of the packet numbers that arrived.
-- Writer, SimpleWriter, SimpleReader: the handlers of
--   hds_udp/connection/HDS_UDP_Simple_Connection.cpp, each with all its effects. The clock and the
--   running count of a timer are arguments.
-- Table: the id table and the handlers of hds_udp/connection/HDS_UDP_Connection.cpp that find a
--   connection by its id. The clock and the memory that addresses lead to are arguments.
-- SList: hds_udp/common/s_list.h, the nodes of a list in memory. Its searches run on fuel: one turn more
--   than there are nodes is enough.
-- SendQueue, SenderThreads: hds_udp/common/HDS_Blocking_Queue.h, and the queue and the rounds of the
--   sender threads over it, hds_udp/connection/HDS_UDP_Connection_Sender.cpp. A writer that asks for the
--   queue in its round is put into it again, and the memory of the writers goes from round to round.
-- ComplexReader: the receiving half of hds_udp/connection/HDS_UDP_Complex_Connection.cpp.
-- Starting: connection::start_recver of hds_udp/connection/HDS_UDP_Connection.cpp, over the id table.
-- Receiving: connection_do_network_data and connection_do_require_duplicate of the same file. They see
--   the wait queue as the list that RecvWaitQueue stands for.
-- Submitting, Cleaning: start_sender and start_link_send of the same file, and what the end of a writer
--   or a reader does with its data, as the list of its calls.
-- RecvWaitQueue: hds_udp/connection/HDS_UDP_Connection_Recv_Wait_ACK_Queue.cpp, over HpMap.
-- MethodProcessor: hds_udp/method_processor/HDS_UDP_Method_Processor.cpp, over HpMap and SendQueue.
-- ComplexWriter: the sending half of hds_udp/connection/HDS_UDP_Complex_Connection.cpp. Its send
--   loop runs on the number of packets that are left of the 16. The window factor is a float; what the code does with it is the parameter
--   FactorOps. The clock is a function of the packets that are left.
-- HpMap: insertion, removal, change, find and select of hds_udp/common/HP_Map.h. A node with its parents is a
--   subtree with the frames above it; HpMap.Entries is the map as a sorted list. The loop of
--   `__rb_erase_color` runs on fuel: it goes up a frame each turn, so one turn more than there are
--   frames is enough, and HpMap.Erase.Loop proves it.
-- AtomicBitmap: hds_udp/common/Atomic_Bitmap.h. Its searches run on fuel: each turn goes to another
--   word, so one turn more than there are words is enough. It also declares LONG_HAS_BIT.
-- BufferPool: hds_udp/buffer/HDS_Buffer_Pool.cpp. The free list runs through the words of the memory;
--   what malloc gives is an argument, and a block that it gives lies outside of every other object.
-- TimerWheel: hds_udp/common/HDS_Timer_Wheel.cpp. The loop of `expire` over the slots runs on fuel;
--   65536 rounds are enough, since the comparison on 32 bits fails before.
--   The slots from 65536 on are the memory behind the array.
-- SimpleTransfer: both ends of a simple connection as one system. A step is a send, a timer of
--   either end, or a packet that arrives; packets stay in the network, so they may be lost, be
--   repeated and overtake each other. A plain require packet that comes again starts
--   another reader; that arrival is not a step, so a run has one reader.
-- Tests: the code at concrete inputs.
--
-- A handler runs as one step; only Cursor.Threads interleaves threads within a macro. Socket
-- addresses, thread start and the sockets themselves are not modelled, nor are the SOCKS programs in
-- tysocks/, whose event library is not in the repository. The release of whole pools and the end of
-- the threads are not modelled, nor is HP_set, which repeats the tree of HP_map without values and is
-- used nowhere.
pub mod Prelude
pub mod Config
pub mod Atomic
pub mod AckCollector
pub mod Cursor
pub mod Rto
pub mod Wire
pub mod Connection
pub mod Writer
pub mod SimpleWriter
pub mod SimpleReader
pub mod HpMap
pub mod AtomicBitmap
pub mod BufferPool
pub mod TimerWheel
pub mod RecvWaitQueue
pub mod Receiving
pub mod SenderThreads
pub mod Submitting
pub mod Cleaning
pub mod MethodProcessor
pub mod Starting
pub mod SList
pub mod SendQueue
pub mod Table
pub mod SimpleTransfer
pub mod ComplexReader
pub mod ComplexWriter
pub mod Tests
