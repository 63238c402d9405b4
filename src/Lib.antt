-- ===== src/Lib.antt =====
-- rio_network, NetLib: a library for TCP servers on Windows. A Network owns a fixed set of
-- Sessions; each session has a socket, a ring of received bytes and a ring of bytes to send. IO
-- workers take completions of receives and sends from the system and call the session; process
-- workers (or the user's own thread) cut the received bytes into packets and hand them to the
-- callback OnDispatch. A session counts its references: one for the open connection, one for each
-- request that the system has accepted. Whoever drops the last one puts it on the closing list.
--
-- Which file models what:
-- Base: lists, tests on numbers and `int` over the native numbers.
-- Fifo: what a ring promises, a list of bytes with a bound.
-- Ring: NetLib/NetLib/Buffer.h, class RingBuffer, method by method; `copy_to` is memcpy. Its
--   children prove each method against Fifo.
-- Session: NetLib/NetLib/Session.cpp and Session.h. Refs has AddRef, ReleaseRef, Attach,
--   Disconnect and Close; Recv has PostRecv, CompletedRecv, IsCompletedPacket and Unmarshall;
--   Send has Marshall, PostSendBuffered, PostSend (`flush` is the one without arguments) and
--   CompletedSend; Process has PostProcess, ProcessCompletion and ProcessPacket. A session is a
--   record; a method is a function from a session to a session. What a method asks of the system
--   or of its owner is an Effect in the list `out`, and what the system answers is an argument.
-- Worker: NetLib/NetLib/Network.cpp, what a worker thread does with one completion. Life has the
--   step relation of one session: any caller, any worker and any answer of the system, in any
--   order.
-- Network: NetLib/NetLib/Network.cpp and Network.h, the pool of sessions: Start, AllocateSession,
--   ReleaseSession, the closing list, the counters of sessions and threads. A pointer to a session
--   is the index that its constructor got; Pool says what holds between two calls. Traffic has
--   what AcceptThread and ConnectSession do with a socket, and the batches of an RIO worker; Workers
--   the loops of AcceptThread, RunIOWorker and ProcessWorkerThreadEntry on the pool; Listen the
--   listening socket, StartAcceptor and StopAcceptor; Destroy has DestroySessionPool; Startup is
--   SocketUtils::Startup of NetLib/NetLib/SocketUtils.cpp, and the calls around Shutdown.
-- Threads: NetLib/NetLib/Network.cpp again, the threads of a Network as a step relation: io workers,
--   process workers, the closing thread and the caller of Shutdown, in any order, each with its
--   place in its code. Workers has the workers of one port, Supply the null keys that Shutdown posts,
--   Joined its joins, Steps how many steps are left, Progress where it can go on, Missed how the
--   closing thread can miss its notification, and Lost what happens then.
-- System: the sessions of Worker in the pool of Network. A step is one call of a method of any
--   session, one AllocateSession or one round of ClosingThreadEntry; Whole is the invariant,
--   Steps has one step each, Reuse what it means for a session that is closed and used again,
--   Rounds, RioRounds and ProcessRounds the loops of the workers as such steps, and Shutdown the
--   wait of Network::Shutdown for its sessions.
-- Allocator: NetLib/NetLib/Allocator.h, FastFixedAllocator: the memory is a function from
--   addresses to the pointers there, so that the free list runs through the free blocks as in the
--   code; what `new char[]` and `malloc` answer is an argument. Blocks has the chains of pointers,
--   Layout where blocks and chunks stand, Whole the invariant, Alloc one call each, Run any order of
--   calls and of writes by the users, Safety what they rely on. General is FastGeneralAllocator,
--   Classes its size classes, SmallObj the operators of that class.
-- LinkedList: NetLib/NetLib/LinkedList.h, the nodes as a function from addresses to the pointers of
--   each, with one function per method. Splice has what a method does to the pointers around it,
--   Cycle the ways that they make, Refine and Inside one method each against a list of addresses,
--   Loops size, is_in_list and clear, and Run any calls in a row.
-- ObjectPool: NetLib/NetLib/ObjectPool.h, on the two above: ObjectPool (`pool_allocate`,
--   `pool_free`) and ReusableObjectPool. Queue has the kept objects as a list and what Allocate does
--   with it, Keep what Free does, Reuse any calls, Destroy the destructor.
-- CompletionQueue: NetLib/NetLib/IOCompletionQueue.h and .cpp: what a completion port answers, the
--   queues of the RIO workers, and the array of results (`update_results` is Update) in Results.
-- SpinLock: NetLib/NetLib/Mutex.h, the spin lock and the threads at it.
-- Dummy: NetLibExample, as users of the library. Packet has Packet/Packet.h as bytes; Server the
--   handlers of DummyServer/DummySession.cpp; Echo and Serve run them under the packet processing of
--   Session; Nets is the map of DummyServer/DummyServer.cpp, with Map and Members about it; Client is
--   DummyClient/DummyClient.cpp; Chat puts both ends and the loop of DummyServer/main.cpp on one
--   connection, with PingPong and Talk about what is on its way.
--
-- Bounds and fuel: a ring is at most 2 ^ 30 bytes, so that no sum of positions leaves `int`;
-- the code makes rings of 131072. The packet loop runs on fuel, `none` when it is used up; one
-- round more than there are packets is enough. The loops of CreateSessionPool need one round
-- more than there are sessions, of which an `unsigned short` can count 65535. Numbers of bytes
-- are `unsigned int`s that become `int`s in the rings (`to_int`). The reference count, a `long`
-- of the code, is taken as unbounded. The loop of fill_free_node counts an `int`: a chunk has
-- fewer than 2 ^ 31 blocks and, with its pointer, fewer than 2 ^ 64 bytes. free_all_chunk needs
-- one round more than there are chunks, the loops of cLinkedList one more than there are nodes.
--
-- A session whose Attach failed under RIO stays in its slot with its socket and without a reference;
-- System has that case, and counts it (`fails`).
--
-- Not modelled: each method of a session is one step, and so is what a worker does with one
-- completion (CompletedRecv, PostProcess, PostRecv and ReleaseRef in a row, or the packet loop with
-- all its callbacks). No lock covers these as a whole: other threads may send, disconnect or drop
-- references between the calls, and inside a callback, and such interleavings are not seen. A
-- callback that calls ProcessPacket itself in PROCESS_MODE_USER is not modelled either.
-- Threads has no accepting thread: Shutdown begins with StopAcceptor, which joins it (Listen).
-- In Threads no session is put on the closing list once m_Running is false, since all are closed by
-- then and none is opened; a spurious wakeup of the condition variable is left out. Winsock, the RIO
-- functions and the log are not modelled, nor are `find` of LinkedList.h, which
-- nothing uses, and the times and the output of the examples. In Dummy a connection delivers
-- packets whole and in order, as long as no send fails. A node of a cLinkedList in a block of an
-- allocator has its pointers apart from those that the allocator keeps in its free blocks.
pub mod Base
pub mod Fifo
pub mod Ring
pub mod Session
pub mod Worker
pub mod Network
pub mod System
pub mod Threads
pub mod Allocator
pub mod LinkedList
pub mod ObjectPool
pub mod CompletionQueue
pub mod SpinLock
pub mod Dummy
