-- ===== src/Lib.antt =====
-- Gemini-NOS, a framework in C for nodes that are made of components and exchange messages. A node
-- is a process of threads; components live on threads, and offer services to each other. A message
-- is a reference-counted buffer, from a pool of the process or from a shared segment. It reaches a
-- thread of its own node through the queue of that thread, and another node through a socket, or
-- through the shared segment with an event on the socket. Timers, a key-value store and a log stand
-- beside that.
--
-- Base: Boolean tests, arrays as functions, 32-bit arithmetic, the search loop that the parts make
-- over their tables, and the status codes of include/nos_types.h.
-- Ring and FreeStack: the circular queues and the stacks of free indices, as lists.
-- Buffer, Pool, Memory: src/core/nos_buffer.c. Buffer has `nos_buffer_push` and `nos_buffer_pull`;
-- Pool the bins, `nos_buffer_init_pool` (init_pool) and `nos_buffer_alloc` (alloc); Memory joins
-- the pool and the shared segment for `nos_buffer_retain` (retain) and `nos_buffer_release`
-- (release).
-- Shm, Mpsc: src/infra/nos_shm.c. Shm has the pool of blocks (buffer_alloc, buffer_retain,
-- buffer_release), Mpsc the receive queue of a node (enqueue, dequeue) and the registry of nodes;
-- Mpsc/Race has several producers and the consumer at work at once, Mpsc/Attach the creation of the
-- segment and how a node attaches to it.
-- Timer, Services, Poller, Queue: src/core/nos_scheduler.c. Timer has the timer heap, Services the
-- service registry and the route of a message (with the embedded services of
-- src/core/nos_service.c, which Services/Handles registers and finds as src/infra/timer/nos_timer.c
-- and include/nos_api.h do), Poller the components and descriptors of a thread, Queue its message
-- queue.
-- Wakeup: how a thread of src/core/nos_scheduler.c goes to sleep and is woken, as steps of the
-- thread, the senders and those who stop it.
-- Thread: the set-up and the end of a thread in src/core/nos_scheduler.c, and how long it sleeps.
-- Node: src/core/nos_node_mgr.c, which loads components onto threads, sets up the routes, and
-- unloads and reloads components.
-- Cli: src/core/nos_cli.c, the command line; Cli/Edit has the editing of a line, Cli/Run what the
-- commands do.
-- Kv: src/infra/db/nos_kv.c; Kv/Hash has its hash function, Kv/Create the making of tables, Kv/Subs
-- the subscriptions, Kv/Close the end of the store.
-- Ipc: src/infra/nos_ipc_p2p.c, the connections to other nodes and their send queues; Ipc/Shared is
-- the way through the shared segment, Ipc/Receive the handlers of what arrives.
-- Log: src/infra/log/nos_log.c, the ring of log entries.
-- Process: src/core/nos_node_main.c, which sets up the parts of a node and ends them.
-- Components: the sample components of src/components; Components/Perf has ping and pong,
-- Components/Remote the two for tests between nodes, Components/Stateful model_2 to model_5, and
-- Components/Heartbeat model_1.
--
-- State is a record that each operation takes and gives back, a C array a function of the index,
-- and a pointer an index or an offset. A C string is the number whose digits to the base 256 are
-- its bytes (Base/Names), where a part keeps a bounded number of them; lines of text are lists of
-- bytes, and other names plain numbers. `uint32_t` arithmetic wraps where it is written so in
-- Base/Words. `free_top` of a stack is the number of its entries, one more than the field in C. A
-- function that holds a lock throughout is one step; the lock-free functions of the shared segment
-- are also given in the parts between which another process can step.
--
-- Loops take fuel where they do not run along a list or a count. The sift loops of Timer get one
-- more than the distance that they can move; a walk along a chain of Kv gets `capacity + 1`, and no
-- chain is longer than the capacity; the loop of `process_thread_messages` gets any number above
-- the number of messages that wait and that the handlers add, and that of
-- `nos_scheduler_deinit_thread` the size of the queue; the loop of `process_timers` runs along the
-- readings of the clock that it makes; the doubling of the bucket count gets 22, which takes 1024
-- past every 32-bit number that it can reach.
--
-- Not modelled: threads, clocks, sockets, epoll and the mapping of the segment, whose answers are
-- arguments; what the command line prints, the daemon that only keeps the segment alive, the
-- generated manifests, what the sample components log, and the functions that only print or sum up
-- statistics.
pub mod Base
pub mod Ring
pub mod FreeStack
pub mod Buffer
pub mod Pool
pub mod Shm
pub mod Memory
pub mod Timer
pub mod Kv
pub mod Ipc
pub mod Mpsc
pub mod Services
pub mod Queue
pub mod Poller
pub mod Log
pub mod Wakeup
pub mod Node
pub mod Cli
pub mod Thread
pub mod Components
pub mod Process
