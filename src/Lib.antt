-- ===== src/Lib.antt =====
-- EventForge (eventforge/): publish and subscribe, tasks, RPC and work queues over exchangeable
-- transports.
--
-- The parts and how they interact. A transport carries messages between topics: it keeps
-- subscriptions, calls those whose pattern matches, and queues what is received. The work queue
-- adds competing consumers to a topic: deliveries that are acknowledged, rejected or time out. The
-- executor runs functions in place, in threads or in processes. The observers are channels with
-- subscribers, dispatchers that reach them, nodes with a capacity, and meters. A task runs a
-- function through the executor, under a pool that bounds how many run, and fires its events on
-- channels. RPC sends requests and responses as messages.
--
-- Prelude: what the code uses of Python: tests, lists, keys and dicts. A dict keeps its insertion
-- order.
-- Types: eventforge/types.py: `Message`, `TaskResult`, `TaskStatus`; Types.SharedState is
-- `SharedState`, and Calls any calls of it. A payload is a `Value`; a uuid4 is the number of its
-- draw, so that draws differ; a time is a number.
-- WorkQueue: eventforge/work_queue.py. State has the record and its containers; Delivery
-- `_make_in_flight`, `_dead_letter`, `_try_dispatch`; Enqueue `enqueue`, `dequeue`, `ack`; Nack
-- `nack` and `_invoke_handler`; Consumers `consume`, `remove_consumer`, `close`; Reaper a round of
-- `_reaper_loop`. Each critical section of `_wq_lock` is one function, and Sections has the
-- relation by which threads interleave, the steps of `close` included. Tracked is about the
-- deliveries' ids, Sound about the retry counts and timeouts in the headers, Conservation about
-- what the queue holds: `outstanding` weighs all that is pending or in flight by a weight of the
-- payloads.
-- Transport: Glob is `fnmatch` and `str.replace` of Python; Patterns the matching of
-- eventforge/transports/memory.py and tcp.py; Memory the class `MemoryTransport`; Tcp
-- eventforge/transports/tcp.py, with Framing (`_send_msg`, `_recv_exact`, `_recv_msg`), Peer (what
-- server and client do alike), Server and Client; Segments the `_matches` of
-- eventforge/transports/redis.py and nats.py, Redis and Nats these two transports.
-- Executor: eventforge/executor.py: `submit`, `result`, the worker's step and the callback of a
-- future; Lifecycle has the steps by which threads interleave, those within a `submit` included.
-- Observers: eventforge/observers.py: Dispatch has the dispatchers, Channel `Eventful`,
-- `Observable` and the class-level subscribers, Node `Node` and `LeastLoadedDispatcher`, Meter the
-- aggregator, over numbers that are an interface (`Numbers`: zero, sum, product and a total order;
-- a float that is no number is left out), Meter.Emission what a `Meter` emits, Reporter `Reporter`
-- and `observe`.
-- Task: eventforge/task.py: Pool is `TaskPool`, section by section, and the wait for a permit;
-- Runner `TaskRunner`.
-- Queue: eventforge/queue.py: `MessageQueue` over the in-memory transport; Wiring is about its
-- topics, Publish about what a publication reaches. A handler may use the transport, as RPC's does.
-- Remote: eventforge/remote.py: `RemoteQueue` over TCP links; Board has the blocks under its lock,
-- by which threads interleave, Owned who owns a link.
-- Rpc: eventforge/rpc.py: Server is `RPCServer`, Client `RPCClient`, `RoundRobinRPCClient` and
-- `with_retry`; Exchange is a client and a server on one `MessageQueue`.
-- Worker: eventforge/worker.py: from a module's HANDLERS to an RPC server over TCP, and its end.
--
-- State is passed explicitly. A callback, handler or function of the user is a parameter that
-- changes the rest of the world and answers whether it raised. What a blocking call waits through
-- is a list of what other threads do; a wait that the list does not end is `none`. `_recv_exact`
-- has fuel: one turn for each byte wanted, which is enough because a turn reads a byte at least.
-- Handlers of RPC nest as deep as a number says: one level is enough for a call, since its reply
-- has no handler. Loops of threads go by the readings of their flags. An exception is an `Error` in
-- a `Result`; its text is kept only where the code reads it.
--
-- Not modelled: the Logfire integration, which is calls of its library; NATS' event loop; the
-- worker's command line and imports; the async variants, which move the same calls to another
-- thread; logging; the concrete meters, which read clocks and usage; the wiring by `dir()`.
-- Sockets, JSON, pydantic and the executors' pools are not in the repository: they are parameters,
-- with what the code relies on as hypotheses.
pub mod Prelude
pub mod Types
pub mod Transport
pub mod WorkQueue
pub mod Executor
pub mod Observers
pub mod Task
pub mod Rpc
pub mod Queue
pub mod Remote
pub mod Worker
