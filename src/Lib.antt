-- ===== src/Lib.antt =====
-- NonblockingIO: a TCP server on Linux. A server accepts connections and submits each to a pool of
-- workers, which hands a task to a pool of threads. The task reads the request, answers it, and
-- puts the client into a queue, from which one of the workers takes it to poll its descriptor with
-- epoll.
--
-- The parts, by file of the repository, and the modules that model them:
--
-- - thread_pool.h, thread_pool.cpp: ThreadPool has the ring of tasks, `create`, `submit`, and the
--   worker's locked section (`worker_turn`, the body of `thread_routine`); ThreadPool/Shutdown has
--   `shutdown_interval` and `free_resource`; ThreadPool/Singleton the static functions over the one
--   instance. ThreadPool/Ring and ThreadPool/Invariant say when a pool is valid and what its ring
--   holds, ThreadPool/Fifo specifies it as a bounded queue that can be closed, ThreadPool/QueuePool
--   is the pool with a queue in the ring's place, all else kept, and ThreadPool/View the quotient
--   of the pools by it. ThreadPool/System lets any number of clients and the threads run
--   interleaved; under it stand the invariants and what they give for safety, wake-ups, and the end
--   after a shutdown.
-- - tcp_worker_pool.h, tcp_worker_pool.cpp: WorkerPool has the pool's state, its sizes, `startup`
--   and `submit`. WorkerPool/WaitTime is the timeout that `worker_routine` computes,
--   WorkerPool/Available the counter `avail_woker_num_` that all workers share, WorkerPool/Handover
--   the queue `event_storage_` between tasks and workers, WorkerPool/Reply what is written to a
--   client (`handle_epollin`, `handle_error`, and the replies of the task), WorkerPool/Page the
--   page itself, WorkerPool/Message the layout of a response by http_parser.h, WorkerPool/Callback
--   the callback that a worker runs over a batch of events, WorkerPool/EventStr the text of an
--   event's bits (`event_str`). WorkerPool/Round puts the parts together as one round of
--   `worker_routine`, and as any number of rounds; WorkerPool/Crew has the rounds of all workers,
--   in any order, over the one queue. WorkerPool/Pickup takes the sections around the queue apart
--   into their reads and writes, with the look that a worker makes without the lock;
--   WorkerPool/ClientTask is the whole task of a client, and WorkerPool/Samples what the tests
--   share. WorkerPool uses ThreadPool as the source does: `submit` is the thread pool's submit of a
--   closure.
-- - tcp_server.h, tcp_server.cpp: Server has the loop that accepts connections
--   (`poll_for_connect`), Server/Startup the sequence of calls of `startup` and the host's address,
--   Server/Hosts the clients' hosts in the one buffer of `inet_ntoa`, Server/Counted, Server/Calls
--   and Server/Limit the limit on connections, Server/Burst the clients that go on through the
--   worker pool to the ring of the thread pool.
-- - Service joins the three: the accept loop, the threads of the pool and the workers, interleaved,
--   each by the steps of its own module, with what a task does at its end. Service/Conserved says
--   where each client is, Service/Progress and Service/Delivery that it can come to a worker,
--   Service/Answered lets the tasks read and reply in the same interleaving, Service/Tables says in
--   which worker's `client_infos` it then stands, and Service/Opened takes the clients' descriptors
--   from the table of Descriptors.
-- - worker_sync.h: WorkerSync, the lock, its guard and its condition, for any number of threads;
--   WorkerSync/Destroy is the destructor of the lock.
-- - tcp_client.h, epoll_wrapper.h, tcp_server.cpp: Descriptors, which descriptors their
--   constructors, destructors and `accept` open and close, over the table of the process, which is
--   a parameter.
-- - httpcode_map.h, error_map.h, thread_pool.cpp: Instance, the double-checked `instance()` of the
--   three, and the static `shutdown`, for any number of threads.
-- - epoll_wrapper.h, epoll_wrapper.cpp: Epoll, over an instance of the kernel that is a parameter.
-- - tcp_client.h, tcp_client.cpp: TcpClient, a client that connects to the server it is told.
-- - async_sigio.h, async_sigio.cpp: AsyncSigio, signal-driven input with a shared table of
--   callbacks.
-- - httpcode_map.cpp, error_map.cpp: HttpCodes and ErrorMap, the two tables and their lookups.
-- - utils.h, utils.cpp: Utils, the messages for failed calls and what ends the process.
-- - cbreak_term.h, cbreak_term.cpp: CbreakTerm, the mode that a terminal gets.
-- - example_tcpserver.cpp, example_tcpclient.cpp: Programs/Options, the options and what comes of
--   them.
-- - main.cpp: Programs/Keyboard has `sigio_handler`, Programs/Pipe the pipe test, Programs/Signals
--   `o_async_io`, which joins AsyncSigio, CbreakTerm and Programs/Keyboard.
-- - Common: lists, the C++ integers, numbers as texts, maps, bytes in buffers, and sums over
--   threads.
--
-- How the code is translated. A function of the source is a function on records that takes and
-- gives back the state it changes. What a call of the system returns is an argument: the results of
-- the pthread functions, of `read`, `accept`, `socket` and `bind`, and the answers of epoll_ctl,
-- whose documented laws are the record `IsEpoll`, by which an add may fail; those of the table of
-- descriptors are `IsTable`. A fault is a value: `none`, where the source would call an empty
-- function, write behind a buffer or divide by zero. What threads do under one lock is one step of
-- an inductive relation, but in WorkerPool/Pickup, where each access is one; an access to an atomic
-- variable is a step of its own where another thread can come between. Integers of C++ keep their
-- width where it matters: `started_num_` is 16 bits wide and wraps, `connected_num_` 32 bits. The
-- steps of threads stand in one order: what a plain variable may show without a lock beyond that,
-- such as the pointer that `instance()` first reads, is not in the models.
--
-- Bounds and fuel. `create_loop`, the join loop and `make_workers` recur on the number of rounds
-- that are left, so they need no fuel. `decimal` recurs on one more than the number that it prints,
-- which is enough, since each digit divides it by ten. The loops of the workers and of the server
-- do not end in the source: the models are relations over single steps, or functions of the finite
-- list of the polls that have happened so far.
--
-- Not modelled: the calls that set the affinity of a thread, names and debug prints; the
-- destructors of the server, of the pools and of the condition; the failure of a call of pthread
-- where the source does not look at it; of main.cpp `main`, which calls nothing; of
-- example_tcpclient.cpp `other_test`, which puts shared pointers into a queue and lets go of them,
-- `pthread_pid_test`, which makes and joins four threads that print, and the classes `A`, `B` and
-- `C`, which print in their constructors and destructors, all of which nothing uses; of http_parser
-- the struct of a request, which nothing uses, and its class, which is empty.
pub mod Common
pub mod ThreadPool
pub mod WorkerPool
pub mod Server
pub mod Epoll
pub mod AsyncSigio
pub mod CbreakTerm
pub mod Descriptors
pub mod ErrorMap
pub mod HttpCodes
pub mod Instance
pub mod Programs
pub mod Service
pub mod TcpClient
pub mod Utils
pub mod WorkerSync
