-- ===== src/Lib.antt =====
-- Verification of the server framework qth: its memory pool, its task queue and its processor.
--
-- The pool hands out blocks of one size from chunks, and small objects of many sizes from one pool for
-- each size. The queue joins the threads of the framework: many write, one reads. A processor is one
-- thread with four such queues, which works off tasks by priority and serves senders that wait.
--
-- Beside them stand the components that the framework and its users call: singletons, smart pointers,
-- the parser of options, the URL functions of the HTTP request, the manager of processors, timers, the
-- creation, the messages and the storing of modules, an object factory, the classes, events and messages
-- of the dynamic data manager, the choice of an IO service, a connection that reads, the states of the
-- server, and the clients that connect to one.
--
-- Memory.Chunk        `struct Chunk` (src/SmallObj.cpp, include/utility/SmallObj.h): `init`,
--                     `allocate`, `deallocate`, `release`, `has_block`. Chunk.Free and Chunk.Start have
--                     the free list, Chunk.Client a chunk with its users.
-- Memory.Fixed        `class FixedAllocator`: `initialize`, `allocate` (with `pick_chunk` and
--                     `make_new_chunk`), `deallocate` (with `vicinity_find`, `do_deallocate` and
--                     `retire_chunk`), `has_block`. Fixed.Pool has the invariant, Fixed.Ready,
--                     Fixed.Pick and Fixed.Take are about `Allocate`, Fixed.Vicinity,
--                     Fixed.Retire and Fixed.Return about `Deallocate`, with Fixed.Move for the
--                     chunk that goes. Fixed.Client is an allocator with its users, with
--                     Client.Freeing for what `Deallocate` gives back.
-- Memory.Small        `class SmallObjAllocator`: `create`, `allocate`, `deallocate`, `deallocate_any`.
-- Queue               `class RWQueue` (include/utility/rwqueue.h), with `push` as its statements.
--                     Queue.Order and Queue.Refine are about one thread, Queue.Race about two.
-- Processor           `class CProcessor` (src/processor.cpp, include/utility/processor.h): `post_task`,
--                     `run_all`, `deal_task`, `run_one_sys`, `stop`, and `serve` for the loop of `Run`.
--                     Processor.Growth has what posting changes, Processor.Drain and Processor.Stop
--                     what becomes of the tasks.
-- Processor.SysTask   `SendTask` and `InternalDealSysTask`: one task between two threads.
-- Single              `SetLongevity`, `atExitFn` and `Singleton::Instance` (src/single.cpp,
--                     include/utility/single.h); Single.Order is about the order of the
--                     trackers, Single.Uses about the calls of `Instance`, Single.Exit about the
--                     end of the program.
-- Pointer             `shared_ptr`, `weak_ptr` and `sp_count` (include/utility): the pointers to one
--                     object. Pointer.Count is about the deletions.
-- Options             `str_split` (src/uitility.cpp) and `CmdParse` (src/property.cpp). Options.Split,
--                     Options.Parse and Options.Print are about splitting, parsing and `reverse`.
-- Http                `GetHost`, `GetPort`, `GetUri` (src/http_request.cpp). Http.Url has the loops and
--                     the form of a URL, Http.Host and Http.Port what is read from it.
-- IoServices          `CIOServices` (src/asio.cpp, include/asio/asio.h): the constructor and
--                     `get_io_service`; IoServices.Fair is about the turns.
-- Factory             `Factory` (include/utility/objFactory.h); Factory.Lookup and Factory.Refine are about it
--                     as a function from identifiers to creators.
-- Manager             `CProcessorMgr` (src/processor_mgr.cpp, include/utility/processor_mgr.h).
-- Timer               `CTimer` (src/timer.cpp, include/asio/timer.h): `set_timer`, `kill_timer`, and
--                     `fire` for `run`.
-- Modules             `serialize` and `unserialize` of `ModuleManager` (src/module_manager.cpp,
--                     include/frame/module_manager.h). Modules are code of the user, and the layout of
--                     a `SerailizeHead` is the compiler's: both are parameters.
-- Modules.Manager     `Init`, `UnInit` and the messages of `ModuleManager`, with the classes of
--                     src/running_class_info.cpp. Manager.Rounds and Manager.Placing are about `Init`.
-- Connect             `CTcpConnect` (src/tcp_connect.cpp, include/asio/tcp_connect.h) with the outcomes of
--                     the socket's calls as arguments; Connect.Stream is about what the user receives.
-- Server              `CTcpServer` (src/tcp_server.cpp, include/asio/tcp_server.h): its states.
-- Dynamic             the classes and message maps of include/frame/dynamic_create.h; Dynamic.Classes is
--                     about the lookups. Dynamic.Manager is `CDataManager`, with `construct` and
--                     `destroy`; Manager.Table and Manager.Messages are about its modules and
--                     `dispatchMessage`, Manager.Slots, Manager.Events and Manager.Announce about events,
--                     Manager.Life about the objects. The handlers of the modules and `std::sort` are
--                     parameters, and the first act on a state of the user's choice.
-- TcpClient           `CTcpClientConnect` and, in TcpClient.Simple, `SimpleTcpClientConnect`
--                     (src/tcp_client_connect.cpp) with the socket as a parameter. TcpClient.Errors is about
--                     what the calls report, TcpClient.Timeout about `TimeoutRecv`, Simple.Sending and
--                     Simple.Closing about `Send` and `Close`.
-- Base                lists, arrays and tests over native numbers, and lemmas on distinct small numbers.
--
-- Addresses are numbers and NULL is 0; a chunk owns the bytes that it was given, so they are a field of
-- it. Chunk pointers of the allocator are indices into its vector, and none is NULL; a flag tells that
-- they point into memory that the vector has left. What the allocations come to is an argument. An `unsigned char` wraps at 256 and the count of the queue at 2 ^ 64.
--
-- The search of `VicinityFind` runs on fuel, one round for each chunk and one more, since each round tries
-- at least one chunk that was not tried before. The loop of `Run` runs on a number of rounds that is an
-- argument. The loop of `str_split` runs on one round for each character and one more,
-- since each round passes at least one. The loop of `TimeoutRecv` runs on more fuel than there is time,
-- since each wait takes some, and that of `Send` on more than there are bytes. All other loops are
-- structural. The C library's `atoi` is a parameter.
--
-- Not modelled: the locks of the singletons around the pool, the destructors, the weak memory of the
-- processor's hardware (the queue is taken to be sequentially consistent), the wait of 50 ms in `Run`,
-- the manager of connections, the text of an HTTP request, the start of the framework and its threads,
-- the templates that compute on types, logging, the SQL databases (compiled out), Base64 (calls of
-- boost), and the copies of other projects (tinyxml2, log4cpp, Loki's threads, MD5).
pub mod Base
pub mod Memory
pub mod Queue
pub mod Processor
pub mod Connect
pub mod Dynamic
pub mod Factory
pub mod Http
pub mod IoServices
pub mod Manager
pub mod Modules
pub mod Options
pub mod Pointer
pub mod Server
pub mod Single
pub mod TcpClient
pub mod Timer
