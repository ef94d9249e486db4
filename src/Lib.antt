-- ===== src/Lib.antt =====
-- hcom4db, an RPC library over libhcom.so, in C++.
--
-- The program. A server creates a service, registers message handlers under ids and starts; libhcom.so
-- calls its receive handler, which runs the handler of a message's id. A client calls with one message,
-- or with up to eight, which are packed into blocks of an allocator over registered memory and sent
-- as one request; an answer comes back at once or through a completion callback. All of libhcom.so
-- is reached through a table of function pointers that is filled by dlopen and dlsym.
--
-- The model. `World` (Hcom/World) holds the globals of src/hcom4db.cpp and
-- src/hcom4db_dlopen_hcom.cpp, the objects that callbacks own, and the history of everything that
-- left the program, the newest event first. A function of the source is a step `World -> A * World`,
-- with its status as a value. What is outside (libhcom.so, the C library, dlopen, securec, the
-- user's functions) is one function `lib` from histories to answers, about which nothing is assumed:
-- a theorem that needs a fact about it names it as a hypothesis (`Resolves`: dlsym finds each symbol;
-- `BoundedCopies`: memcpy_s copies no more than the room it is given). Log output is left out.
--
-- Files and code:
--   Base      numbers, lists, machine words, std::map as an association list
--   Hcom      the boundary: Types (src/hcom4db_hcom.h, src/hcom4db.h, src/hcom4db_define.h), Call and
--             World, the 68 wrappers of src/hcom4db_dlopen_hcom.cpp (Context, Channel, Service,
--             Memory), its symbol lists (Symbols), and InitOckRpcDl with the dl helpers of
--             src/hcom4db_utils.cpp and the search for the library (Loader)
--   Utils     Calculate2PowerTimes of src/hcom4db_utils.cpp
--   Config    OckRpcInitConfigMap, OckRpcString2Num and std::stoi; Config/Allocator the memory behind a
--             client's allocator (OckRpcSetAllocatorOption, OckRpcPrepareMemAllocator)
--   Client    src/hcom4db.cpp: OckRpcMemAlloc and OckRpcMemFree (Blocks), whose allocator they use (Own),
--             SetReqInfo and PackReqInfo (Pack), OckRpcClientCall and OckRpcClientCallWithParam
--             (Call), the completion callbacks (Callback), OckRpcClientConnectWithCfg and
--             OckRpcClientDisconnect (Connection), the asynchronous half of the other operations
--             (Async), OckRpcRead, OckRpcWrite and their sgl forms (OneSided), OckRpcClientCallRndv
--             and OckRpcClientCallRndvIov (Rndv), OckRpcClientSetTimeout (Timeout)
--   Server    src/hcom4db.cpp: OckRpcCreateServer, OckRpcServerAddService, OckRpcServerAddRndvService,
--             OckRpcReceiveHandle, OckRpcServerStart, OckRpcServerDestroy; the options of a server
--             (Options, Features), OckRpcServerCreateWithCfg (Create), OckRpcServerReply and
--             OckRpcServerReplyRndv (Answer), OckRpcRndvReceiveHandler (Rndv), the
--             TLS callbacks (TlsCallback)
--   Forward   src/hcom4db.cpp: the functions that only pass their arguments on
--   Log       src/hcom4db_log.cpp and the macros of src/hcom4db_log.h: SetStrStol and both forms of
--             SetLogLevel (Log), the texts that name a level (Numeral), the logger and its messages
--             on one thread (Logger), and Instance with any number of threads (Instance)
--   Program   the operations as the steps of one program, what every run keeps, the way of a
--             request from a client to a handler (Delivered), and the end of an asynchronous call
--             (Settled)
--   Examples  concrete runs
--
-- How they interact. The client's calls and the server's operations change the same `World` and
-- reach libhcom.so through the wrappers, each of which answers a default if its function is not in
-- the table. `granted` and `released` (Client/Blocks), `strangers` (Client/Own: dealings with any
-- allocator but a given one), `handled` (Server/Received) and `hold_of` (Server/Locks) read the
-- history: which blocks were handed out and given back, which handlers ran, and how a thread holds a
-- mutex. A connection finds its server by name in the map that the creation of a server fills; a
-- reply and an asynchronous operation leave an AsyncCbInfo with the library, which its callback
-- finds again (`Given` in Client/Async). Server/Registry is the abstract view of the registered
-- handlers. `Keeps` (Server/Kept), `Safe` (Program/Safe) and `Orderly` (Program/Orderly) compose as
-- the code composes steps, and their rulesets prove them of whole functions.
--
-- Bounds and fuel. uint16_t, uint32_t and int16_t values wrap where the source's do; size_t and
-- pointers are numbers, and addition on them does not wrap. The loop of Calculate2PowerTimes has 33
-- rounds of fuel, one more than a uint32_t has bits; every other loop is structural.
--
-- Not modelled: of the log, the time stamp on std::cout and the rendering of streamed arguments; the
-- operations of `World` log nothing. Only in Log/Instance do the steps of threads interleave, and
-- there in one order that all of them see; elsewhere no other thread acts during a function, and a
-- user's function that runs inside a handler does not call back into the library. A rendezvous
-- message has at most the four parts of its struct.
pub mod Base
pub mod Hcom
pub mod Utils
pub mod Config
pub mod Client
pub mod Server
pub mod Forward
pub mod Log
pub mod Program
pub mod Examples
