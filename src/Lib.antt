-- ===== src/Lib.antt =====
-- A model of the C and C++ libraries of mg_raffle, with what is proved of them.
--
-- The program. core/ holds C containers and services (an intrusive list, a red-black tree, a
-- memory pool, a log), utils/ C++ versions of some of them, and src/ an RPC server: a connection
-- reads bytes into a pooled buffer (src/buffer.h), its stream (src/stream.h) takes a magic number
-- from them, chooses a parser and hands it the rest, and the parser (src/binary_stream_parser.h)
-- reads a header of three integers and a message into a request (src/binary_request.h).
-- gencode/mg_server/server is a second server: the connection itself takes the magic number, its
-- parser cuts requests of a header and a body out of pooled buffers, and the answer to a request
-- goes to the socket and, as far as it has no room, into a queue of the connection.
--
-- Modules.
-- - Base: numbers, lists, C integers (Base.Int), stateful code that can fail (Base.Run) and
--   addresses (Base.Pointers).
-- - Core.MgList models core/mg_list.c and core/mg_list.h: one record has the links of all
--   addresses, an operation is the sequence of its assignments.
-- - Core.RbTree models core/mg_rbtree.h: the search, the rotations and the exchange of nodes, and in
--   Core.RbTree.Fixup `insert_rb_node` and `delete_rb_node` with their loops. `_compare` is an
--   argument. Core.RbTree.Search and Core.RbTree.Linked have the shapes that links can hold.
-- - Core.Pool models core/mg_pool.h, over the lists of Core.MgList.
-- - Core.Log models core/mg_log.c with the levels of core/mg_log.h. `fprintf` gets the arguments as
--   one `va_list`, so that a conversion in a format is a fault, as a closed file is.
-- - Utils.RbTree models utils/rbtree.h for `int`: a value beside the links of Core.RbTree, whose
--   rotations it shares since their text is the same; `insert` and `del` have a module each.
-- - Utils.Arena models utils/buffer.h, Utils.Lock utils/lock.h as steps of any number of threads,
--   Utils.Hash utils/hash.h with the byte order of the machine as an argument, Utils.ConnectionPool utils/connection_pool.h, and Utils.Sequence the
--   sorts of utils/algorithm.h.
-- - Rpc.Buffer models `malloc_size`, `SBuffer` and `SBufferPool` of src/buffer.h. What `malloc`
--   returns is an argument. A mutex is not modelled: each operation of a list is one step.
-- - Rpc.ReadBuffer models `BufHandle` and `ReadBuffer` of src/buffer.h. An iterator is a position.
-- - Rpc.Parser models `SBinarySTreamParser` and `SBinaryRequest`: `parser_msg` is `parse_header`,
--   which falls through to `parse_message` by `finish_header`. The header is kept as its bytes.
-- - Rpc.Stream models `SStream` with the counters of `SConnectionStat`. `on_read_some` runs against
--   the results that `recv` has given so far; `now` is what `time` returns.
-- - Rpc.Server models the table of connections of src/tcp_server.h and src/epoll_connection.h and the
--   event loop of src/epoll_event.h, for the events that `epoll_wait` has reported so far. It counts
--   the control blocks of shared pointers that own a connection: a second deletion is a fault. The
--   stream's `release` is the call of `release_connection`, which `read_connection` carries out.
-- - MgServer.Buffers and MgServer.ReadBuf model buffer_manager.h of gencode/mg_server/server: the
--   buffers, their pool, the guards and `MReadBuf`; MgServer.Parser models parser.cpp with
--   `parse_connection` of main.cpp; MgServer.Table connection_manager.cpp and the state of the
--   server; MgServer.Sending `SendBuf`, `do_response` and `send_run`, where `offered` collects the
--   descriptor and the bytes of each call of `send`; MgServer.Receiving
--   `do_request`, `recv_run` and the loop of `accept_run` over the events so far. What the server
--   uses of protobuf is the record `Protobuf`. MgServer.Frame describes the protocol byte by byte,
--   MgServer.Refine proves that the parser follows it, and MgServer.Serving is about the
--   connections and the buffers.
-- - Exercises models `arr_test` and `minOperations` of gencode/mg_server/helloworld.cpp and
--   `pivotIndex` of gencode/leetcode/main.cpp, on lists.
--
-- Conventions. A C `int` is an integer without bound where its overflow is undefined; the 64-bit
-- counters wrap. A failed assertion, a null or dangling pointer and an access out of bounds are
-- faults (`fault` of Base.Run, or `none`). A value that a constructor leaves uninitialised is an
-- argument.
--
-- Fuel. Loops over pointers have a number of rounds. A search needs one more than the tree has
-- nodes; `skip_loop` has two more than there are blocks left; for a stream without a parser one
-- round of `split_loop` is enough. `parse_connection` of gencode/mg_server needs three rounds for
-- each byte and three more, and `split_message` of its parser four. Where a loop of the source does
-- not end, the run is out of fuel for every number of rounds.
--
-- Not modelled. The start of the server, its sockets, the messages that protoc generates, the
-- daemon, the signals, the watch_dog and the client of gencode/mg_server, which are system calls
-- around the modelled code; utils/hashtable.h, which does not compile; and the programs in other
-- languages.

pub mod Base
pub mod Core
pub mod Rpc
pub mod MgServer
pub mod Exercises
pub mod Utils
