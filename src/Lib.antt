-- ===== src/Lib.antt =====
-- nfs4go, an NFS version 4 server: a verification library.
--
-- The program reads remote procedure calls from TCP connections (rpc.go, conn.go), decodes them with its
-- own XDR code (xdr/, msg/), runs the operations of a compound one by one (mux_v4.go), with a table of
-- clients, sessions and slots (clients/) and a worker for each user that keeps the open files (worker/),
-- and writes the reply into a pooled buffer (bufpool/). The file system behind the worker is a
-- third-party interface.
--
-- The files, and what each is about:
--   Common        lists, results, maps as association lists, integers. A result is Go's value or error,
--                 or a panic, or `stuck`: a read that never returns, a loop whose input of random
--                 numbers or clock readings is used up, or a use of a session's buffer after the session
--                 was destroyed.
--   Xdr           xdr/pad.go, decoder.go, encoder.go, marshal.go: Words has the basic types, Layout
--                 describes the types of messages, Codec encodes and decodes along a layout, as the
--                 methods Encode and Decode of each struct and the generic code of the package do.
--                 RoundTrip, Total and Writes have the proofs.
--   Msg           msg/: the layouts of the structs, arguments and results, the status codes with
--                 `Err2Status`, and the codes of the operations.
--   Rpc           rpc.go: record marks and the headers of calls and replies.
--   Bufpool       bufpool/: a buffer is its slice and two positions. Contents is the abstract view: the
--                 bytes that are written and not yet read.
--   Auth          auth/authenticate.go: credentials, and when two are equal up to the order of groups.
--   Clients       clients/: Client has the methods of a client, Table those of the table. The proofs
--                 follow the table through any history of calls.
--   Vfs           the calls of the third-party file system that the program makes, as a record: the types of
--                 its files and listings are the record's, and each call gives a value or an error and the
--                 disk after it.
--   Worker        worker/ and nop.go: Cache has the map of handles that expires, Files the open files, Listers
--                 the open directories, Lifecycle the count of uses and the clean-up. Life has the steps of a
--                 worker from `New` to its end, Balance (with Counts) its files and the counts of clients,
--                 Cached the cache after any calls, Opened and Listed the tables.
--   Server        server.go: Workers is `GetWorker`, with the workers in a heap, and Serving what it gives.
--                 Clock is `MustIncrement` of clock/clock.go.
--   Mux           mux_v4.go: State is a compound that runs, Output the headers and replies, Sessions and
--                 Handles the operations on clients, sessions and saved handles, Dispatch the choice among
--                 them, Run the two loops, Procedures `HandleProc` with mux_wrong.go and a turn of
--                 `ServeLinear` of conn.go. The proofs are in Appends, Rewrites, Answers, Handlers, Loop,
--                 Complete, Outcome, Endings and Compounds for the reply, in Slots, Replay, Kept and Retry
--                 for repeated calls, in Shapes for the form of a reply, in Served for the procedures, and in
--                 Returns for the operations that a compound runs.
--                 The operations on files start from Files, which has the worker of a request, its calls, its
--                 cache and the rule for errors: Paths, Changes, Access, ExtendedAttrs, Attributes, SetAttr,
--                 ReadDir, OpenFiles, and OPEN in OpenPlan and Opens. FileSwitch chooses among them.
--                 Bodies, FileHandlers, FileReplies, AttrReplies, ReadDirReplies and OpenReplies have what
--                 they reply, Closes a repeated CLOSE, OpenNumbers the numbers of OPEN.
--   Attrs         bitmap4.go, fileid.go and attrs.go: sets of attributes as words, with Bounds for the panics,
--                 the id of a file in a state id, and the attributes of a file: Numbers has their numbers,
--                 Values and Encode what `fileInfoToAttrs` writes, Record and Decode what `decodeFAttrs4`
--                 reads.
--   Examples      the theorems at inputs that meet their hypotheses.
--
-- Bytes are numbers. Machine integers are numbers with the wrap-around written out; a value of a message
-- is within its width where a theorem asks for it (`Fits`). The only fuel is that of the loop over a
-- linked list in Xdr/Codec, the number of bytes at hand: each entry takes at least four of them, so that
-- it is enough on every input. The loop of a compound runs over the number of operations that the call
-- announces, the loops over attributes over the numbers up to the highest one. The searches for a fresh
-- id run over the list of the random numbers that will be drawn.
--
-- Memory has no bound: where the decoder allocates as many elements as a message announces before it reads
-- them, the model only reads them. A reader ends with its bytes, but for the buffers of compounds, which
-- report no end: reading on from one of these is `stuck` (`from_buf` in Mux/State).
--
-- Locks are not modelled: each method of the table is one step, and a compound runs alone. A pointer to a
-- slot is its session and its number, and a write through it is a write to the table, or to a slot that
-- the table does not reach any more, where the compound removed its own client. A compound that destroyed
-- its own session and keeps its reply is `stuck`: it writes to a buffer that is in the pool again. The clock and the
-- random numbers are lists of what will be read.
--
-- The dispatch takes the operations on files as a parameter: the theorems on compounds ask of it that an
-- operation that succeeds adds one reply with its status, as `OperationResponse` does. FileSwitch has
-- the program's own. Errors of the file system are the values that the program tests with `errors.Is`,
-- and a value for all others. A worker is taken by an operation and put back when
-- it ends; meanwhile no other request changes it. A clean-up that was started is a number in a list,
-- and the goroutine that runs it a step. The names and types of package os are those of its documents:
-- the bits of a mode and the flags of an open. Logging has no model.
-- Not modelled: the goroutines of conn.go and server.go, the ticking of clock/ and of the workers' tickers,
-- the build tool xdr/generate, and the example in cmd/.
pub mod Common
pub mod Xdr
pub mod Msg
pub mod Rpc
pub mod Bufpool
pub mod Auth
pub mod Clients
pub mod Vfs
pub mod Worker
pub mod Server
pub mod Mux
pub mod Attrs
mod Examples
