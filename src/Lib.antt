-- ===== src/Lib.antt =====
-- The rpc library of this repository (rpc/): a client that spreads calls over the servers of a
-- service, connections that send the calls of many routines in groups, and the server's side of a
-- connection; and the programs of chapter_1/, which count lines, fetch pages and serve them. A
-- development of models of that code, and theorems about them.
--
-- Parts and files
--   RpcError (rpc/error.go): the library's errors. GoError is any non-nil `error`.
--   Call (rpc/call.go): TCall, its pool and WhenCallDone. Calls and channels are shared by pointer,
--     so they stand in a Store and are known by numbers; Store.pool is gCallPool. Call/Pool has the
--     pool's discipline, Call/Completion the ends of a finished call.
--   Client (rpc/client.go): the table of servers with its weights, and getServerInfo. Client/Choose
--     has chooseServerForReq, one function for each of its locked sections, with addConn,
--     removeConn, onConnShutdown and onConnectFailed; Client/Calls has SendCall, AsyncCall and
--     SyncCall. Client/Pick, Client/Table and Client/Unordered, which forgets the order of the
--     table, are about the choice of a server, ConnLimit, Connected, Drain, Stale and Removal under
--     Client/Choose about the connections, Weighed there about both, and Kept about a call while
--     other routines run.
--   Header (rpc/type.go): the headers and flags of requests and responses.
--   Codec, GobCodec, AmfCodec (rpc/codec.go): the interfaces of the codecs, TGobCodec, and
--     TAmfCodec with TCodecJson, TCodecAmf and AmfToJson.
--   ClientConn (rpc/client_conn.go): TClientConn and makeRequestHeader. ClientConn/Start has Start,
--     ClientConn/Sending sendCall, sendGroupCall, sendPing and a round of RoutineWriteRequst,
--     ClientConn/Receiving RoutineReadResponse, onShutDown and Close, ClientConn/NetAddr getNetAddr.
--     ClientConn/Ownership cuts both routines where they hold no lock, and is about who holds a
--     call.
--   Server (rpc/server.go, rpc/util.go): the registry of services, register and getSeviceMethod.
--     Server/State has the status, the listener and the connections; Server/Registry is about the
--     first, Server/Life about the status, Server/Conns about the connections.
--   ServerConn (rpc/server_conn.go): NewServerConn and makeRespHeader. ServerConn/Responses has
--     doCallResponse, doWriteResponse, SendResponse, SendGroupResponse and RoutineDoCall,
--     ServerConn/Requests ReadRequest, dispatchRequest of rpc/server.go and the rounds of RoutineRun
--     and RoutineWriteResponse, ServerConn/Sender RoutineWriteResponse in pieces. ServerConn/Stream
--     is about what the responses are on the wire, ServerConn/Rounds about how a round answers,
--     ServerConn/Accounts about pendingWg and the calls that routines hold: Steps, Running and
--     Dispatch while the connection runs, Settled, Drained and Closing up to its end after Stop.
--   Exchange: both ends of a connection at once. Reading, Arriving and Answering follow a group of
--     responses, Requests, Asking and Started a group of requests, Serving and Serve the server
--     between them, Returning and RoundTrip the way back to the caller.
--   LoadTest (rpc/test/test_client.go): the routines that call a service for a while, and the sums of
--     main. LoadTest/Counts is about what they count, LoadTest/Chosen about the client of the test.
--   Chapter1 (chapter_1/): what its programs share. Dup (1_4.go) counts the lines of files, Fetch
--     (1_7.go) prints pages one by one, FetchAll (1_10.go) fetches them at once, EchoServer
--     (1_12.go) counts its requests, EchoArgs (1_1.go) prints the arguments.
--   Prelude, Keys, GoMap and Chan are shared: numbers, lists, the ends of a run, equality of keys,
--     Go's maps and its buffered channels.
--
-- How they interact: TClient.SendCall chooses a server and puts the call into its channel, from
-- which RoutineWriteRequst of a connection takes it. The connection numbers it, keeps it pending and
-- writes it through its codec. The server's connection looks its method up in the registry, runs it
-- and answers; RoutineReadResponse finds the call by its number and finishes it by WhenCallDone, as
-- do all the places where it fails.
--
-- How code becomes definitions
--   A method with state takes the state and returns the new one. The code between Lock and Unlock is
--   one function; Step of Client/Choose/ConnLimit and Step of ClientConn/Ownership/Steps let such
--   pieces run in any order. Step of ServerConn/Accounts/Running does so for the server's routines,
--   with RoutineWriteResponse in the pieces of ServerConn/Sender.
--   A Run is how code ends: with a value, a panic, blocked for ever, or without fuel. A Result is a
--   value or an error. `none` is nil.
--   A map is an association list. Where the code ranges over a map, the order is an argument.
--   An int is an integer with its wrap-around at 64 bits written out, an int32 at 32; Seq is a
--   natural number modulo 2^64.
--   The fuel of the loop of onConnectFailed is one more than the calls that wait, which is enough,
--   since no other routine runs in between; the loop of RoutineReadResponse runs until an error and
--   takes its fuel as an argument. The loop of sendCall counts its 100 rounds itself, and that of
--   the server's Start takes its fuel as an argument. The routines of the load test take fuel for
--   their calls.
--
-- What is a parameter: gob, the buffer and the network (Stream); the packages amf and json; a codec
-- and its factory, for the connections; net.Listen, net.Dial and what Accept returns; rand.Intn; the
-- choice of sync.Pool; the clock; what the Start of a client's connection returns, for the choice of
-- a server; what SyncCall gives to the load test; the methods of a type, and the test for an upper-case name; the function for
-- dispatching; strconv.Atoi, os.Stat and os.Remove; for chapter_1/, opening and scanning a file,
-- http.Get, io.Copy, and how net/http routes a request.
--
-- What is not modelled: a doneChan without a buffer, which a MaxWaitResp of 0 makes; what a read
-- deadline does to a read, of which only is kept whether it is over; closing doneChan after a
-- broken read among the interleaved pieces of the server's routines, where only the end after Stop
-- is one of them, and shutting a client's connection down among those of its own;
-- SetGobForInterface of rpc/util.go, which only calls gob; logging; recover, but for that of
-- RoutineRun; the parts of SyncCall that are commented out; a named type that is a pointer to
-- itself, at which IsExportedOrBuiltinType would not end; the text, the flags, the profiles and the
-- average of the load test, which is a floating-point number. All of rpc/test/test_server.go is
-- commented out, chapter_1/1_5.go draws with floating-point numbers, and chapter_1/1_6.go, main.go
-- and test.go try the language out.
pub mod Prelude
pub mod Keys
pub mod GoMap
pub mod Chan
pub mod RpcError
pub mod AmfCodec
pub mod Call
pub mod Client
pub mod Header
pub mod Codec
pub mod ClientConn
pub mod GobCodec
pub mod ServerConn
pub mod Server
pub mod LoadTest
pub mod Chapter1
pub mod Exchange
