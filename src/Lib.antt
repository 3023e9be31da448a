-- ===== src/Lib.antt =====
-- Verification of rapidapp, a framework for TCP servers, and of the connector, the server built on
-- it that stands between clients and back ends.
--
-- The program's parts, as far as they are modelled:
--   A process runs `AppFrameWork` (framework/rapidapp_framework_imp.{h,cpp}) on libevent's loop. It
--   keeps one table of connections to clients (front ends) and one of connections to back ends
--   (framework/rapidapp_net_mgr.{h,cpp}); a connection is an `EasyNet` object
--   (framework/rapidapp_easy_net.{h,cpp}) with a user context that the application fills. When bytes
--   arrive, the framework cuts them into messages and calls the application. Every tick it fires the
--   timers (framework/rapidapp_timer_mgr.{h,cpp}) and walks over some of the connections to close
--   those that are idle or too busy. The connector (server/connector/connector_app.{h,cpp},
--   connector_session.{h,cpp}) is such an application: a client's session goes through a handshake
--   and then has its data forwarded to a back end and back. A client uses `TcpSocketUtil`
--   (utils/tsocket_util.{h,cpp}), two byte buffers around a non-blocking socket.
--
-- Files:
--   Base: lists and integers of C over native numbers, and `Run`, the ways in which code ends: a
--   value, a fault (undefined behaviour or a failed assertion) or exhausted fuel.
--   RingBuffer, RingBuffer/Laws: `RingBuffer` of utils/tsocket_util.h.
--   Socket: `TcpSocketUtil`; Socket/Flow states what a call moves, Socket/Sending, Receiving, Vectors
--   and Packets treat the calls, Socket/Stream a whole history of them.
--   Wire: the length field and the loop of `OnFrontEndMsg` and `OnBackEndMsg`; Wire/Codec, Frames and
--   Loop.
--   Timer: `EasyTimer` and `TimerMgr`; Timer/Order, Remove and Firing.
--   Tick: `Tick` of `AppFrameWork`, which runs the timers and walks over the connections; Tick/Closing
--   and Stuck.
--   Net: `EasyNet`, `NetHandlerMgr` and `DoSomething`; Net/Release, Pool, Add, Remove, Walk, Walk/Complete,
--   Outcome and Kept, and Limits.
--   Connector: the callbacks of `ConnectorApp`, over Connector/State (data), Connector/Frame (calls of
--   the framework) and Connector/Session (`ConnectorSession`, `BackEndSet`); the proofs are in
--   Connector/Sends, Clients, Steps, Handshake, Forward, Refused, Sequence, RoundRobin, Dangling and
--   Unreachable. Connector/Events: the socket events that the framework meets for the connector;
--   Connector/Inputs treats a message that arrives, Connector/Accepted a client that does.
--   ServerApi, ServerApi/Dialogue: `ConnectorServerApi`, with which a back end answers the connector
--   (server/connector/server_api/connector_server_api.cpp).
--   ClientApi: `ConnectorClientProtocolThreadImp`, over ClientApi/State, Protocol and Calls, which are
--   `ConnectorClientProtocolImp` (server/connector/client_api/connector_client_api_imp.{h,cpp}).
--   ClientApi/Exchange and Steps treat one call, with Socket/Online, a socket between two messages;
--   ClientApi/Network lets client and connector take turns, and Rounds, Handshake, Data and Errors say
--   what comes of it; Moves, Reasons and Automaton, Copying and Opening treat the client alone.
--   Coroutine: `CoroutineScheduler` (coroutine/mc_coroutine.{h,cpp}); Coroutine/Table, Laws and Whole.
--   Rpc: `EasyRpc`, calls that wait in coroutines (framework/rapidapp_easy_rpc.{h,cpp}); Rpc/Message:
--   `MessageGenerator` (framework/rapidapp_message_reflection.{h,cpp}); Rpc/Service: closures, the table
--   of services (framework/rapidapp_rpc_mgr.{h,cpp}) and `OnFrontEndRpcMsg`; the proofs are in Rpc/Calls,
--   Replies, Dialogue and Errors.
--   Ctrl, Ctrl/Arguments: control commands (framework/rapidapp_ctrl_cmd_keyword.h and `OnCtrlMsg`).
--   Uri, Uri/Forms: the addresses of utils/rap_net_uri.c.
--   Each part has its runs on concrete data in its Tests.
--
-- State and calls. Each object is a record, each method a function that returns the new state. A
-- pointer is an address into a heap, a function to `Option`: reading a freed object is a fault.
-- The answers of the system (send, recv, connect, allocation, the outcomes of bufferevent_write)
-- are arguments or, where there are many, a sequence in the state. Protocol buffers are a record
-- of functions; what a theorem supposes of it, that no message is written as no bytes, or that
-- what one side writes the other reads back, its entry below says. Where the hash table puts a
-- new entry is an argument. Logging is left out, except where its arguments read memory.
--
-- Fuel: `dispatch` gets one round for each byte and one more, since each message takes a byte at
-- least; `remove_scan` one for each timer and two more; `run_timers` has no bound, which is a
-- theorem.
--
-- Integers are native numbers with their wrap-around written out: sizes and sequences modulo 2 ^ 64,
-- `int` results as signed numbers.
--
-- Not modelled: the set-up of the process, sockets (utils/tcp_socket.c), json conversion, and
-- vendored code. A coroutine that itself calls the scheduler, as a callback does that makes a
-- remote call, is left out: the scheduler has one saved main context, so what such a call returns
-- to depends on the stacks. The network between a client and the connector is one that loses and
-- reorders nothing; a message arrives whole in the theorems on both, while Socket/Stream and
-- Wire/Frames treat partial ones.
pub mod Base
pub mod RingBuffer
pub mod Socket
pub mod Wire
pub mod Timer
pub mod Net
pub mod Connector
pub mod ServerApi
pub mod Uri
pub mod ClientApi
pub mod Coroutine
pub mod Rpc
pub mod Ctrl
pub mod Tick
