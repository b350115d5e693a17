-- ===== src/Lib.antt =====
-- jsonrpsee: the client's background task and the server's handling of requests.
--
-- The program is a JSON-RPC library. A client has a background task that owns the transport: the
-- front end gives it requests, batches and subscriptions, it registers them in a request manager
-- and sends them, and it gives the server's messages back to the callers. A server reads a body as
-- a call, a notification or a batch, runs the registered methods and writes a bounded response. Over
-- HTTP each request is answered by itself; over a websocket a session starts a task for each message,
-- the tasks and the subscriptions put their messages into one queue, and another task sends them.
--
-- The files, and the code that they are about:
--   Prelude          shared names, tests on numbers, lists, maps, decimal text, texts with commas
--   Types.Ids        ids (types/src/params.rs)
--   Types.Error      error codes and objects (types/src/error.rs); Types.Method: core/src/error.rs
--   Types.Params     Params and ParamsSequence (types/src/params.rs)
--   Types.Response   responses; Types.Response.Visitor: their reader and writer
--                    (types/src/response.rs)
--   Client.Manager   RequestManager (core/src/client/async_client/manager.rs); its children
--                    WellFormed and Lifecycle prove what its operations keep and do
--   Client.World     what the background task acts on: the manager, the channels to the front end
--                    and the transport (core/src/client/mod.rs)
--   Client.Helpers, Client.SingleResponse
--                    the process_ functions (core/src/client/async_client/helpers.rs)
--   Client.Frontend, Client.Backend
--                    handle_frontend_messages and handle_backend_messages
--                    (core/src/client/async_client/mod.rs)
--   Client.Safety    the task as a step relation, and its invariant over all runs
--   Client.Tasks     the loops of the read task and the send task, and the inactivity check (utils.rs)
--   Client.Subscription
--                    the stream of a subscription and its end (core/src/client/mod.rs)
--   Client.Ids       RequestIdManager and generate_batch_id_range (core/src/client/mod.rs)
--   Client.Params    ParamsBuilder (core/src/params.rs)
--   Client.Calls     request and batch_request of both clients (core/src/client/async_client/mod.rs,
--                    client/http-client/src/client.rs), BatchRequestBuilder (core/src/params.rs)
--   Client.Service   RpcService (core/src/client/async_client/rpc_service.rs); its child Calls has the
--                    calls of the asynchronous client over it (core/src/client/async_client/mod.rs)
--   Client.Http      the HTTP client: transport, RPC service and calls; its child Build has the builder
--                    of the transport, and Exchange runs it against Server.Http
--                    (client/http-client/src)
--   Client.Transport the websocket transport (client/transport/src/ws/mod.rs); its children have the
--                    target of a URL, the handshake, the loop over addresses and redirections, and
--                    the two ends of a connection
--   Server.Response  MethodResponse and BoundedWriter; Server.Response.Batch: BatchResponseBuilder
--                    (core/src/server/method_response.rs)
--   Server.Methods   the table of methods (core/src/server/rpc_module.rs)
--   Server.Module    the registration of methods and subscriptions (core/src/server/rpc_module.rs)
--   Server.Rpc       handle_rpc_call over any service (server/src/server.rs)
--   Server.Calls     RpcService (server/src/middleware/rpc.rs)
--   Server.Body      read_body (core/src/http_helpers.rs)
--   Server.Connections
--                    ConnectionManager (server/src/connection_manager.rs)
--   Server.Queue     what a MethodSink (core/src/server/helpers.rs) needs of tokio's channel
--   Server.Subscription
--                    pending sinks, sinks, the subscribe and unsubscribe callbacks
--                    (core/src/server/subscription.rs, core/src/server/rpc_module.rs); its child
--                    System has the steps of the subscriptions of one connection, over
--                    the tables of all registrations
--   Server.Websocket send_message; its children Message, Session and Outgoing have the task of a
--                    message, the receiving loop and the sending task (server/src/transport/ws.rs)
--   Server.Http      call_with_service and the responses (server/src/transport/http.rs)
--   Server.Proxy     ProxyGetRequest (server/src/middleware/http/proxy_get_request.rs)
--   Server.Hosts     Authority and HostFilter (server/src/middleware/http/authority.rs and
--                    host_filter.rs)
--   Server.Tower     TowerServiceNoHttp and the connection guard (server/src/server.rs,
--                    server/src/future.rs), with the steps of sessions and requests
--   Macros           the rpc macro: Macros.Description has what it accepts (proc-macros/src/rpc_macro.rs),
--                    Macros.Server the into_rpc that it generates (proc-macros/src/render_server.rs)
--   the files named Fixtures and Tests
--                    concrete runs
--
-- Correspondence. A method on `&mut self` takes the state and returns its result beside the new
-- state. A match on a map's entry is a look-up followed by a helper with a clause for each case. A
-- sink that is sent to in place is put back into its entry in its new state. What is sent over
-- oneshot channels and the transport is appended to two lists of the client's world. `expect` on
-- a missing value is an outcome of its own, `panics`, and so is a returned error, `fails`.
--
-- The server's parts meet at interfaces: `Server.Rpc.RpcServiceT` is the service that the transports
-- run and that `Server.Calls.service` implements, `Server.Queue.Queue` the channel that sinks and
-- tasks send on, `Server.Websocket.Message.Place` where that channel is in a service's state. The
-- receiving half of the channel by which a subscription learns that it ended is in the table of
-- subscribers only, so the channel is a number and is closed when no entry has it. The loops of a
-- websocket session run over a list of what they wait for, with the times of the events. Tasks that
-- run at the same time are steps of a relation, in any order.
--
-- Parameters. What serde, tokio and the transport do is a record of functions: `Client.World.Runtime`
-- for the client, `Server.Runtime.Runtime` and `Server.Rpc.Reader` for the server,
-- `Client.Transport.Net` and `Client.Transport.Channel.Soketto` for the websocket transport, and
-- `Client.Http.HttpStack` and `Client.Http.Build.Urls` for the HTTP client, and
-- `Client.Service.Background` for the task behind the client's service. Lemmas hold for
-- all of them, except where a theorem says what it needs. The std library's `HashMap` is a list of
-- pairs behind its laws, and decimal text is written and read digit by digit.
--
-- Bounds. `u64` and `usize` have 64 bits; the sum that ends a batch's range and the counter of ids
-- wrap as in a release build. Sizes of texts in memory do not wrap. Every loop is structural, but
-- for the writer of decimal digits, whose fuel is the number plus one, more than its digits.
--
-- Not modelled: the order in which a task selects between its events, the accept loop and the
-- builders other than that of the HTTP transport, graceful shutdown, the generated client of the
-- macro and its decoding of parameters, the browser's transport. Timeouts are a Boolean that says
-- what came first. A callback of a method is a function on the application's state, and a future runs
-- to its end at once.
pub mod Prelude
pub mod Types
pub mod Client
pub mod Server
pub mod Macros
