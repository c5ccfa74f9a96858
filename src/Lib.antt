-- ===== src/Lib.antt =====
-- A model of the gateway's core and proofs about it. The program is a gateway for the Model
-- Context Protocol: a client opens a session, the gateway connects the session to the upstream
-- servers (targets) that the policies allow, lists their tools, resources and prompts under
-- prefixed names, and routes calls to them, each access checked by the authorizer.
--
-- The parts, in the order in which they build on each other:
--
-- - Base: numbers, lists, texts, maps, results that the parts share. `Text` is a list of
--   character codes, `Map V` an association list with distinct keys.
-- - Policy (backend/internal/database/models.go): the rows of the policy tables. Policy.Store
--   (backend/internal/database/repository.go): GetPoliciesForTarget is
--   `get_policies_for_target`, and the other policy operations have the source's names in snake
--   case, in Store.Changes where they make or change a policy. Ranked is about the order of the
--   rows that a query answers.
-- - Authz (backend/internal/gateway/authorizer.go): `Authorizer` with its policy cache,
--   CanAccess is `can_access`, its loop `decide`, loadPolicies is `load_policies`. Decision is
--   about the loop, Cache about the policy cache, Enforced about the policy tables behind it, and
--   Filter about the three filters.
-- - Mcp (backend/internal/mcp/types.go, interface.go): the protocol's types.
-- - Session (backend/internal/gateway/session.go): the session record and its methods;
--   Session.Manager has the manager over the tables mcp_sessions and users, the telemetry counter
--   of active sessions and the clients that were closed as state.
-- - Proxy (backend/internal/gateway/proxy.go): ListTools, ListResources, ListPrompts, CallTool,
--   ReadResource and GetPrompt, the last three in Proxy.Routing. Proxy.Shown and Proxy.Listed are
--   about what a listing shows, Proxy.Calls about where a call goes.
-- - Targets (backend/internal/database/repository.go): tokens and environment configs;
--   ResolveTokenForTarget is `resolve_token_for_target`, ResolveEnvConfigsForTarget is
--   `resolve_env_configs_for_target`. Targets.Tokens and Targets.Envs are about them.
-- - Stdio (backend/internal/stdio/manager.go): the pool of processes (Pool) and the keys under
--   which sessions share them (Isolation).
-- - Proxy.Initialize (backend/internal/gateway/proxy.go): InitializeSession is
--   `initialize_session`, one goroutine is `open_target`. Opened follows one target, Order all.
-- - Proxy.Clients: createStdioClient, createK8sClient and createHTTPClient, the last as
--   `http_config` with the configuration that it hands to the HTTP client.
--   Clients.Apart is about the secrets of others.
-- - Proxy.Dispatch: HandleRequest is `handle_request`, ForwardRequest `forward_request`.
-- - Gateway (backend/internal/gateway/handler.go): the HTTP handlers over the session manager and
--   the proxy, with the source's names in snake case; handlePost continues as `handle_rpc` and,
--   once the session is found, as `handle_in`. Served is about which requests the proxy
--   serves, Permitted about the policies behind a tool call, Foreign about the sessions of others,
--   Deleted about the end of a session.
-- - Auth (backend/internal/auth/middleware.go, with the table api_tokens of
--   backend/internal/database/repository.go): Authenticate is `authenticate`. What it puts into the
--   request's context is the `Caller` of Gateway.
-- - Sse (backend/internal/mcp/transport.go): SSEEvent and ReadEvent over the bytes of a body;
--   Writer is WriteEvent, Stream the goroutine of Connect, ProxySSE, and parseSSEResponseBody of
--   backend/internal/mcp/client.go. Decimal is Go's `%d`. The reader's fuel is the number of bytes
--   and one more, which Reader shows to be enough. Fields and RoundTrip are about one event,
--   Written, Heard and Relayed about writers and streams.
-- - SseHub (backend/internal/gateway/sse.go): the hubs of the sessions. Steps has the steps that
--   interleave, Delivered the turns of the goroutine.
-- - Observability (backend/internal/observability): the aggregator of aggregator.go; Hub is hub.go.
--   Window and Log are about the snapshots, Hub.Steps about the channels.
-- - HttpClient (backend/internal/mcp/client.go): the client of an upstream server; the HTTP client,
--   the JSON decoder and url.Parse are its `Network`. sendRequest is `send_request`, the six
--   operations on tools, resources and prompts are `call`, in Handshake
--   with connectSSE and Initialize. Headers has Go's http.Header.Set; Calls, Kept and Opened are about responses, state and Initialize.
-- - Accounts (backend/internal/api/handlers.go and the tables users and api_tokens of
--   backend/internal/database/repository.go): the tables, and in Accounts.Handlers registration,
--   login, tokens and the update of users. Kept and Roles are about who is an admin, Signed about a login and the middleware of Auth.
-- - Policy.Handlers (backend/internal/api/policy_handlers.go): the handlers under /policies over
--   Policy.Store, where Rows is about the constraints on the rows that the operations keep, as
--   Intact is for the handlers. A UUID that a handler draws is new; that target_id refers to a
--   target that is there is not modelled, since the tables of targets are elsewhere.
-- - Tests: concrete tables, sessions and runs.
--
-- Conventions. A UUID is the text that its `String` method prints. Time is a number of
-- nanoseconds that the caller passes; a call reads the clock once. A Go map is an association list
-- in the order of some iteration. A lock makes a method one step. Goroutines of a listing work
-- one at a time in the order in which they take the lock; that order is an argument. A database
-- answers every statement of one operation or none. Go's `regexp.MatchString`, the upstream
-- servers, the process and cluster managers as the proxy calls them, the encryptor, decoding JSON
-- and checking a token's signature, an HTTP exchange, hashing a password, signing a token, SHA-256 and
-- float64 are parameters (`Env`, `Upstream`, `Connector`, `Decoder`, `Verifier`, `Network`,
-- `Crypto`, `sum256`, `Float`). An error of HttpClient has the constant part of its text only; no
-- theorem says which text that is. A loop runs over a finite list and is structural recursion, but for three: ReadEvent,
-- the goroutine of Connect and parseSSEResponseBody take a fuel of one more than the bytes of the
-- body, since every line and every event takes a byte at least; decimal digits take the number.
--
-- Not modelled: JSON encoding, JWT and AES-GCM, the pipes of a process, the handlers for targets
-- and environment configs, the Kubernetes manager and operator, configuration, telemetry
-- and logging; of the tables, the lengths of VARCHAR columns, references to targets, and the rows
-- that go with a deleted user apart from the user's API tokens. Most of it is input and output or calls of libraries.
pub mod Base
pub mod Policy
pub mod Authz
pub mod Mcp
pub mod Session
pub mod Targets
pub mod Stdio
pub mod Proxy
pub mod Auth
pub mod Accounts
pub mod Sse
pub mod SseHub
pub mod Observability
pub mod HttpClient
pub mod Gateway
pub mod Tests
