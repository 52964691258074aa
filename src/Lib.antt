-- ===== src/Lib.antt =====
-- ProxyDeck's backend: a proxy gateway that lets users with quotas and limits on connections reach the
-- network through a pool of upstream proxies, which it takes from subscriptions and keeps checking.
--
-- Parts of the program and their files
--
-- Gateway models backend/internal/proxy/gateway.go. A request goes through `authenticate` (the
-- username by Selector, the password and the quota by Quota, a connection by `acquire`), then through
-- `serve_http` or `serve_connect`, and at the end through the deferred `released`. A handler is a
-- function from a request and the state of Redis to the list of its actions and the new state: metrics,
-- answers, connections, tunnels, traffic. What the connections answer is a record of functions
-- (`HttpPeers`, `TunnelPeers`); `selector.Service.Pick`, the lookup with the check of the password, and
-- `stats.Service.RecordTraffic` are parameters. Trace says what a list of actions comes to, Served goes
-- through the paths of both handlers, Balance, Slots and Forward hold the theorems. Wire has what
-- `dialUpstream`, `establishTunnel` and the writers of requests do with one connection.
--
-- Quota models backend/internal/quota/service.go. Redis is an interface of the commands that the
-- backend sends, with what they do when they succeed; Redis/Reference fills it with a function from
-- keys to numbers. Quota/Schedule has the requests of a user as interleavings of single commands, with
-- `Release` as its two commands (`Step`) or as one (`WholeStep`); Quota/Race runs the first.
--
-- Stats models backend/internal/stats/service.go: `RecordTraffic` as a transaction (Redis/Pipeline), and
-- Flush the rounds of `FlushUsage` over the users, whose table is an interface (`Accounts`).
--
-- Nodes models the cached nodes of backend/internal/redisstore/store.go: `CacheNode` and `RemoveNode` as
-- transactions (`Command`) with the cleanup of the sticky sessions behind them. Redis is an interface
-- (`NodeRedis`) of the commands on nodes, sets and sticky keys; Nodes/Reference fills it. Effect and
-- Removal say what the transactions do, Kinds and Index hold the invariant of the sets, Sticky and Unpin
-- what becomes of the sessions.
--
-- Selector models backend/internal/selector/service.go: Username for `ParseUsername`, Pick for `Pick`,
-- `candidates` and `matchNodeIDs` over `NodeRedis` and the queries on the table of nodes (`NodeTable`).
--
-- Subscription models the parsers of backend/internal/subscription/service.go: Body for
-- `parseSubscriptionBody`, and a module for each format (Singbox, Clash, Surge, QuantumultX, Manual,
-- Shadowrocket with Base64, Links and Vmess), over Value for decoded JSON and YAML, Protocol for the
-- names of protocols and Region for `inferRegion`. A parser of a line or an item returns an `Option`, a
-- parser of a document a `Result`. Body/Dialable, Body/Lines and Body/Sound say what their nodes are.
-- Links models `Delete` and `pruneSubscriptionNodes` over the tables (`Tables`), Sync the rest of a
-- synchronization over what surrounds them (`Surroundings`), Due the time of the next one.
--
-- Upstream models backend/internal/upstream: the choice of a dialer, Frames for what is written to a
-- proxy, Dial for the dialers over an interface of the network (Upstream/Network), which knows the
-- connections that are open, and Url for the URL of a proxy.
--
-- Healthcheck models backend/internal/healthcheck/service.go: Probe for the parsers of answers and
-- their merge, `check_one` for one check as a list of effects, Streak for checks in a row, Sources for
-- the requests to the services that know addresses, Transport for the way that they take, Rounds for
-- `CheckAll` and `CheckNodes`. Fetch has the
-- answers of the HTTP client.
--
-- Admin models backend/internal/adminapi/server.go: Sessions for the guard, the login and the logout
-- with the sessions of backend/internal/auth/auth.go, Users, Subscriptions and Nodes for the handlers,
-- and Columns for the maps of the updates. A handler is a function from a decoded request and a state to
-- an answer and a state. Auth models the rest of backend/internal/auth/auth.go.
--
-- Retry models backend/internal/retry/retry.go; Config models backend/internal/config/config.go; Model
-- has the rows of backend/internal/model.
--
-- Prelude, Strings and Errors are shared: tests on numbers, integers with Go's wrap-around at 64 bits,
-- texts as lists of code points with what the program uses of packages strings and strconv, and the
-- errors. Tests has the theorems at concrete inputs.
--
-- Bounds and fuel
--
-- Go's int and int64 are integers with `wrap64` where the source computes; byte counts and ports are
-- read with the bounds of strconv. A `float64` that does not fit in int64 becomes the least number, as on
-- amd64 (`int64_of`). `digits` prints on fuel, and the number's successor is enough, since
-- each digit divides the number by ten. The loop of `Do` recurs on the rounds left, of which there are as
-- many as attempts. The other loops are structural on their lists. Splitting skips over a
-- separator by a counter.
--
-- What is not modelled, and why
--
-- The decoders of JSON, YAML, base64 and URLs, bcrypt, the cipher, GORM, Redis itself and net/http
-- are libraries and stand as parameters. Texts are valid UTF-8; case mapping is that of ASCII and of the
-- code points that map into it. A decoded float is finite. The transfer of bytes and its deadlines
-- are left out of the gateway. Redis drops a cached node after a day, and a
-- sticky key and an administrator's session after their time; no step of the model does. Of the administration, the routing and the lists,
-- which are queries, are left out, and so are the queries of the statistics and the tickers.
pub mod Prelude
pub mod Strings
pub mod Errors
pub mod Selector
pub mod Subscription
pub mod Model
pub mod Redis
pub mod Nodes
pub mod Fetch
pub mod Auth
pub mod Quota
pub mod Stats
pub mod Retry
pub mod Healthcheck
pub mod Upstream
pub mod Gateway
pub mod Config
pub mod Admin
pub mod Tests
