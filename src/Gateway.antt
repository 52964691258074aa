-- ===== src/Gateway.antt =====
-- backend/internal/proxy/gateway.go: what the gateway does for a request, as the list of its actions
-- and the change of the counters in Redis. The deferred calls come at the end, the last one first.
pub mod Http
pub mod Connect
pub mod Wire
pub mod Access
pub mod Trace
pub mod Served
pub mod Balance
pub mod Forward
pub mod Keeps
pub mod Slots
use proxydeck.Prelude.{
  ℕ, Bool, true, false, List, [], ◌∷◌, ◌++◌, Option, none, some, ◌>>=◌, ◌>>◌, skip_if, not,
  if◌then◌else◌,
}
use proxydeck.Prelude.Int.{ℤ, pos, ltb_ℤ}
use proxydeck.Errors.{
  Error, Result, ok, err, user_disabled, user_expired, quota_exceeded, concurrency_exceeded,
  record_not_found, missing_auth,
}
use proxydeck.Strings.{Text, lit, text_eq, is_empty, equal_fold}
use proxydeck.Strings.Split.{has_prefix, trim_prefix, cut}
use proxydeck.Model.{User, ProxyNode}
pub use proxydeck.Stats.{TrafficRecord}
use proxydeck.Redis.{Redis, Err}
use proxydeck.Quota.{acquire, release}
use proxydeck.Selector.Username.{Filters, no_filters, parse_username}

pub data Metric : Type 0 where
  proxy_auth_failures proxy_requests proxy_connect_requests : Metric
  proxy_selection_failures proxy_upstream_failures : Metric
  active_tunnels_inc active_tunnels_dec : Metric

-- The parts of a request that the handlers read. An absent header is the empty text.
pub record Request : Type 0 where
  pub method : Text
  pub host : Text
  pub url_host : Text
  pub proxy_authorization : Text
  -- -1 if unknown
  pub content_length : ℤ

pub data Action : Type 0 where
  count : Metric → Action
  -- `http.Error(w, err.Error(), status)`, and the same with a `Proxy-Authenticate` header
  http_error challenge : ℕ → Error → Action
  -- the upstream's header and body, copied, with its status
  respond : ℕ → Action
  -- a line written to the hijacked connection
  write_client : Text → Action
  -- the connection to the upstream or the target
  open_peer close_peer : Action
  send_origin send_proxy : Request → Action
  -- both directions copied to their ends
  copy_streams close_client : Action
  record_traffic : TrafficRecord → Action
  release_slot : Text → Action

-- `if g.metrics != nil { … }`
unfoldable pub counted : Bool → Metric → List Action
counted metered m = if metered then count m ∷ [] else []

unfoldable pub pick_region : ProxyNode → Text
pick_region node =
    if not (is_empty node.detected_region) then node.detected_region else node.expected_region

unfoldable pub safe_content_length : ℤ → ℤ
safe_content_length n = if ltb_ℤ n (pos 0) then pos 0 else n

-- `decode` is base64.StdEncoding.
unfoldable pub parse_basic_auth : (Text → Option Text) → Text → Option (Text × Text)
parse_basic_auth decode header = do
  skip_if (not (has_prefix header (lit "Basic ")))
  decoded ← decode (trim_prefix header (lit "Basic "))
  cut decoded (lit ":")

unfoldable pub write_proxy_access_error : Error → Action
write_proxy_access_error quota_exceeded = http_error 403 quota_exceeded
write_proxy_access_error user_disabled = http_error 403 user_disabled
write_proxy_access_error user_expired = http_error 403 user_expired
write_proxy_access_error concurrency_exceeded = http_error 429 concurrency_exceeded
write_proxy_access_error e = challenge 407 e

unfoldable pub is_auth_failure : Error → Bool
is_auth_failure quota_exceeded = false
is_auth_failure user_disabled = false
is_auth_failure user_expired = false
is_auth_failure concurrency_exceeded = false
is_auth_failure e = true

unfoldable pub refused : Bool → Error → List Action
unfolding counted is_auth_failure write_proxy_access_error
refused metered e =
    (if is_auth_failure e then counted metered proxy_auth_failures else [])
    ++ write_proxy_access_error e ∷ []

module _ (r : Redis) where
  open r use {State}

  abbrev pub acquired : User → Filters → Err × State → Result (User × Filters) × State
  acquired user f (none, s) = (ok (user, f), s)
  acquired user f (some e, s) = (err e, s)

  abbrev pub found : Filters → Result User → State → Result (User × Filters) × State
  found f (err e) s = (err e, s)
  found f (ok user) s = acquired user f (acquire r user s)

  abbrev pub with_credentials :
      (Text → Text → State → Result User)
      → Option (Text × Text)
      → State
      → Result (User × Filters) × State
  with_credentials check none s = (err missing_auth, s)
  with_credentials check (some (uid, password)) s =
      let parsed = parse_username uid in found parsed.1 (check parsed.0 password s) s

  -- `check` is `quota.Service.Authenticate`.
  unfoldable pub authenticate :
      (Text → Option Text)
      → (Text → Text → State → Result User)
      → Request
      → State
      → Result (User × Filters) × State
  unfolding parse_basic_auth
  authenticate decode check req s =
      with_credentials check (parse_basic_auth decode req.proxy_authorization) s

  abbrev pub Handler : Type 0
  Handler = User → Filters → Request → State → List Action × State

  -- The deferred `g.quota.Release`.
  unfoldable pub released : Text → List Action × State → List Action × State
  released uid (actions, s) = (actions ++ release_slot uid ∷ [], release r uid s)

  abbrev pub guarded_from :
      Bool → Metric → Handler → Request → Result (User × Filters) × State → List Action × State
  guarded_from metered m serve req (err e, s) = (refused metered e, s)
  guarded_from metered m serve req (ok (user, f), s) =
      let (actions, t) = released user.uid (serve user f req s) in (counted metered m ++ actions, t)

  -- The beginning and the end that both handlers share: `authenticate`, the metric of the handler and
  -- the deferred `Release`, around the part that serves the request.
  unfoldable pub guarded :
      (Text → Option Text)
      → (Text → Text → State → Result User)
      → Bool
      → Metric
      → Handler
      → Request
      → State
      → List Action × State
  unfolding released refused
  guarded decode check metered m serve req s =
      guarded_from metered m serve req (authenticate decode check req s)
