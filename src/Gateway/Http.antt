-- ===== src/Gateway/Http.antt =====
-- `handleHTTP` of proxy/gateway.go.
use proxydeck.Prelude.{ℕ, Bool, List, [], ◌∷◌, ◌++◌, Option, none, some, not, if◌then◌else◌}
use proxydeck.Prelude.Int.{ℤ, pos}
use proxydeck.Errors.{Error, Result, ok, err}
use proxydeck.Strings.{Text, lit, is_empty}
use proxydeck.Strings.Split.{contains}
use proxydeck.Model.{User, ProxyNode}
use proxydeck.Redis.{Redis, Err}
use proxydeck.Selector.Username.{Filters}
use proxydeck.Upstream.{is_target_dial_protocol}
use proxydeck.Gateway.{
  Action, Request, TrafficRecord, counted, http_error, respond, open_peer, close_peer, send_origin,
  send_proxy, record_traffic, pick_region, safe_content_length, guarded, proxy_requests,
  proxy_selection_failures, proxy_upstream_failures,
}

-- What net/http and the connections answer.
pub record HttpPeers : Type 0 where
  -- `upstream.DialTarget` to an address, and `dialUpstream`
  pub dial_target : ProxyNode → Text → Err
  pub dial_upstream : ProxyNode → Err
  -- `upstream.ProxyAuthorization`
  pub proxy_authorization : ProxyNode → Result Text
  -- `writeOriginRequest` and `writeProxyRequest`
  pub write_origin : Request → Err
  pub write_proxy : Request → Err
  -- `http.ReadResponse`: the status, and the count of bytes that `io.Copy` then moves
  pub read_response : Request → Result (ℕ × ℤ)

-- The clone of the request that is sent on.
unfoldable pub stripped : Request → Request
stripped req = record req { proxy_authorization = [] }

unfoldable pub authorized : Result Text → Request → Request
authorized (err e) req = req
authorized (ok header) req =
    if not (is_empty header) then record req { proxy_authorization = header } else req

unfoldable pub target_address : Request → Text
target_address req =
    if not (contains req.url_host (lit ":")) then req.url_host ++ lit ":80" else req.url_host

unfoldable pub traffic : User → ProxyNode → ℤ → ℤ → TrafficRecord
unfolding pick_region
traffic user node upload download = record {
  uid = user.uid;
  node_id = node.id;
  region = pick_region node;
  upload = upload;
  download = download;
  requests = pos 1;
}

module _ (r : Redis) (metered : Bool) (peers : HttpPeers)
    (record_in : TrafficRecord → r.State → r.State) where
  open r use {State}

  abbrev pub upstream_failed : Error → List Action
  upstream_failed e = counted metered proxy_upstream_failures ++ http_error 502 e ∷ []

  abbrev pub answered : User → ProxyNode → Request → Result (ℕ × ℤ) → State → List Action × State
  answered user node req (err e) s = (upstream_failed e, s)
  answered user node req (ok (status, written)) s =
      let entry = traffic user node (safe_content_length req.content_length) written in
      (respond status ∷ record_traffic entry ∷ [], record_in entry s)

  abbrev pub sent : User → ProxyNode → Request → Request → Err → State → List Action × State
  sent user node req clone (some e) s = (upstream_failed e, s)
  sent user node req clone none s = answered user node req (peers.read_response clone) s

  -- A connection that is open, with its deferred `Close`, around what is done on it.
  unfoldable pub on_peer : Action → List Action × State → List Action × State
  on_peer send (actions, s) = (open_peer ∷ send ∷ (actions ++ close_peer ∷ []), s)

  abbrev pub to_target : User → ProxyNode → Request → Err → State → List Action × State
  to_target user node req (some e) s = (upstream_failed e, s)
  to_target user node req none s =
      let clone = stripped req in
      on_peer (send_origin clone) (sent user node req clone (peers.write_origin clone) s)

  abbrev pub to_upstream : User → ProxyNode → Request → Err → State → List Action × State
  to_upstream user node req (some e) s = (upstream_failed e, s)
  to_upstream user node req none s =
      let clone = authorized (peers.proxy_authorization node) (stripped req) in
      on_peer (send_proxy clone) (sent user node req clone (peers.write_proxy clone) s)

  abbrev pub picked : User → Request → Result ProxyNode × State → List Action × State
  picked user req (err e, s) =
      (counted metered proxy_selection_failures ++ http_error 502 e ∷ [], s)
  picked user req (ok node, s) =
      if is_target_dial_protocol node.protocol
      then to_target user node req (peers.dial_target node (target_address req)) s
      else to_upstream user node req (peers.dial_upstream node) s

  -- Behind `authenticate`; `pick` is `selector.Service.Pick`.
  unfoldable pub serve_http :
      (Text → Filters → State → Result ProxyNode × State)
      → User
      → Filters
      → Request
      → State
      → List Action × State
  unfolding on_peer traffic stripped authorized target_address
  serve_http pick user f req s = picked user req (pick user.uid f s)

  unfoldable pub handle_http :
      (Text → Option Text)
      → (Text → Text → State → Result User)
      → (Text → Filters → State → Result ProxyNode × State)
      → Request
      → State
      → List Action × State
  unfolding serve_http
  handle_http decode check pick req s =
      guarded r decode check metered proxy_requests (serve_http pick) req s
