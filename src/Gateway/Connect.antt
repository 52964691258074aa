-- ===== src/Gateway/Connect.antt =====
-- `handleConnect` of proxy/gateway.go.
use proxydeck.Prelude.{Bool, List, [], ◌∷◌, ◌++◌, Option, none, some, if◌then◌else◌}
use proxydeck.Prelude.Int.{ℤ}
use proxydeck.Errors.{Result, ok, err}
use proxydeck.Strings.{Text, lit, equal_fold}
use proxydeck.Model.{User, ProxyNode}
use proxydeck.Redis.{Redis, Err}
use proxydeck.Selector.Username.{Filters}
use proxydeck.Upstream.{is_target_dial_protocol}
use proxydeck.Gateway.{
  Action, Request, TrafficRecord, counted, http_error, write_client, open_peer, close_peer,
  close_client, copy_streams, record_traffic, guarded, proxy_connect_requests,
  proxy_selection_failures, proxy_upstream_failures, active_tunnels_inc, active_tunnels_dec,
}
use proxydeck.Gateway.Http.{HttpPeers, handle_http, traffic}

-- What the connections of a tunnel answer.
pub record TunnelPeers : Type 0 where
  pub hijack : Err
  -- `upstream.DialTarget` to an address, and `dialUpstream`
  pub dial_target : ProxyNode → Text → Err
  pub dial_upstream : ProxyNode → Err
  -- `establishTunnel` to an address
  pub establish_tunnel : ProxyNode → Text → Err
  -- the counts of bytes that the two goroutines move
  pub copied_up : ℤ
  pub copied_down : ℤ

module _ (r : Redis) (metered : Bool) (peers : TunnelPeers)
    (record_in : TrafficRecord → r.State → r.State) where
  open r use {State}

  abbrev pub bad_gateway : List Action
  bad_gateway =
      counted metered proxy_upstream_failures
      ++ write_client (lit "HTTP/1.1 502 Bad Gateway\r\n\r\n") ∷ []

  -- The goroutines close the target's side.
  unfoldable pub tunnel : User → ProxyNode → State → List Action × State
  unfolding traffic
  tunnel user node s =
      let entry = traffic user node peers.copied_up peers.copied_down in
      (
        counted metered active_tunnels_inc
            ++ (write_client (lit "HTTP/1.1 200 Connection Established\r\n\r\n")
                ∷ copy_streams
                ∷ close_peer
                ∷ record_traffic entry
                ∷ counted metered active_tunnels_dec),
        record_in entry s,
      )

  abbrev pub to_target : User → ProxyNode → Err → State → List Action × State
  to_target user node (some e) s = (bad_gateway, s)
  to_target user node none s = let (actions, t) = tunnel user node s in (open_peer ∷ actions, t)

  abbrev pub established : User → ProxyNode → Err → State → List Action × State
  established user node (some e) s = (bad_gateway ++ close_peer ∷ [], s)
  established user node none s = tunnel user node s

  abbrev pub to_upstream : User → ProxyNode → Request → Err → State → List Action × State
  to_upstream user node req (some e) s = (bad_gateway, s)
  to_upstream user node req none s =
      let (actions, t) = established user node (peers.establish_tunnel node req.host) s in
      (open_peer ∷ actions, t)

  -- The deferred `clientConn.Close`.
  unfoldable pub on_client : List Action × State → List Action × State
  on_client (actions, s) = (actions ++ close_client ∷ [], s)

  abbrev pub hijacked : User → ProxyNode → Request → Err → State → List Action × State
  hijacked user node req (some e) s = (http_error 500 e ∷ [], s)
  hijacked user node req none s = on_client (
      if is_target_dial_protocol node.protocol
      then to_target user node (peers.dial_target node req.host) s
      else to_upstream user node req (peers.dial_upstream node) s)

  abbrev pub picked : User → Request → Result ProxyNode × State → List Action × State
  picked user req (err e, s) =
      (counted metered proxy_selection_failures ++ http_error 502 e ∷ [], s)
  picked user req (ok node, s) = hijacked user node req peers.hijack s

  -- Behind `authenticate`; `pick` is `selector.Service.Pick`.
  unfoldable pub serve_connect :
      (Text → Filters → State → Result ProxyNode × State)
      → User
      → Filters
      → Request
      → State
      → List Action × State
  unfolding tunnel on_client
  serve_connect pick user f req s = picked user req (pick user.uid f s)

  unfoldable pub handle_connect :
      (Text → Option Text)
      → (Text → Text → State → Result User)
      → (Text → Filters → State → Result ProxyNode × State)
      → Request
      → State
      → List Action × State
  unfolding serve_connect
  handle_connect decode check pick req s =
      guarded r decode check metered proxy_connect_requests (serve_connect pick) req s

  -- `Handler`: the method decides, in any case of its letters.
  unfoldable pub handle :
      HttpPeers
      → (Text → Option Text)
      → (Text → Text → State → Result User)
      → (Text → Filters → State → Result ProxyNode × State)
      → Request
      → State
      → List Action × State
  unfolding handle_connect
  handle http decode check pick req s =
      if equal_fold req.method (lit "CONNECT")
      then handle_connect decode check pick req s
      else handle_http r metered http record_in decode check pick req s
