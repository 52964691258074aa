-- ===== src/Gateway/Keeps.antt =====
-- Behind the authentication, only `Pick` and `RecordTraffic` touch Redis: a counter that they leave
-- alone is left alone.
use proxydeck.Prelude.{ℕ, ◌≡◌, refl, inl, inr, Bool, Bool-cases, none, some}
use proxydeck.Prelude.Int.{ℤ}
use proxydeck.Errors.{Result, ok, err}
use proxydeck.Strings.{Text}
use proxydeck.Model.{User, ProxyNode}
use proxydeck.Redis.{Redis, Err}
use proxydeck.Upstream.{is_target_dial_protocol}
use proxydeck.Gateway.{Request, TrafficRecord}
use proxydeck.Gateway.Http as Http
use proxydeck.Gateway.Connect as Connect

module _ (r : Redis) (record_in : TrafficRecord → r.State → r.State) (metered : Bool) (k : Text)
    (keeps : (e : TrafficRecord) (s : r.State) → r.counter (record_in e s) k ≡ r.counter s k) where
  open r use {State, counter}

  module _ (peers : Http.HttpPeers) where
    http_answered :
        (user : User) (node : ProxyNode) (req : Request) (res : Result (ℕ × ℤ)) (s : State)
        → counter (Http.answered r metered peers record_in user node req res s).1 k ≡ counter s k
    http_answered user node req (err e) s = refl
    http_answered user node req (ok (status, written)) s = keeps _ s

    http_sent :
        (user : User) (node : ProxyNode) (req clone : Request) (e : Err) (s : State)
        → counter (Http.sent r metered peers record_in user node req clone e s).1 k ≡ counter s k
    http_sent user node req clone (some e) s = refl
    http_sent user node req clone none s = http_answered user node req (peers.read_response clone) s

    http_target :
        (user : User) (node : ProxyNode) (req : Request) (e : Err) (s : State)
        → counter (Http.to_target r metered peers record_in user node req e s).1 k ≡ counter s k
    unfolding Http.on_peer
    http_target user node req (some e) s = refl
    http_target user node req none s =
        http_sent user node req (Http.stripped req) (peers.write_origin (Http.stripped req)) s

    http_upstream :
        (user : User) (node : ProxyNode) (req : Request) (e : Err) (s : State)
        → counter (Http.to_upstream r metered peers record_in user node req e s).1 k ≡ counter s k
    unfolding Http.on_peer
    http_upstream user node req (some e) s = refl
    http_upstream user node req none s =
        let clone = Http.authorized (peers.proxy_authorization node) (Http.stripped req) in
        http_sent user node req clone (peers.write_proxy clone) s

    pub http_picked :
        (user : User) (req : Request) (p : Result ProxyNode × State)
        → counter (Http.picked r metered peers record_in user req p).1 k ≡ counter p.1 k
    http_picked user req (err e, s) = refl
    http_picked user req (ok node, s) = elim (Bool-cases (is_target_dial_protocol node.protocol)) [
      | inl t ↦ rw t (http_target user node req _ s)
      | inr t ↦ rw t (http_upstream user node req _ s)
    ]

  module _ (peers : Connect.TunnelPeers) where
    connect_tunnel :
        (user : User) (node : ProxyNode) (s : State)
        → counter (Connect.tunnel r metered peers record_in user node s).1 k ≡ counter s k
    unfolding Connect.tunnel
    connect_tunnel user node s = keeps _ s

    connect_target :
        (user : User) (node : ProxyNode) (e : Err) (s : State)
        → counter (Connect.to_target r metered peers record_in user node e s).1 k ≡ counter s k
    connect_target user node (some e) s = refl
    connect_target user node none s = connect_tunnel user node s

    connect_established :
        (user : User) (node : ProxyNode) (e : Err) (s : State)
        → counter (Connect.established r metered peers record_in user node e s).1 k ≡ counter s k
    connect_established user node (some e) s = refl
    connect_established user node none s = connect_tunnel user node s

    connect_upstream :
        (user : User) (node : ProxyNode) (req : Request) (e : Err) (s : State)
        → counter (Connect.to_upstream r metered peers record_in user node req e s).1 k
          ≡ counter s k
    connect_upstream user node req (some e) s = refl
    connect_upstream user node req none s = connect_established user node _ s

    connect_hijacked :
        (user : User) (node : ProxyNode) (req : Request) (e : Err) (s : State)
        → counter (Connect.hijacked r metered peers record_in user node req e s).1 k ≡ counter s k
    unfolding Connect.on_client
    connect_hijacked user node req (some e) s = refl
    connect_hijacked user node req none s =
        elim (Bool-cases (is_target_dial_protocol node.protocol)) [
          | inl t ↦ rw t (connect_target user node _ s)
          | inr t ↦ rw t (connect_upstream user node req _ s)
        ]

    pub connect_picked :
        (user : User) (req : Request) (p : Result ProxyNode × State)
        → counter (Connect.picked r metered peers record_in user req p).1 k ≡ counter p.1 k
    connect_picked user req (err e, s) = refl
    connect_picked user req (ok node, s) = connect_hijacked user node req peers.hijack s
