-- ===== src/Gateway/Served/Connect.antt =====
-- Every path of `handleConnect` behind the authentication.
use proxydeck.Prelude.{refl, inl, inr, Bool, Bool-cases, [], ◌∷◌, none, some}
use proxydeck.Errors.{Result, ok, err}
use proxydeck.Strings.{Text}
use proxydeck.Model.{User, ProxyNode}
use proxydeck.Redis.{Redis, Err}
use proxydeck.Selector.Username.{Filters}
use proxydeck.Upstream.{is_target_dial_protocol}
use proxydeck.Gateway.{Request, TrafficRecord, open_peer, close_peer, close_client, counted}
use proxydeck.Gateway.Http as Http
use proxydeck.Gateway.Connect as Connect
use proxydeck.Gateway.Served.{Served, selection_failed-Served, around-Served}

module _ (r : Redis) (metered : Bool) (peers : Connect.TunnelPeers)
    (record_in : TrafficRecord → r.State → r.State) where
  open r use {State}

  tunnel-Served :
      (user : User) (node : ProxyNode) (s : State)
      → Served user.uid (open_peer ∷ (Connect.tunnel r metered peers record_in user node s).0)
  unfolding Connect.tunnel counted Http.traffic
  tunnel-Served user node s = elim (Bool-cases metered) [
    | inl m ↦ rw m ((refl, refl, refl), refl, inr (_, refl, refl, refl))
    | inr m ↦ rw m ((refl, refl, refl), refl, inr (_, refl, refl, refl))
  ]

  bad_gateway-Served : (uid : Text) → Served uid (Connect.bad_gateway r metered peers record_in)
  unfolding counted
  bad_gateway-Served uid = elim (Bool-cases metered) [
    | inl m ↦ rw m ((refl, refl, refl), refl, inl refl)
    | inr m ↦ rw m ((refl, refl, refl), refl, inl refl)
  ]

  to_target-Served :
      (user : User) (node : ProxyNode) (e : Err) (s : State)
      → Served user.uid (Connect.to_target r metered peers record_in user node e s).0
  to_target-Served user node (some e) s = bad_gateway-Served user.uid
  to_target-Served user node none s = tunnel-Served user node s

  established-Served :
      (user : User) (node : ProxyNode) (e : Err) (s : State)
      → Served user.uid
          (open_peer ∷ (Connect.established r metered peers record_in user node e s).0)
  established-Served user node (some e) s =
      around-Served user.uid (open_peer ∷ []) _ (close_peer ∷ []) refl refl refl (refl, refl)
        (refl, refl) (bad_gateway-Served user.uid)
  established-Served user node none s = tunnel-Served user node s

  to_upstream-Served :
      (user : User) (node : ProxyNode) (req : Request) (e : Err) (s : State)
      → Served user.uid (Connect.to_upstream r metered peers record_in user node req e s).0
  to_upstream-Served user node req (some e) s = bad_gateway-Served user.uid
  to_upstream-Served user node req none s =
      established-Served user node (peers.establish_tunnel node req.host) s

  hijacked-Served :
      (user : User) (node : ProxyNode) (req : Request) (e : Err) (s : State)
      → Served user.uid (Connect.hijacked r metered peers record_in user node req e s).0
  unfolding Connect.on_client
  hijacked-Served user node req (some e) s = ((refl, refl, refl), refl, inl refl)
  hijacked-Served user node req none s =
      around-Served user.uid [] _ (close_client ∷ []) refl refl refl (refl, refl) (refl, refl)
        (elim (Bool-cases (is_target_dial_protocol node.protocol)) [
          | inl t ↦ rw t (to_target-Served user node _ s)
          | inr t ↦ rw t (to_upstream-Served user node req _ s)
        ])

  picked-Served :
      (user : User) (req : Request) (p : Result ProxyNode × State)
      → Served user.uid (Connect.picked r metered peers record_in user req p).0
  picked-Served user req (err e, s) = selection_failed-Served metered user.uid 502 e
  picked-Served user req (ok node, s) = hijacked-Served user node req peers.hijack s

  pub serve_connect-Served :
      (pick : Text → Filters → State → Result ProxyNode × State) (user : User) (f : Filters)
      (req : Request) (s : State)
      → Served user.uid (Connect.serve_connect r metered peers record_in pick user f req s).0
  unfolding Connect.serve_connect
  serve_connect-Served pick user f req s = picked-Served user req _
