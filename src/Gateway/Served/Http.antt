-- ===== src/Gateway/Served/Http.antt =====
-- Every path of `handleHTTP` behind the authentication.
use proxydeck.Prelude.{ℕ, refl, inl, inr, Bool, Bool-cases, [], ◌∷◌, none, some}
use proxydeck.Prelude.Int.{ℤ}
use proxydeck.Errors.{Result, ok, err}
use proxydeck.Strings.{Text}
use proxydeck.Model.{User, ProxyNode}
use proxydeck.Redis.{Redis, Err}
use proxydeck.Selector.Username.{Filters}
use proxydeck.Upstream.{is_target_dial_protocol}
use proxydeck.Gateway.{Request, TrafficRecord, open_peer, close_peer, send_origin, send_proxy}
use proxydeck.Gateway.Http as Http
use proxydeck.Gateway.Served.{
  Served, upstream_failed-Served, selection_failed-Served, around-Served,
}

module _ (r : Redis) (metered : Bool) (peers : Http.HttpPeers)
    (record_in : TrafficRecord → r.State → r.State) where
  open r use {State}

  answered-Served :
      (user : User) (node : ProxyNode) (req : Request) (res : Result (ℕ × ℤ)) (s : State)
      → Served user.uid (Http.answered r metered peers record_in user node req res s).0
  unfolding Http.traffic
  answered-Served user node req (err e) s = upstream_failed-Served metered user.uid 502 e
  answered-Served user node req (ok (status, written)) s =
      ((refl, refl, refl), refl, inr (_, refl, refl, refl))

  sent-Served :
      (user : User) (node : ProxyNode) (req clone : Request) (e : Err) (s : State)
      → Served user.uid (Http.sent r metered peers record_in user node req clone e s).0
  sent-Served user node req clone (some e) s = upstream_failed-Served metered user.uid 502 e
  sent-Served user node req clone none s =
      answered-Served user node req (peers.read_response clone) s

  to_target-Served :
      (user : User) (node : ProxyNode) (req : Request) (e : Err) (s : State)
      → Served user.uid (Http.to_target r metered peers record_in user node req e s).0
  unfolding Http.on_peer
  to_target-Served user node req (some e) s = upstream_failed-Served metered user.uid 502 e
  to_target-Served user node req none s =
      around-Served user.uid (open_peer ∷ send_origin (Http.stripped req) ∷ []) _ (close_peer ∷ [])
        refl refl refl (refl, refl) (refl, refl) (sent-Served user node req _ _ s)

  to_upstream-Served :
      (user : User) (node : ProxyNode) (req : Request) (e : Err) (s : State)
      → Served user.uid (Http.to_upstream r metered peers record_in user node req e s).0
  unfolding Http.on_peer
  to_upstream-Served user node req (some e) s = upstream_failed-Served metered user.uid 502 e
  to_upstream-Served user node req none s =
      around-Served user.uid
        (open_peer
          ∷ send_proxy (Http.authorized (peers.proxy_authorization node) (Http.stripped req))
          ∷ [])
        _ (close_peer ∷ []) refl refl refl (refl, refl) (refl, refl)
        (sent-Served user node req _ _ s)

  picked-Served :
      (user : User) (req : Request) (p : Result ProxyNode × State)
      → Served user.uid (Http.picked r metered peers record_in user req p).0
  picked-Served user req (err e, s) = selection_failed-Served metered user.uid 502 e
  picked-Served user req (ok node, s) = elim (Bool-cases (is_target_dial_protocol node.protocol)) [
    | inl t ↦ rw t (to_target-Served user node req _ s)
    | inr t ↦ rw t (to_upstream-Served user node req _ s)
  ]

  pub serve_http-Served :
      (pick : Text → Filters → State → Result ProxyNode × State) (user : User) (f : Filters)
      (req : Request) (s : State)
      → Served user.uid (Http.serve_http r metered peers record_in pick user f req s).0
  unfolding Http.serve_http
  serve_http-Served pick user f req s = picked-Served user req _
