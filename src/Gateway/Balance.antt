-- ===== src/Gateway/Balance.antt =====
-- What every request comes to: the gateway's answers, connections, tunnels, slots and traffic.
use mathlib.Core.Path.{subst}
use proxydeck.Prelude.{
  ◌≡◌, refl, ◌∙◌, sym, ◌⊎◌, inl, inr, Bool, true, false, Bool-cases, List, [], ◌∷◌, ◌++◌, Option,
  append-nil, arith,
}
use proxydeck.Errors.{
  Error, Result, ok, err, user_disabled, user_expired, quota_exceeded, concurrency_exceeded,
  no_healthy_node, record_not_found, missing_auth, message, foreign,
}
use proxydeck.Strings.{Text, lit, equal_fold}
use proxydeck.Model.{User, ProxyNode}
use proxydeck.Redis.{Redis}
use proxydeck.Selector.Username.{Filters}
use proxydeck.Gateway.{
  Action, Metric, Request, TrafficRecord, Handler, authenticate, guarded, guarded_from, released,
  refused, counted, release_slot, challenge, is_auth_failure, write_proxy_access_error,
  proxy_requests, proxy_connect_requests, proxy_auth_failures,
}
use proxydeck.Gateway.Http.{HttpPeers, serve_http, handle_http}
use proxydeck.Gateway.Connect.{TunnelPeers, serve_connect, handle_connect, handle}
use proxydeck.Gateway.Trace.{
  answers, opens, closes, tunnel_starts, tunnel_ends, total-append, slots, entries, collect,
  collect-append, Balanced, Accounted,
}
use proxydeck.Gateway.Served.{Served}
use proxydeck.Gateway.Served.Http.{serve_http-Served}
use proxydeck.Gateway.Served.Connect.{serve_connect-Served}

-- The trace of a request, by what its authentication comes to: a refusal gives no slot back and
-- records no traffic, an admission gives back the one slot of its user.
abbrev pub Settled : Result (User × Filters) → List Action → Type 0
Settled (err e) acts = Balanced acts × (collect slots acts ≡ []) × (collect entries acts ≡ [])
Settled (ok (user, f)) acts =
    Balanced acts × (collect slots acts ≡ user.uid ∷ []) × Accounted user.uid (collect entries acts)

challenged :
    (metered : Bool) (e d : Error)
    → Settled (err e) (counted metered proxy_auth_failures ++ challenge 407 d ∷ [])
unfolding counted
challenged true e d = ((refl, refl, refl), refl, refl)
challenged false e d = ((refl, refl, refl), refl, refl)

refused-Settled : (metered : Bool) (e : Error) → Settled (err e) (refused metered e)
unfolding refused is_auth_failure write_proxy_access_error
refused-Settled metered quota_exceeded = ((refl, refl, refl), refl, refl)
refused-Settled metered user_disabled = ((refl, refl, refl), refl, refl)
refused-Settled metered user_expired = ((refl, refl, refl), refl, refl)
refused-Settled metered concurrency_exceeded = ((refl, refl, refl), refl, refl)
refused-Settled metered no_healthy_node = challenged metered no_healthy_node no_healthy_node
refused-Settled metered record_not_found = challenged metered record_not_found record_not_found
refused-Settled metered missing_auth = challenged metered missing_auth missing_auth
refused-Settled metered (message t) = challenged metered (message t) (message t)
refused-Settled metered (foreign t) = challenged metered (foreign t) (foreign t)

finished-Settled :
    (user : User) (f : Filters) (acts : List Action)
    → Served user.uid acts
    → Settled (ok (user, f)) (acts ++ release_slot user.uid ∷ [])
finished-Settled user f acts ((a, o, t), s, e) =
    let post = release_slot user.uid ∷ [] in
    (
      (
        omega (arith, total-append answers acts post, a),
        omega (arith, total-append opens acts post, total-append closes acts post, o),
        omega (arith, total-append tunnel_starts acts post, total-append tunnel_ends acts post, t),
      ),
      collect-append slots acts post ∙ rw s refl,
      subst (Accounted user.uid)
          (sym (collect-append entries acts post ∙ append-nil (collect entries acts))) e,
    )

begun-Settled :
    (metered : Bool) (m : Metric) (user : User) (f : Filters) (acts : List Action)
    → (m ≡ proxy_requests) ⊎ (m ≡ proxy_connect_requests)
    → Settled (ok (user, f)) acts
    → Settled (ok (user, f)) (counted metered m ++ acts)
unfolding counted
begun-Settled false m user f acts h k = k
begun-Settled true m user f acts (inl h) ((a, o, t), s, e) =
    rw h ((omega (arith, a), omega (arith, o), omega (arith, t)), s, e)
begun-Settled true m user f acts (inr h) ((a, o, t), s, e) =
    rw h ((omega (arith, a), omega (arith, o), omega (arith, t)), s, e)

module _ (r : Redis) where
  open r use {State}

  guarded_from-Settled :
      (metered : Bool) (m : Metric) (serve : Handler r) (req : Request)
      (p : Result (User × Filters) × State)
      → (m ≡ proxy_requests) ⊎ (m ≡ proxy_connect_requests)
      → ((user : User) (f : Filters) (s : State) → Served user.uid (serve user f req s).0)
      → Settled p.0 (guarded_from r metered m serve req p).0
  unfolding released
  guarded_from-Settled metered m serve req (err e, s) h k = refused-Settled metered e
  guarded_from-Settled metered m serve req (ok (user, f), s) h k =
      begun-Settled metered m user f _ h (finished-Settled user f _ (k user f s))

  -- Every request, whatever the upstream, the database and Redis answer, gets exactly one answer; as
  -- many connections are closed as were opened, and as many tunnels end as start; `Release` is called
  -- for the user exactly when `authenticate` admitted the request, and once; a refused request
  -- records no traffic, and an admitted one at most one record, of one request of its user.
  pub handle-Settled :
      (metered : Bool) (http : HttpPeers) (tunnel : TunnelPeers)
      (record_in : TrafficRecord → State → State) (decode : Text → Option Text)
      (check : Text → Text → State → Result User)
      (pick : Text → Filters → State → Result ProxyNode × State) (req : Request) (s : State)
      → Settled
          (authenticate r decode check req s).0
          (handle r metered tunnel record_in http decode check pick req s).0
  unfolding handle handle_http handle_connect guarded
  handle-Settled metered http tunnel record_in decode check pick req s =
      elim (Bool-cases (equal_fold req.method (lit "CONNECT"))) [
        | inl c ↦ rw c (
            guarded_from-Settled metered proxy_connect_requests
              (serve_connect r metered tunnel record_in pick) req
              (authenticate r decode check req s) (inr refl)
              (λ user f t. serve_connect-Served r metered tunnel record_in pick user f req t))
        | inr c ↦ rw c (
            guarded_from-Settled metered proxy_requests (serve_http r metered http record_in pick)
              req (authenticate r decode check req s) (inl refl)
              (λ user f t. serve_http-Served r metered http record_in pick user f req t))
      ]
