-- ===== src/Gateway/Forward.antt =====
-- What `handleHTTP` sends on of a request.
use proxydeck.Prelude.{
  ◌≡◌, refl, ◌⊎◌, inl, inr, Bool, true, false, Bool-cases, List, [], ◌∷◌, ◌++◌, Option, none, some,
  append-nil, All, ℕ,
}
use mathlib.Core.Path.{subst}
use proxydeck.Prelude.{sym, ◌∙◌}
use proxydeck.Prelude.Int.{ℤ}
use proxydeck.Errors.{
  Error, Result, ok, err, user_disabled, user_expired, quota_exceeded, concurrency_exceeded,
  no_healthy_node, record_not_found, missing_auth, message, foreign,
}
use proxydeck.Strings.{Text, is_empty}
use proxydeck.Model.{User, ProxyNode}
use proxydeck.Redis.{Redis, Err}
use proxydeck.Selector.Username.{Filters}
use proxydeck.Upstream.{is_target_dial_protocol}
use proxydeck.Gateway.{
  Action, Metric, Request, TrafficRecord, http_error, counted, refused, guarded, guarded_from,
  released, authenticate, is_auth_failure, write_proxy_access_error, challenge, close_peer,
  release_slot, proxy_requests, proxy_upstream_failures, proxy_selection_failures,
  proxy_auth_failures,
}
use proxydeck.Gateway.Http.{
  HttpPeers, stripped, authorized, answered, sent, on_peer, to_target, to_upstream, picked,
  serve_http, handle_http,
}
use proxydeck.Gateway.Trace.{forwarded, collect, collect-append}

-- The request without the client's credentials, or with those of an upstream in their place.
abbrev pub IsForwardOf : HttpPeers → Request → Request → Type 0
IsForwardOf peers req q =
    (q ≡ record req { proxy_authorization = [] })
    ⊎ ((node : ProxyNode) × (header : Text) × (peers.proxy_authorization node ≡ ok header)
        × (q ≡ record req { proxy_authorization = header }))

authorized-IsForwardOf :
    (peers : HttpPeers) (node : ProxyNode) (req : Request) (res : Result Text)
    → peers.proxy_authorization node ≡ res
    → IsForwardOf peers req (authorized res (stripped req))
unfolding authorized stripped
authorized-IsForwardOf peers node req (err e) h = inl refl
authorized-IsForwardOf peers node req (ok header) h = elim (Bool-cases (is_empty header)) [
  | inl e ↦ rw e (inl refl)
  | inr e ↦ rw e (inr (node, header, h, refl))
]

abbrev pub Clean : HttpPeers → Request → List Action → Type 0
Clean peers req acts = All (IsForwardOf peers req) (collect forwarded acts)

silent-Clean :
    (peers : HttpPeers) (req : Request) (acts : List Action)
    → collect forwarded acts ≡ []
    → Clean peers req acts
silent-Clean peers req acts h = subst (All (IsForwardOf peers req)) (sym h) tt

counted-silent :
    (metered : Bool) (m : Metric) (n : ℕ) (e : Error)
    → collect forwarded (counted metered m ++ http_error n e ∷ []) ≡ []
unfolding counted
counted-silent true m n e = refl
counted-silent false m n e = refl

-- Other actions before and after forward nothing.
framed-Clean :
    (peers : HttpPeers) (req : Request) (metered : Bool) (m : Metric) (uid : Text)
    (acts : List Action)
    → Clean peers req acts
    → Clean peers req (counted metered m ++ (acts ++ release_slot uid ∷ []))
unfolding counted
framed-Clean peers req true m uid acts h =
    subst (All (IsForwardOf peers req))
      (sym (
        collect-append forwarded acts (release_slot uid ∷ [])
        ∙ append-nil (collect forwarded acts)))
      h
framed-Clean peers req false m uid acts h =
    subst (All (IsForwardOf peers req))
      (sym (
        collect-append forwarded acts (release_slot uid ∷ [])
        ∙ append-nil (collect forwarded acts)))
      h

challenged-silent :
    (metered : Bool) (e : Error)
    → collect forwarded (counted metered proxy_auth_failures ++ challenge 407 e ∷ []) ≡ []
unfolding counted
challenged-silent true e = refl
challenged-silent false e = refl

refused-silent : (metered : Bool) (e : Error) → collect forwarded (refused metered e) ≡ []
unfolding refused is_auth_failure write_proxy_access_error
refused-silent metered quota_exceeded = refl
refused-silent metered user_disabled = refl
refused-silent metered user_expired = refl
refused-silent metered concurrency_exceeded = refl
refused-silent metered no_healthy_node = challenged-silent metered no_healthy_node
refused-silent metered record_not_found = challenged-silent metered record_not_found
refused-silent metered missing_auth = challenged-silent metered missing_auth
refused-silent metered (message t) = challenged-silent metered (message t)
refused-silent metered (foreign t) = challenged-silent metered (foreign t)

module _ (r : Redis) (metered : Bool) (peers : HttpPeers)
    (record_in : TrafficRecord → r.State → r.State) where
  open r use {State}

  answered-silent :
      (user : User) (node : ProxyNode) (req : Request) (res : Result (ℕ × ℤ)) (s : State)
      → collect forwarded (answered r metered peers record_in user node req res s).0 ≡ []
  answered-silent user node req (err e) s = counted-silent metered proxy_upstream_failures 502 e
  answered-silent user node req (ok (status, written)) s = refl

  sent-silent :
      (user : User) (node : ProxyNode) (req clone : Request) (e : Err) (s : State)
      → collect forwarded (sent r metered peers record_in user node req clone e s).0 ≡ []
  sent-silent user node req clone (some e) s = counted-silent metered proxy_upstream_failures 502 e
  sent-silent user node req clone none s =
      answered-silent user node req (peers.read_response clone) s

  closed-Clean :
      (user : User) (node : ProxyNode) (req clone : Request) (e : Err) (s : State)
      → Clean peers req
          ((sent r metered peers record_in user node req clone e s).0 ++ close_peer ∷ [])
  closed-Clean user node req clone e s =
      let acts = (sent r metered peers record_in user node req clone e s).0 in
      silent-Clean peers req (acts ++ close_peer ∷ []) (
        collect-append forwarded acts (close_peer ∷ [])
        ∙ rw (sent-silent user node req clone e s) refl)

  failed-Clean :
      (req : Request) (m : Metric) (e : Error)
      → Clean peers req (counted metered m ++ http_error 502 e ∷ [])
  failed-Clean req m e =
      silent-Clean peers req (counted metered m ++ http_error 502 e ∷ [])
        (counted-silent metered m 502 e)

  to_target-Clean :
      (user : User) (node : ProxyNode) (req : Request) (e : Err) (s : State)
      → Clean peers req (to_target r metered peers record_in user node req e s).0
  unfolding on_peer stripped
  to_target-Clean user node req (some e) s = failed-Clean req proxy_upstream_failures e
  to_target-Clean user node req none s =
      (inl refl, closed-Clean user node req (stripped req) (peers.write_origin (stripped req)) s)

  to_upstream-Clean :
      (user : User) (node : ProxyNode) (req : Request) (e : Err) (s : State)
      → Clean peers req (to_upstream r metered peers record_in user node req e s).0
  unfolding on_peer
  to_upstream-Clean user node req (some e) s = failed-Clean req proxy_upstream_failures e
  to_upstream-Clean user node req none s =
      let clone = authorized (peers.proxy_authorization node) (stripped req) in
      (
        authorized-IsForwardOf peers node req (peers.proxy_authorization node) refl,
        closed-Clean user node req clone (peers.write_proxy clone) s,
      )

  picked-Clean :
      (user : User) (req : Request) (p : Result ProxyNode × State)
      → Clean peers req (picked r metered peers record_in user req p).0
  picked-Clean user req (err e, s) = failed-Clean req proxy_selection_failures e
  picked-Clean user req (ok node, s) = elim (Bool-cases (is_target_dial_protocol node.protocol)) [
    | inl t ↦ rw t (to_target-Clean user node req _ s)
    | inr t ↦ rw t (to_upstream-Clean user node req _ s)
  ]

  guarded_from-Clean :
      (pick : Text → Filters → State → Result ProxyNode × State) (req : Request)
      (p : Result (User × Filters) × State)
      → Clean peers req
          (guarded_from r metered proxy_requests
            (serve_http r metered peers record_in pick)
            req
            p).0
  unfolding released serve_http
  guarded_from-Clean pick req (err e, s) =
      silent-Clean peers req (refused metered e) (refused-silent metered e)
  guarded_from-Clean pick req (ok (user, f), s) =
      framed-Clean peers req metered proxy_requests user.uid
        (serve_http r metered peers record_in pick user f req s).0
        (picked-Clean user req (pick user.uid f s))

  -- Whatever `handleHTTP` sends on, to a target or to an upstream proxy, is the client's request
  -- without its credentials for this proxy: their header is gone, or holds those that
  -- `ProxyAuthorization` gives for a node. Nothing else of the request changes.
  pub handle_http-Clean :
      (decode : Text → Option Text) (check : Text → Text → State → Result User)
      (pick : Text → Filters → State → Result ProxyNode × State) (req : Request) (s : State)
      → Clean peers req (handle_http r metered peers record_in decode check pick req s).0
  unfolding handle_http guarded
  handle_http-Clean decode check pick req s =
      guarded_from-Clean pick req (authenticate r decode check req s)
