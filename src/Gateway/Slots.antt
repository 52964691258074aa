-- ===== src/Gateway/Slots.antt =====
-- The counter of a user's connections over a whole request, from `authenticate` to the deferred
-- `Release`, with no other request in between.
use mathlib.Core.Path.{subst}
use proxydeck.Prelude.{
  ◌≡◌, refl, ap, ◌∙◌, inl, inr, Bool, Bool-cases, [], ◌∷◌, Option, none, some, arith, if◌then◌else◌,
}
use proxydeck.Prelude.Int.{ℤ, pos, negsuc, ◌+ℤ◌, ◌-ℤ◌, ◌≤ℤ◌, leb_ℤ}
use proxydeck.Errors.{Result, ok, err}
use proxydeck.Strings.{Text, lit, equal_fold}
use proxydeck.Model.{User, ProxyNode}
use proxydeck.Redis.{Redis, Err, conn_key}
use proxydeck.Quota.{acquire}
use proxydeck.Quota.Counting.{acquire_granted, release_counts}
use proxydeck.Selector.Username.{Filters, parse_username}
use proxydeck.Gateway.{
  proxy_requests, proxy_connect_requests, Metric, Request, TrafficRecord, Handler, authenticate,
  with_credentials, found, acquired, parse_basic_auth, guarded, guarded_from, released,
}
use proxydeck.Gateway.Http as Http
use proxydeck.Gateway.Connect as Connect
use proxydeck.Gateway.Keeps.{http_picked, connect_picked}

given_back :
    (a : ℤ) → pos 0 ≤ℤ a → (if leb_ℤ (a +ℤ pos 1) (pos 1) then pos 0 else (a +ℤ pos 1) -ℤ pos 1) ≡ a
unfolding ◌+ℤ◌ ◌-ℤ◌
given_back (pos n) h = ground arith
given_back (negsuc n) h = ground arith

-- What `authenticate` admits, `Acquire` has granted.
module _ (r : Redis) where
  open r use {State, counter}

  acquired-granted :
      (user : User) (f : Filters) (p : Err × State) (who : User) (g : Filters) (t : State)
      → acquired r user f p ≡ (ok (who, g), t)
      → (user ≡ who) × (p ≡ (none, t))
  acquired-granted user f (some e, s) who g t h = cc
  acquired-granted user f (none, s) who g t h =
      let h' : ◌≡◌ {A = Result (User × Filters) × State} (ok (user, f), s) (ok (who, g), t) = h in
      (cc, rw (ap (λ (q : Result (User × Filters) × State). q.1) h') refl)

  found-granted :
      (f : Filters) (res : Result User) (s : State) (who : User) (g : Filters) (t : State)
      → found r f res s ≡ (ok (who, g), t)
      → acquire r who s ≡ (none, t)
  found-granted f (err e) s who g t h = cc
  found-granted f (ok user) s who g t h =
      let (same, e) = acquired-granted user f (acquire r user s) who g t h in
      subst (λ u. acquire r u s ≡ (none, t)) same e

  credentials-granted :
      (check : Text → Text → State → Result User) (c : Option (Text × Text)) (s : State)
      (who : User) (g : Filters) (t : State)
      → with_credentials r check c s ≡ (ok (who, g), t)
      → acquire r who s ≡ (none, t)
  credentials-granted check none s who g t h = cc
  credentials-granted check (some (uid, password)) s who g t h =
      found-granted (parse_username uid).1 (check (parse_username uid).0 password s) s who g t h

  -- What a user's counter comes to over a request that was admitted, where the commands on it succeed
  -- and what is served leaves it alone.
  restored :
      (metered : Bool) (m : Metric) (serve : Handler r) (req : Request) (user : User) (f : Filters)
      (s t : State)
      → acquire r user s ≡ (none, t)
      → counter (serve user f req t).1 (conn_key user.uid) ≡ counter t (conn_key user.uid)
      → pos 0 ≤ℤ counter s (conn_key user.uid)
      → ((j : Text) (u : State) → r.get j u ≡ ok (counter u j))
      → ((j : Text) (u : State) → (r.del (j ∷ []) u).0 ≡ none)
      → ((j : Text) (u : State) → (r.decr j u).0 ≡ none)
      → counter (guarded_from r metered m serve req (ok (user, f), t)).1 (conn_key user.uid)
        ≡ counter s (conn_key user.uid)
  unfolding released
  restored metered m serve req user f s t a kept start gets dels decrs =
      let key = conn_key user.uid in
      let u = (serve user f req t).1 in
      let up : counter u key ≡ counter s key +ℤ pos 1 = kept ∙ (acquire_granted r user s t a).0 in
      let down = (release_counts r user.uid u (counter u key) (gets key u) dels decrs).0 in
      down
      ∙ (ap (λ n. if leb_ℤ n (pos 1) then pos 0 else n -ℤ pos 1) up
          ∙ given_back (counter s key) start)

  authenticate-granted :
      (decode : Text → Option Text) (check : Text → Text → State → Result User) (req : Request)
      (s t : State) (who : User) (g : Filters)
      → authenticate r decode check req s ≡ (ok (who, g), t)
      → acquire r who s ≡ (none, t)
  unfolding authenticate
  authenticate-granted decode check req s t who g h =
      credentials-granted check (parse_basic_auth decode req.proxy_authorization) s who g t h

  -- A request that is admitted leaves the count of its user's connections as it found it, on every
  -- path that it can take, where the commands on that count succeed, the count was not negative, and
  -- `Pick` and `RecordTraffic` leave the user's connection key alone.
  pub handle_restores :
      (metered : Bool) (http : Http.HttpPeers) (tunnel : Connect.TunnelPeers)
      (record_in : TrafficRecord → State → State) (decode : Text → Option Text)
      (check : Text → Text → State → Result User)
      (pick : Text → Filters → State → Result ProxyNode × State) (req : Request) (user : User)
      (f : Filters) (s t : State)
      → authenticate r decode check req s ≡ (ok (user, f), t)
      → ((e : TrafficRecord) (u : State)
          → counter (record_in e u) (conn_key user.uid) ≡ counter u (conn_key user.uid))
      → ((u : State)
          → counter (pick user.uid f u).1 (conn_key user.uid) ≡ counter u (conn_key user.uid))
      → pos 0 ≤ℤ counter s (conn_key user.uid)
      → ((j : Text) (u : State) → r.get j u ≡ ok (counter u j))
      → ((j : Text) (u : State) → (r.del (j ∷ []) u).0 ≡ none)
      → ((j : Text) (u : State) → (r.decr j u).0 ≡ none)
      → counter
          (Connect.handle r metered tunnel record_in http decode check pick req s).1
          (conn_key user.uid)
        ≡ counter s (conn_key user.uid)
  unfolding Connect.handle Http.handle_http Connect.handle_connect guarded Http.serve_http
      Connect.serve_connect
  handle_restores metered http tunnel record_in decode check pick req user f s t a records picks
        start gets dels decrs =
      let granted = authenticate-granted decode check req s t user f a in
      let key = conn_key user.uid in
      elim (Bool-cases (equal_fold req.method (lit "CONNECT"))) [
        | inl c ↦
            rw (c, a)
              (restored metered proxy_connect_requests
                (Connect.serve_connect r metered tunnel record_in pick) req user f s t granted
                (connect_picked r record_in metered key records tunnel user req (pick user.uid f t)
                  ∙ picks t)
                start gets dels decrs)
        | inr c ↦
            rw (c, a)
              (restored metered proxy_requests (Http.serve_http r metered http record_in pick) req
                user f s t granted
                (http_picked r record_in metered key records http user req (pick user.uid f t)
                  ∙ picks t)
                start gets dels decrs)
      ]
