-- ===== src/Gateway/Served.antt =====
-- What the traces of `handleHTTP` and `handleConnect` come to behind the authentication.
pub mod Http
pub mod Connect
use mathlib.Core.Path.{subst}
use proxydeck.Prelude.{
  ℕ, ◌+◌, ◌≡◌, refl, ap, ◌∙◌, sym, ◌⊎◌, inl, inr, Bool, true, false, Bool-cases, List, [], ◌∷◌,
  ◌++◌, Option, none, some, append-nil, arith, if◌then◌else◌,
}
use proxydeck.Prelude.Int.{ℤ, pos}
use proxydeck.Errors.{Error, Result, ok, err}
use proxydeck.Strings.{Text, lit}
use proxydeck.Model.{User, ProxyNode}
use proxydeck.Redis.{Redis, Err}
use proxydeck.Selector.Username.{Filters}
use proxydeck.Upstream.{is_target_dial_protocol}
use proxydeck.Gateway.{
  Action, Metric, Request, TrafficRecord, count, http_error, respond, write_client, open_peer,
  close_peer, send_origin, send_proxy, close_client, copy_streams, record_traffic, release_slot,
  counted, proxy_selection_failures, proxy_upstream_failures, active_tunnels_inc,
  active_tunnels_dec,
}
use proxydeck.Gateway.Trace.{
  answers, opens, closes, tunnel_starts, tunnel_ends, total, total-append, slots, entries, collect,
  collect-append, Balanced, Accounted,
}

-- What holds of the part of a handler behind its authentication.
abbrev pub Served : Text → List Action → Type 0
Served uid acts = Balanced acts × (collect slots acts ≡ []) × Accounted uid (collect entries acts)

pub upstream_failed-Served :
    (metered : Bool) (uid : Text) (n : ℕ) (e : Error)
    → Served uid (counted metered proxy_upstream_failures ++ http_error n e ∷ [])
unfolding counted
upstream_failed-Served true uid n e = ((refl, refl, refl), refl, inl refl)
upstream_failed-Served false uid n e = ((refl, refl, refl), refl, inl refl)

pub selection_failed-Served :
    (metered : Bool) (uid : Text) (n : ℕ) (e : Error)
    → Served uid (counted metered proxy_selection_failures ++ http_error n e ∷ [])
unfolding counted
selection_failed-Served true uid n e = ((refl, refl, refl), refl, inl refl)
selection_failed-Served false uid n e = ((refl, refl, refl), refl, inl refl)

total_around :
    (f : Action → ℕ) (pre acts post : List Action)
    → total f (pre ++ (acts ++ post)) ≡ total f acts + (total f pre + total f post)
total_around f pre acts post =
    omega (arith, total-append f pre (acts ++ post), total-append f acts post)

collect_around :
    {A : Type 0} (f : Action → List A) (pre acts post : List Action)
    → collect f pre ≡ []
    → collect f post ≡ []
    → collect f (pre ++ (acts ++ post)) ≡ collect f acts
collect_around f pre acts post h k =
    collect-append f pre (acts ++ post)
    ∙ rw (h, collect-append f acts post, k) (append-nil (collect f acts))

-- Around what is served: one more connection opened, and closed.
pub around-Served :
    (uid : Text) (pre acts post : List Action)
    → total answers pre + total answers post ≡ 0
    → total opens pre + total opens post ≡ total closes pre + total closes post
    → total tunnel_starts pre + total tunnel_starts post
      ≡ total tunnel_ends pre + total tunnel_ends post
    → (collect slots pre ≡ []) × (collect slots post ≡ [])
    → (collect entries pre ≡ []) × (collect entries post ≡ [])
    → Served uid acts
    → Served uid (pre ++ (acts ++ post))
around-Served uid pre acts post a o t (s, s') (e, e') ((ha, ho, ht), hs, he) = (
  (
    omega (arith, total_around answers pre acts post, a, ha),
    omega (arith, total_around opens pre acts post, total_around closes pre acts post, o, ho),
    omega (
      arith,
      total_around tunnel_starts pre acts post,
      total_around tunnel_ends pre acts post,
      t,
      ht,
    ),
  ),
  collect_around slots pre acts post s s' ∙ hs,
  subst (Accounted uid) (sym (collect_around entries pre acts post e e')) he,
)
