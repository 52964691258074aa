-- ===== src/Selector/Pick/Usable.antt =====
-- `Pick` of selector/service.go never returns a node that is unhealthy or disabled.
use mathlib.Core.Path.{subst}
use proxydeck.Prelude.{
  ℕ, ◌≡◌, refl, ap, true, not, ◌&&◌, ◌||◌, ◌==◌, List, [], ◌∷◌, Option, none, some, All, filter-All,
  arith, Bool-cases, inl, inr, if◌then◌else◌,
}
use proxydeck.Errors.{Result, ok, err}
use proxydeck.Strings.{Text, text_eq, is_empty}
use proxydeck.Model.{ProxyNode}
use proxydeck.Nodes.{usable, load_node}
use proxydeck.Nodes.Commands.{NodeRedis}
use proxydeck.Selector.Username.{Filters}
use proxydeck.Selector.Pick.{
  NodeTable, meets, unless_empty, load_candidates, keep_candidate, or_query, matched_or_query,
  candidates, pick, pick_anew, pick_pinned, or_pick_anew, session_key,
}
use proxydeck.Selector.Pick.Sound.{choose-All}

abbrev IsUsable : ProxyNode → Type 0
IsUsable n = usable n ≡ true

module _ (r : NodeRedis) (db : NodeTable) where
  open r use {State}

  meets-IsUsable :
      (f : Filters) (ns : List ProxyNode) → All (λ n. meets f n ≡ true) ns → All IsUsable ns
  meets-IsUsable f [] h = tt
  meets-IsUsable f (n ∷ ns) h = (ground (arith, h.0), meets-IsUsable f ns h.1)

  find-IsUsable : (f : Filters) (ns : List ProxyNode) → db.find (meets f) ≡ ok ns → All IsUsable ns
  find-IsUsable f ns e =
      rw (db.find_ok (meets f) ns e) (meets-IsUsable f _ (filter-All (meets f) db.rows))

  keep-IsUsable :
      (f : Filters) (res : Result ProxyNode) (ns : List ProxyNode)
      → All IsUsable ns
      → All IsUsable (keep_candidate r db f res ns)
  keep-IsUsable f (err e) ns h = h
  keep-IsUsable f (ok n) ns h =
      elim (Bool-cases
        (usable n && unless_empty f.isp (text_eq n.isp f.isp || text_eq n.org f.isp))) [
          | inl q ↦ rw q (ground arith, h)
          | inr q ↦ rw q h
        ]

  load-IsUsable :
      (f : Filters) (ids : List ℕ) (s : State) → All IsUsable (load_candidates r db f ids s)
  unfolding load_candidates
  load-IsUsable f [] s = tt
  load-IsUsable f (id ∷ ids) s = keep-IsUsable f (load_node r id s) _ (load-IsUsable f ids s)

  or_query-IsUsable :
      (f : Filters) (ms ns : List ProxyNode)
      → All IsUsable ms
      → or_query r db f ms ≡ ok ns
      → All IsUsable ns
  or_query-IsUsable f [] ns h e = find-IsUsable f ns e
  or_query-IsUsable f (m ∷ ms) ns h e = let q : m ∷ ms ≡ ns = cc in subst (All IsUsable) q h

  matched-IsUsable :
      (f : Filters) (s : State) (ids : Result (Option (List ℕ))) (ns : List ProxyNode)
      → matched_or_query r db f s ids ≡ ok ns
      → All IsUsable ns
  matched-IsUsable f s (err x) ns h = cc
  matched-IsUsable f s (ok none) ns h = find-IsUsable f ns h
  matched-IsUsable f s (ok (some ids)) ns h = or_query-IsUsable f _ ns (load-IsUsable f ids s) h

  module _ (digest : Text → Text) (draw : ℕ → ℕ) where
    anew-IsUsable :
        (uid : Text) (f : Filters) (s t : State) (n : ProxyNode)
        → pick_anew r db digest draw uid f s ≡ (ok n, t)
        → IsUsable n
    unfolding candidates
    anew-IsUsable uid f s t n h =
        choose-All r db digest draw IsUsable uid f s t _ n (λ ns q. matched-IsUsable f s _ ns q) h

    pinned-IsUsable :
        (uid : Text) (f : Filters) (s t : State) (id : ℕ) (row : Result ProxyNode) (n : ProxyNode)
        → db.first (λ n. (n.id == id) && (n.healthy && not n.disabled)) ≡ row
        → or_pick_anew r db digest draw uid f s row ≡ (ok n, t)
        → IsUsable n
    pinned-IsUsable uid f s t id (err e) n p h = anew-IsUsable uid f _ t n h
    pinned-IsUsable uid f s t id (ok m) n p h =
        let q : ◌≡◌ {A = Result ProxyNode} (ok m) (ok n) =
          ap (λ (p : Result ProxyNode × State). p.0) h in
        let e : m ≡ n = cc in let u = db.first_ok _ m p in subst IsUsable e (ground (arith, u))

    get-IsUsable :
        (uid : Text) (f : Filters) (s t : State) (res : Result ℕ) (n : ProxyNode)
        → pick_pinned r db digest draw uid f s res ≡ (ok n, t)
        → IsUsable n
    get-IsUsable uid f s t (err e) n h = anew-IsUsable uid f s t n h
    get-IsUsable uid f s t (ok id) n h = pinned-IsUsable uid f s t id _ n refl h

    -- A node that Pick returns is healthy and enabled, whatever the sets, the sessions and the cache
    -- hold.
    pub pick-usable :
        (uid : Text) (f : Filters) (s t : State) (n : ProxyNode)
        → pick r db digest draw uid f s ≡ (ok n, t)
        → usable n ≡ true
    unfolding pick
    pick-usable uid f s t n h = elim (Bool-cases (is_empty f.sid)) [
      | inl e ↦ anew-IsUsable uid f s t n (
          subst
            (λ b.
              (if b
                then pick_anew r db digest draw uid f s
                else pick_pinned r db digest draw uid f s
                    (r.get_uint (session_key r db digest draw uid f) s))
              ≡ (ok n, t))
            e h)
      | inr e ↦ get-IsUsable uid f s t _ n (
          subst
            (λ b.
              (if b
                then pick_anew r db digest draw uid f s
                else pick_pinned r db digest draw uid f s
                    (r.get_uint (session_key r db digest draw uid f) s))
              ≡ (ok n, t))
            e h)
    ]
