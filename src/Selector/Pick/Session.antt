-- ===== src/Selector/Pick/Session.antt =====
-- The sessions of `Pick` of selector/service.go.
use proxydeck.Prelude.{
  ℕ, ◌≡◌, refl, sym, ap, ◌∙◌, Bool, false, not, ◌&&◌, ◌==◌, List, [], ◌∷◌, none, some, arith,
}
use proxydeck.Errors.{Result, ok, err, no_healthy_node}
use proxydeck.Strings.{Text, is_empty}
use proxydeck.Model.{ProxyNode}
use proxydeck.Redis.{Err}
use proxydeck.Nodes.Commands.{NodeRedis}
use proxydeck.Selector.Username.{Filters}
use proxydeck.Selector.Pick.{
  NodeTable, pick, choose, pick_pinned, or_pick_anew, draw_from, session_key,
}

module _ (r : NodeRedis) (db : NodeTable) (digest : Text → Text) (draw : ℕ → ℕ)
    (reads : (s : r.State) (k : Text) (i : ℕ) → r.pointer s k ≡ some i → r.get_uint k s ≡ ok i)
    (writes : (s : r.State) (k : Text) (i : ℕ) → (r.set_uint k i s).0 ≡ none) where
  open r use {State}

  -- The row of a node that is healthy and enabled.
  abbrev pub row_of : ℕ → ProxyNode → Bool
  row_of id n = (n.id == id) && (n.healthy && not n.disabled)

  module _ (uid : Text) (f : Filters) where
    key : Text
    key = session_key r db digest draw uid f

    choose-pins :
        (s t : State) (res : Result (List ProxyNode)) (n : ProxyNode)
        → is_empty f.sid ≡ false
        → choose r db digest draw uid f s res ≡ (ok n, t)
        → r.pointer t key ≡ some n.id
    unfolding key
    choose-pins s t (err e) n k h =
        let q : ◌≡◌ {A = Result ProxyNode} (err e) (ok n) =
          ap (λ (p : Result ProxyNode × State). p.0) h in
        cc
    choose-pins s t (ok []) n k h =
        let q : ◌≡◌ {A = Result ProxyNode} (err no_healthy_node) (ok n) =
          ap (λ (p : Result ProxyNode × State). p.0) h in
        cc
    choose-pins s t (ok (m ∷ ms)) n k h =
        let d = draw_from r db digest draw m ms in
        let q : ◌≡◌ {A = Result ProxyNode} (ok d) (ok n) =
          ap (λ (p : Result ProxyNode × State). p.0) h in
        let e : d ≡ n = cc in
        let u : t ≡ (r.set_uint (session_key r db digest draw uid f) d.id s).1 =
          sym (ap (λ (p : Result ProxyNode × State). p.1) h) ∙ rw k refl in
        let (set, _, _) =
          r.set_uint_ok (session_key r db digest draw uid f) d.id s _
            (pair_of _ (writes s _ d.id)) in
        rw (u, set) (rw e refl)
      where
        pair_of : (p : Err × State) → p.0 ≡ none → p ≡ (none, p.1)
        pair_of (a, b) e = rw e refl

    row-pins :
        (s t : State) (id : ℕ) (row : Result ProxyNode) (n : ProxyNode)
        → is_empty f.sid ≡ false
        → r.get_uint key s ≡ ok id
        → db.first (row_of id) ≡ row
        → or_pick_anew r db digest draw uid f s row ≡ (ok n, t)
        → r.get_uint key t ≡ ok n.id
    row-pins s t id (err e) n k g q h = reads t key n.id (choose-pins _ t _ n k h)
    row-pins s t id (ok m) n k g q h =
        let same : ◌≡◌ {A = Result ProxyNode} (ok m) (ok n) =
          ap (λ (p : Result ProxyNode × State). p.0) h in
        let e : m ≡ n = cc in
        let u : s ≡ t = ap (λ (p : Result ProxyNode × State). p.1) h in
        let i : m.id ≡ id = let o = db.first_ok (row_of id) m q in ground (arith, o) in
        rw (sym u, sym e, i) g

    get-pins :
        (s t : State) (res : Result ℕ) (n : ProxyNode)
        → is_empty f.sid ≡ false
        → r.get_uint key s ≡ res
        → pick_pinned r db digest draw uid f s res ≡ (ok n, t)
        → r.get_uint key t ≡ ok n.id
    get-pins s t (err e) n k g h = reads t key n.id (choose-pins s t _ n k h)
    get-pins s t (ok id) n k g h = row-pins s t id _ n k g refl h

    sessioned :
        (s : State)
        → is_empty f.sid ≡ false
        → pick r db digest draw uid f s ≡ pick_pinned r db digest draw uid f s (r.get_uint key s)
    unfolding pick key
    sessioned s e = rw e refl

    -- A second call of Pick with the same user, filters and session returns the row of the same node
    -- and changes nothing, if the row is healthy and enabled and the session's key can be written and
    -- read.
    pub pick-again :
        (s t : State) (n row : ProxyNode)
        → is_empty f.sid ≡ false
        → pick r db digest draw uid f s ≡ (ok n, t)
        → db.first (row_of n.id) ≡ ok row
        → (pick r db digest draw uid f t ≡ (ok row, t)) × (row.id ≡ n.id)
    pick-again s t n row k h q =
        let g : r.get_uint key t ≡ ok n.id = get-pins s t _ n k refl (sym (sessioned s k) ∙ h) in
        let o = db.first_ok (row_of n.id) row q in
        (sessioned t k ∙ rw (g, q) refl, ground (arith, o))
