-- ===== src/Selector/Pick/Finds.antt =====
-- `Pick` of selector/service.go finds a node where the database has one.
use proxydeck.Prelude.{ℕ, ◌≡◌, refl, ap, ◌∙◌, Bool, List, [], ◌∷◌, filter, Bool-cases, inl, inr}
use proxydeck.Errors.{Result, ok, err}
use proxydeck.Strings.{Text, is_empty}
use proxydeck.Model.{ProxyNode}
use proxydeck.Nodes.Keys.{healthy_nodes}
use proxydeck.Nodes.Commands.{NodeRedis}
use proxydeck.Selector.Username.{Filters}
use proxydeck.Selector.Pick.{
  NodeTable, meets, filter_sets, match_node_ids, or_query, matched_or_query, candidates, pick,
  choose, pick_anew, pick_pinned, or_pick_anew, read_ids,
}

module _ (r : NodeRedis) (db : NodeTable) (digest : Text → Text) (draw : ℕ → ℕ)
    (answers : (ks : List Text) (s : r.State) → (ms : List Text) × (r.s_inter ks s ≡ ok ms))
    (asked : (p : ProxyNode → Bool) → db.find p ≡ ok (filter p db.rows)) where
  open r use {State}

  HasNodes : Result (List ProxyNode) → Type 0
  HasNodes res = (n : ProxyNode) × (ns : List ProxyNode) × (res ≡ ok (n ∷ ns))

  HasNode : Result ProxyNode → Type 0
  HasNode res = (n : ProxyNode) × (res ≡ ok n)

  module _ (f : Filters) (m : ProxyNode) (ms : List ProxyNode)
      (row : filter (meets f) db.rows ≡ m ∷ ms) where
    find-HasNodes : HasNodes (db.find (meets f))
    unfolding HasNodes
    find-HasNodes = (m, ms, asked (meets f) ∙ ap ok row)

    or_query-HasNodes : (ns : List ProxyNode) → HasNodes (or_query r db f ns)
    unfolding HasNodes
    or_query-HasNodes [] = find-HasNodes
    or_query-HasNodes (n ∷ ns) = (n, ns, refl)

    sets-HasNodes :
        (s : State) (sets : Result (List Text))
        → (members : List Text) × (sets ≡ ok members)
        → HasNodes (matched_or_query r db f s (read_ids sets))
    sets-HasNodes s (err e) (members, h) = cc
    sets-HasNodes s (ok members) h = or_query-HasNodes _

    candidates-HasNodes : (s : State) → HasNodes (candidates r db f s)
    unfolding candidates match_node_ids
    candidates-HasNodes s = elim (Bool-cases (is_empty f.state)) [
      | inl e ↦ rw e (sets-HasNodes s _ (answers (healthy_nodes ∷ filter_sets f) s))
      | inr e ↦ rw e find-HasNodes
    ]

    choose-HasNode :
        (uid : Text) (s : State) (res : Result (List ProxyNode))
        → HasNodes res
        → HasNode (choose r db digest draw uid f s res).0
    unfolding HasNodes HasNode
    choose-HasNode uid s res (n, ns, e) = rw e (_, refl)

    anew-HasNode : (uid : Text) (s : State) → HasNode (pick_anew r db digest draw uid f s).0
    anew-HasNode uid s = choose-HasNode uid s _ (candidates-HasNodes s)

    row-HasNode :
        (uid : Text) (s : State) (res : Result ProxyNode)
        → HasNode (or_pick_anew r db digest draw uid f s res).0
    unfolding HasNode
    row-HasNode uid s (ok n) = (n, refl)
    row-HasNode uid s (err e) = anew-HasNode uid _

    pinned-HasNode :
        (uid : Text) (s : State) (res : Result ℕ)
        → HasNode (pick_pinned r db digest draw uid f s res).0
    pinned-HasNode uid s (err e) = anew-HasNode uid s
    pinned-HasNode uid s (ok id) = row-HasNode uid s _

    -- Pick returns a node, if a row of the database meets the filters, the database answers and
    -- Redis finds members of sets; commands on the sessions may fail.
    pub pick-finds :
        (uid : Text) (s : State) → (n : ProxyNode) × ((pick r db digest draw uid f s).0 ≡ ok n)
    unfolding HasNode pick
    pick-finds uid s = elim (Bool-cases (is_empty f.sid)) [
      | inl e ↦ rw e (anew-HasNode uid s)
      | inr e ↦ rw e (pinned-HasNode uid s _)
    ]
