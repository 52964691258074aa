-- ===== src/Selector/Pick/Sound.antt =====
-- Every node that `Pick` of selector/service.go returns is usable, and meets the filters.
use proxydeck.Prelude.{
  ℕ, ◌≡◌, ◌⊎◌, refl, sym, ap, ◌∙◌, true, ◌&&◌, ◌||◌, List, [], ◌∷◌, none, some, All, filter-All,
  All-get_or, arith, Bool-cases, inl, inr, if◌then◌else◌,
}
use mathlib.Core.Path.{subst}
use proxydeck.Errors.{Result, ok, err, no_healthy_node}
use proxydeck.Strings.{Text, text_eq, is_empty}
use proxydeck.Model.{ProxyNode}
use proxydeck.Nodes.{usable, load_node, parse_uint_members}
use proxydeck.Nodes.Keys.{node_key, healthy_nodes}
use proxydeck.Nodes.Kinds.{Kind, by_region, by_city, by_asn, index_key, has_value, value_of}
use proxydeck.Nodes.Index.{Indexed}
use proxydeck.Nodes.Commands.{NodeRedis}
use proxydeck.Selector.Username.{Filters}
use proxydeck.Selector.Pick.{
  NodeTable, meets, unless_empty, filter_sets, match_node_ids, load_candidates, keep_candidate,
  or_query, matched_or_query, candidates, pick, choose, pick_anew, read_ids, draw_from,
}
use proxydeck.Selector.Pick.Members.{parse_uint_members-All, add_set-All, value-meets, region-meets}

module _ (r : NodeRedis) (db : NodeTable) where
  open r use {State}

  -- An id that is a member of every set that the filters name.
  abbrev InSets : Filters → State → ℕ → Type 0
  InSets f s id = All (λ k. r.has s k id ≡ true) (healthy_nodes ∷ filter_sets f)

  loaded-value :
      (kind : Kind) (v : Text) (id : ℕ) (s : State) (n : ProxyNode)
      → Indexed r s
      → load_node r id s ≡ ok n
      → r.has s (index_key kind v) id ≡ true
      → has_value kind v (some n) ≡ true
  unfolding load_node
  loaded-value kind v id s n ix e h =
      let q : r.entry s (node_key id) ≡ some n = r.get_node_ok (node_key id) s n e in
      subst (λ o. has_value kind v o ≡ true) q (sym (ix.index_members kind v id) ∙ h)

  loaded-unless :
      (kind : Kind) (v : Text) (id : ℕ) (s : State) (n : ProxyNode)
      → Indexed r s
      → load_node r id s ≡ ok n
      → (is_empty v ≡ true) ⊎ (r.has s (index_key kind v) id ≡ true)
      → unless_empty v (text_eq (value_of kind n) v) ≡ true
  loaded-unless kind v id s n ix e (inl h) = value-meets kind v n (inl h)
  loaded-unless kind v id s n ix e (inr h) =
      value-meets kind v n (inr (loaded-value kind v id s n ix e h))

  loaded-meets :
      (f : Filters) (id : ℕ) (s : State) (n : ProxyNode)
      → Indexed r s
      → is_empty f.state ≡ true
      → load_node r id s ≡ ok n
      → InSets f s id
      → (usable n && unless_empty f.isp (text_eq n.isp f.isp || text_eq n.org f.isp)) ≡ true
      → meets f n ≡ true
  unfolding filter_sets
  loaded-meets f id s n ix st e (h, hs) u =
      let P : Text → Type 0 = λ k. r.has s k id ≡ true in
      let (hr, h1) = add_set-All P f.region _ _ hs in
      let (hc, h2) = add_set-All P f.city _ _ h1 in
      let (ha, h3) = add_set-All P f.asn _ _ h2 in
      let vr = region-meets f.region n (loaded-unless by_region f.region id s n ix e hr) in
      let vc = loaded-unless by_city f.city id s n ix e hc in
      let va = loaded-unless by_asn f.asn id s n ix e ha in
      let vu : usable n ≡ true = ground arith in
      let vi : unless_empty f.isp (text_eq n.isp f.isp || text_eq n.org f.isp) ≡ true =
        ground arith in
      rw (vu, vr, st, vc, va, vi) refl

  load_candidates-All :
      (f : Filters) (ids : List ℕ) (s : State)
      → Indexed r s
      → is_empty f.state ≡ true
      → All (InSets f s) ids
      → All (λ n. meets f n ≡ true) (load_candidates r db f ids s)
  unfolding load_candidates
  load_candidates-All f [] s ix st h = tt
  load_candidates-All f (id ∷ ids) s ix st (h, hs) =
      kept (load_node r id s) refl (load_candidates-All f ids s ix st hs)
    where
      kept :
          (res : Result ProxyNode)
          → load_node r id s ≡ res
          → All (λ n. meets f n ≡ true) (load_candidates r db f ids s)
          → All (λ n. meets f n ≡ true) (keep_candidate r db f res (load_candidates r db f ids s))
      kept (err e) p k = k
      kept (ok n) p k =
          elim (Bool-cases
            (usable n && unless_empty f.isp (text_eq n.isp f.isp || text_eq n.org f.isp))) [
              | inl q ↦ rw q (loaded-meets f id s n ix st p h q, k)
              | inr q ↦ rw q k
            ]

  -- What the query returns meets the filters.
  find-All :
      (f : Filters) (ns : List ProxyNode)
      → db.find (meets f) ≡ ok ns
      → All (λ n. meets f n ≡ true) ns
  find-All f ns e = rw (db.find_ok (meets f) ns e) (filter-All (meets f) db.rows)

  or_query-All :
      (f : Filters) (ms ns : List ProxyNode)
      → All (λ n. meets f n ≡ true) ms
      → or_query r db f ms ≡ ok ns
      → All (λ n. meets f n ≡ true) ns
  or_query-All f [] ns h e = find-All f ns e
  or_query-All f (m ∷ ms) ns h e =
      let q : m ∷ ms ≡ ns = cc in subst (All (λ n. meets f n ≡ true)) q h

  matched-All :
      (f : Filters) (s : State) (sets : Result (List Text)) (ns : List ProxyNode)
      → Indexed r s
      → is_empty f.state ≡ true
      → r.s_inter (healthy_nodes ∷ filter_sets f) s ≡ sets
      → matched_or_query r db f s (read_ids sets) ≡ ok ns
      → All (λ n. meets f n ≡ true) ns
  matched-All f s (err x) ns ix st e h = cc
  matched-All f s (ok ms) ns ix st e h =
      or_query-All f _ ns
        (load_candidates-All f (parse_uint_members ms) s ix st
          (parse_uint_members-All (InSets f s) ms (r.s_inter_ok _ ms s e)))
        h

  candidates-All :
      (f : Filters) (s : State) (ns : List ProxyNode)
      → Indexed r s
      → candidates r db f s ≡ ok ns
      → All (λ n. meets f n ≡ true) ns
  unfolding candidates match_node_ids
  candidates-All f s ns ix h = elim (Bool-cases (is_empty f.state)) [
    | inl st ↦ matched-All f s _ ns ix st refl (
        subst
          (λ b.
            matched_or_query r db f s
              (if b then read_ids (r.s_inter (healthy_nodes ∷ filter_sets f) s) else ok none)
            ≡ ok ns)
          st h)
    | inr st ↦ find-All f ns (
        subst
          (λ b.
            matched_or_query r db f s
              (if b then read_ids (r.s_inter (healthy_nodes ∷ filter_sets f) s) else ok none)
            ≡ ok ns)
          st h)
  ]

  module _ (digest : Text → Text) (draw : ℕ → ℕ) where
    pub choose-All :
        (P : ProxyNode → Type 0) (uid : Text) (f : Filters) (s t : State)
        (res : Result (List ProxyNode)) (n : ProxyNode)
        → ((ns : List ProxyNode) → res ≡ ok ns → All P ns)
        → choose r db digest draw uid f s res ≡ (ok n, t)
        → P n
    choose-All P uid f s t (err e) n k h =
        let q : ◌≡◌ {A = Result ProxyNode} (err e) (ok n) =
          ap (λ (p : Result ProxyNode × State). p.0) h in
        cc
    choose-All P uid f s t (ok []) n k h =
        let q : ◌≡◌ {A = Result ProxyNode} (err no_healthy_node) (ok n) =
          ap (λ (p : Result ProxyNode × State). p.0) h in
        cc
    choose-All P uid f s t (ok (m ∷ ms)) n k h =
        let q : ◌≡◌ {A = Result ProxyNode} (ok (draw_from r db digest draw m ms)) (ok n) =
          ap (λ (p : Result ProxyNode × State). p.0) h in
        let e : draw_from r db digest draw m ms ≡ n = cc in
        let a : All P (m ∷ ms) = k (m ∷ ms) refl in subst P e (All-get_or P (m ∷ ms) _ m a a.0)

    unsessioned :
        (uid : Text) (f : Filters) (s : State)
        → is_empty f.sid ≡ true
        → pick r db digest draw uid f s ≡ pick_anew r db digest draw uid f s
    unfolding pick
    unsessioned uid f s e = rw e refl

    -- Without a session, a node that Pick returns is healthy, enabled and meets the filters, if the
    -- sets of the cached nodes agree with the nodes.
    pub pick-meets :
        (uid : Text) (f : Filters) (s t : State) (n : ProxyNode)
        → Indexed r s
        → is_empty f.sid ≡ true
        → pick r db digest draw uid f s ≡ (ok n, t)
        → meets f n ≡ true
    pick-meets uid f s t n ix e h =
        choose-All (λ m. meets f m ≡ true) uid f s t _ n (λ ns q. candidates-All f s ns ix q)
          (sym (unsessioned uid f s e) ∙ h)
