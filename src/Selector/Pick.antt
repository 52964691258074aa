-- ===== src/Selector/Pick.antt =====
-- `Pick`, `candidates` and `matchNodeIDs` of selector/service.go. The database's table of nodes, the
-- hash sha1 and rand.Intn are parameters.
pub mod Members
pub mod Sound
pub mod Usable
pub mod Session
pub mod Finds
use proxydeck.Prelude.{
  ℕ, ◌≡◌, Bool, true, false, not, ◌&&◌, ◌||◌, ◌==◌, List, [], ◌∷◌, ◌++◌, Option, none, some, length,
  get_or, filter, if◌then◌else◌,
}
use proxydeck.Errors.{Error, Result, ok, err, no_healthy_node}
use proxydeck.Strings.{Text, lit, text_eq, is_empty}
use proxydeck.Model.{ProxyNode}
use proxydeck.Redis.{Err, sticky_key}
use proxydeck.Selector.Username.{Filters, hash_input}
use proxydeck.Nodes.{usable, load_node, parse_uint_members}
use proxydeck.Nodes.Keys.{healthy_nodes, region_key, city_key, asn_key, isp_key}
use proxydeck.Nodes.Commands.{NodeRedis}

-- The queries on the table of nodes: Find and First of the rows that meet a condition.
pub record NodeTable : Type 0 where
  pub rows : List ProxyNode
  pub find : (ProxyNode → Bool) → Result (List ProxyNode)
  pub first : (ProxyNode → Bool) → Result ProxyNode
  pub find_ok : (p : ProxyNode → Bool) (ns : List ProxyNode) → find p ≡ ok ns → ns ≡ filter p rows
  pub first_ok : (p : ProxyNode → Bool) (n : ProxyNode) → first p ≡ ok n → p n ≡ true

abbrev pub unless_empty : Text → Bool → Bool
unless_empty value b = is_empty value || b

-- The condition of the query of `candidates`.
abbrev pub meets : Filters → ProxyNode → Bool
meets f n =
    usable n
    && (unless_empty f.region (
          text_eq n.country f.region
          || text_eq n.detected_region f.region
          || text_eq n.expected_region f.region)
        && (unless_empty f.state (text_eq n.detected_region f.state)
            && (unless_empty f.city (text_eq n.city f.city)
                && (unless_empty f.asn (text_eq n.asn f.asn)
                    && unless_empty f.isp (text_eq n.isp f.isp || text_eq n.org f.isp)))))

abbrev pub add_set : Text → Text → List Text → List Text
add_set value key sets = if is_empty value then sets else key ∷ sets

-- The sets of `matchNodeIDs` behind `healthy_nodes`.
unfoldable pub filter_sets : Filters → List Text
filter_sets f = add_set f.region (region_key f.region) (
    add_set f.city (city_key f.city)
      (add_set f.asn (asn_key f.asn) (add_set f.isp (isp_key f.isp) [])))

abbrev pub read_ids : Result (List Text) → Result (Option (List ℕ))
read_ids (err e) = err e
read_ids (ok members) = ok (some (parse_uint_members members))

module _ (r : NodeRedis) (db : NodeTable) where
  open r use {State}

  -- `none` where it returns `ok` false
  unfoldable pub match_node_ids : Filters → State → Result (Option (List ℕ))
  unfolding filter_sets
  match_node_ids f s =
      if is_empty f.state then read_ids (r.s_inter (healthy_nodes ∷ filter_sets f) s) else ok none

  abbrev pub keep_candidate : Filters → Result ProxyNode → List ProxyNode → List ProxyNode
  keep_candidate f (err e) nodes = nodes
  keep_candidate f (ok node) nodes =
      if usable node && unless_empty f.isp (text_eq node.isp f.isp || text_eq node.org f.isp)
      then node ∷ nodes
      else nodes

  -- the loop over the ids
  unfoldable pub load_candidates : Filters → List ℕ → State → List ProxyNode
  load_candidates f [] s = []
  load_candidates f (id ∷ ids) s = keep_candidate f (load_node r id s) (load_candidates f ids s)

  abbrev pub or_query : Filters → List ProxyNode → Result (List ProxyNode)
  or_query f [] = db.find (meets f)
  or_query f (node ∷ nodes) = ok (node ∷ nodes)

  abbrev pub matched_or_query : Filters → State → Result (Option (List ℕ)) → Result (List ProxyNode)
  matched_or_query f s (err e) = err e
  matched_or_query f s (ok none) = db.find (meets f)
  matched_or_query f s (ok (some ids)) = or_query f (load_candidates f ids s)

  unfoldable pub candidates : Filters → State → Result (List ProxyNode)
  unfolding match_node_ids load_candidates
  candidates f s = matched_or_query f s (match_node_ids f s)

  module _ (digest : Text → Text) (draw : ℕ → ℕ) where
    unfoldable pub filter_hash : Filters → Text
    filter_hash f = digest (hash_input f)

    abbrev pub session_key : Text → Filters → Text
    session_key uid f = sticky_key uid (filter_hash f) f.sid

    -- `nodes[rand.Intn(len(nodes))]`; rand.Intn stays below its argument, so the default is not used.
    abbrev pub draw_from : ProxyNode → List ProxyNode → ProxyNode
    draw_from node nodes = get_or (node ∷ nodes) (draw (length (node ∷ nodes))) node

    abbrev pub remember : Text → Filters → ProxyNode → State → State
    remember uid f node s =
        if is_empty f.sid then s else (r.set_uint (session_key uid f) node.id s).1

    abbrev pub choose : Text → Filters → State → Result (List ProxyNode) → Result ProxyNode × State
    choose uid f s (err e) = (err e, s)
    choose uid f s (ok []) = (err no_healthy_node, s)
    choose uid f s (ok (node ∷ nodes)) = let n = draw_from node nodes in (ok n, remember uid f n s)

    abbrev pub pick_anew : Text → Filters → State → Result ProxyNode × State
    pick_anew uid f s = choose uid f s (candidates f s)

    abbrev pub or_pick_anew : Text → Filters → State → Result ProxyNode → Result ProxyNode × State
    or_pick_anew uid f s (ok node) = (ok node, s)
    or_pick_anew uid f s (err e) = pick_anew uid f (r.del (session_key uid f ∷ []) s).1

    abbrev pub pick_pinned : Text → Filters → State → Result ℕ → Result ProxyNode × State
    pick_pinned uid f s (err e) = pick_anew uid f s
    pick_pinned uid f s (ok id) =
        or_pick_anew uid f s (db.first (λ n. (n.id == id) && (n.healthy && not n.disabled)))

    unfoldable pub pick : Text → Filters → State → Result ProxyNode × State
    unfolding filter_hash candidates
    pick uid f s =
        if is_empty f.sid
        then pick_anew uid f s
        else pick_pinned uid f s (r.get_uint (session_key uid f) s)
