-- ===== src/Stats/Nodes.antt =====
-- `flushNodeUsage` and `trafficNodeTag` of stats/service.go. The table of the nodes is an interface.
use proxydeck.Prelude.{ℕ, ◌&&◌, List, [], ◌∷◌, Option, none, some, if◌then◌else◌}
use proxydeck.Prelude.Int.{ℤ, pos, eqb_ℤ}
use proxydeck.Errors.{Result, ok, err}
use proxydeck.Strings.{Text, lit, is_empty}
use proxydeck.Strings.Split.{join}
use proxydeck.Redis.{Redis, Err, node_usage_key, node_requests_key}
use proxydeck.Redis.Pipeline.{Pipeline, decr_by}
use proxydeck.Quota.{or_zero}

-- The update adds three amounts to the columns of a node; `node_of_key` is fmt.Sscanf with
-- `usage:node:%d:upload`.
pub record NodeAccounts : Type 1 where
  pub Table : Type 0
  pub add_traffic : ℕ → ℤ → ℤ → ℤ → Table → Err × Table
  pub node_of_key : Text → Option ℕ

module _ (r : Redis) (pipe : Pipeline r) (acc : NodeAccounts) where
  open r use {State}
  open acc use {Table}

  -- the transaction behind the update of the table
  abbrev pub node_updated : ℕ → ℤ → ℤ → ℤ → Err × Table → State → Err × (Table × State)
  node_updated id up down requests (some e, d) s = (some e, (d, s))
  node_updated id up down requests (none, d) s =
      let p =
        pipe.exec
          (decr_by (node_usage_key id (lit "upload")) up
            ∷ decr_by (node_usage_key id (lit "download")) down
            ∷ decr_by (node_requests_key id) requests
            ∷ [])
          s in
      (p.0, (d, p.1))

  unfoldable pub flush_node : ℕ → Table → State → Err × (Table × State)
  flush_node id d s =
      let up = or_zero (r.get (node_usage_key id (lit "upload")) s) in
      let down = or_zero (r.get (node_usage_key id (lit "download")) s) in
      let requests = or_zero (r.get (node_requests_key id) s) in
      if eqb_ℤ up (pos 0) && (eqb_ℤ down (pos 0) && eqb_ℤ requests (pos 0))
      then (none, (d, s))
      else node_updated id up down requests (acc.add_traffic id up down requests d) s

  abbrev pub and_next :
      (Table → State → Err × (Table × State)) → Err × (Table × State) → Err × (Table × State)
  and_next rest (some e, end) = (some e, end)
  and_next rest (none, (d, s)) = rest d s

  abbrev pub flush_key :
      (Table → State → Err × (Table × State)) → Option ℕ → Table → State → Err × (Table × State)
  flush_key rest none d s = rest d s
  flush_key rest (some id) d s = and_next rest (flush_node id d s)

  unfoldable pub flush_nodes : List Text → Table → State → Err × (Table × State)
  unfolding flush_node
  flush_nodes [] d s = (none, (d, s))
  flush_nodes (key ∷ keys) d s = flush_key (flush_nodes keys) (acc.node_of_key key) d s

  abbrev pub flush_found : Result (List Text) → Table → State → Err × (Table × State)
  flush_found (err e) d s = (some e, (d, s))
  flush_found (ok keys) d s = flush_nodes keys d s

  unfoldable pub flush_node_usage : Table → State → Err × (Table × State)
  unfolding flush_nodes
  flush_node_usage d s = flush_found (r.keys (lit "usage:node:*:upload") s) d s

abbrev pub part : Text → List Text → List Text
part s parts = if is_empty s then parts else s ∷ parts

abbrev pub joined_or : Text → List Text → Text
joined_or tag [] = tag
joined_or tag (p ∷ ps) = join (p ∷ ps) (lit " | ")

unfoldable pub traffic_node_tag : Text → Text → Text → Text → Text → Text
traffic_node_tag raw_tag region city asn exit_ip =
    joined_or raw_tag (part region (part city (part asn (part exit_ip []))))
