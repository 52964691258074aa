-- ===== src/Nodes.antt =====
-- backend/internal/redisstore/store.go: the cached nodes and the sets that index them. Redis is an
-- interface of the commands that the store sends.
pub mod Keys
pub mod Commands
pub mod Sticky
pub mod Kinds
pub mod Effect
pub mod Removal
pub mod Unpin
pub mod Reference
pub mod Index
use proxydeck.Prelude.{
  ℕ, Bool, true, false, not, ◌&&◌, ◌==◌, List, [], ◌∷◌, ◌++◌, Option, none, some, map,
  if◌then◌else◌,
}
use proxydeck.Errors.{Error, Result, ok, err}
use proxydeck.Strings.{Text, lit, text_eq, is_empty}
use proxydeck.Strings.Number.{parse_uint}
use proxydeck.Model.{ProxyNode}
use proxydeck.Redis.{Err, node_usage_key, node_requests_key}
use Keys.{
  node_key, healthy_nodes, region_key, city_key, asn_key, isp_key, node_index_keys, node_region,
}
use Commands.{NodeRedis, Command, set_node, del_keys, s_add, s_rem}

-- `node.Healthy && !node.Disabled`
abbrev pub usable : ProxyNode → Bool
usable node = node.healthy && not node.disabled

-- `replaceSetMembership`
unfoldable pub replace_set_membership : Text → ℕ → Bool → List Command
replace_set_membership key id should_add =
    if text_eq key (lit "region:")
    then []
    else if text_eq key (lit "city:")
    then []
    else if text_eq key (lit "asn:")
    then []
    else if text_eq key (lit "isp:")
    then []
    else if should_add
    then s_add key id ∷ []
    else s_rem key id ∷ []

abbrev pub remove_from : ℕ → List Text → List Command
remove_from id [] = []
remove_from id (key ∷ keys) = s_rem key id ∷ remove_from id keys

abbrev pub index_of : Option ProxyNode → List Text
index_of none = []
index_of (some node) = node_index_keys node

abbrev pub found : Result ProxyNode → Option ProxyNode
found (ok node) = some node
found (err e) = none

-- The transaction of `CacheNode`, with the node that was cached before.
unfoldable pub cache_commands : Option ProxyNode → ProxyNode → List Command
unfolding replace_set_membership
cache_commands previous node =
    set_node (node_key node.id) node
    ∷ ((if usable node then s_add healthy_nodes node.id else s_rem healthy_nodes node.id)
        ∷ (remove_from node.id (index_of previous)
            ++ (replace_set_membership (region_key (node_region node)) node.id
                  (not (is_empty (node_region node)))
                ++ (replace_set_membership (city_key node.city) node.id (not (is_empty node.city))
                    ++ (replace_set_membership (asn_key node.asn) node.id (not (is_empty node.asn))
                        ++ replace_set_membership (isp_key node.isp) node.id
                            (not (is_empty node.isp)))))))

-- The transaction of `RemoveNode`.
unfoldable pub remove_commands : ProxyNode → List Command
remove_commands node =
    del_keys (node_key node.id ∷ [])
    ∷ (s_rem healthy_nodes node.id
        ∷ (remove_from node.id (node_index_keys node)
            ++ (del_keys (
                  node_usage_key node.id (lit "upload")
                  ∷ (node_usage_key node.id (lit "download") ∷ (node_requests_key node.id ∷ [])))
                ∷ [])))

-- `ParseUintMembers`
abbrev pub keep_id : Option ℕ → List ℕ → List ℕ
keep_id none ids = ids
keep_id (some id) ids = id ∷ ids

unfoldable pub parse_uint_members : List Text → List ℕ
parse_uint_members [] = []
parse_uint_members (value ∷ values) = keep_id (parse_uint value) (parse_uint_members values)

module _ (r : NodeRedis) where
  open r use {State}

  unfoldable pub load_node : ℕ → State → Result ProxyNode
  load_node id s = r.get_node (node_key id) s

  abbrev pub points_to : ℕ → Result ℕ → Bool
  points_to id (ok value) = value == id
  points_to id (err e) = false

  -- the loop of `cleanupStickyForNode`
  unfoldable pub sticky_of : ℕ → List Text → State → List Text
  sticky_of id [] s = []
  sticky_of id (key ∷ keys) s =
      let rest = sticky_of id keys s in if points_to id (r.get_uint key s) then key ∷ rest else rest

  abbrev pub delete_keys : List Text → State → Err × State
  delete_keys [] s = (none, s)
  delete_keys (key ∷ keys) s = r.del (key ∷ keys) s

  abbrev pub cleanup_found : ℕ → Result (List Text) → State → Err × State
  cleanup_found id (err e) s = (some e, s)
  cleanup_found id (ok keys) s = delete_keys (sticky_of id keys s) s

  unfoldable pub cleanup_sticky_for_node : ℕ → State → Err × State
  unfolding sticky_of
  cleanup_sticky_for_node id s = cleanup_found id (r.keys (lit "sticky:*") s) s

  abbrev pub then_cleanup : Bool → ℕ → Err × State → Err × State
  then_cleanup b id (some e, s) = (some e, s)
  then_cleanup true id (none, s) = cleanup_sticky_for_node id s
  then_cleanup false id (none, s) = (none, s)

  unfoldable pub cache_node : ProxyNode → State → Err × State
  unfolding load_node cache_commands cleanup_sticky_for_node
  cache_node node s =
      then_cleanup (not (usable node)) node.id
        (r.exec (cache_commands (found (load_node node.id s)) node) s)

  unfoldable pub remove_node : ProxyNode → State → Err × State
  unfolding remove_commands cleanup_sticky_for_node
  remove_node node s = then_cleanup true node.id (r.exec (remove_commands node) s)
