-- ===== src/Nodes/Effect.antt =====
-- What the transactions of CacheNode and RemoveNode do to the sets and to the cached nodes.
use proxydeck.Prelude.{
  ℕ, ◌≡◌, refl, Bool, true, false, not, ◌&&◌, ◌||◌, List, [], ◌∷◌, ◌++◌, Option, none, some, arith,
  ◌==◌, Bool-cases, inl, inr, if◌then◌else◌,
}
use proxydeck.Strings.{Text, text_eq, text_eq_refl, is_empty}
use proxydeck.Subscription.Protocol.{one_of}
use proxydeck.Model.{ProxyNode}
use proxydeck.Nodes.{usable, remove_from, index_of, cache_commands, replace_set_membership}
use proxydeck.Nodes.Keys.{
  node_key, healthy_nodes, region_key, city_key, asn_key, isp_key, key_unless_empty, node_region,
  node_index_keys, is_index_key, index_key-ne, healthy_nodes-index, node_key-eq,
}
use proxydeck.Nodes.Commands.{Command, set_node, del_keys, s_add, s_rem, member_after, entry_after}

abbrev add_to : ℕ → List Text → List Command
add_to id [] = []
add_to id (key ∷ keys) = s_add key id ∷ add_to id keys

pub member_after-append :
    (k : Text) (id : ℕ) (cs ds : List Command) (b : Bool)
    → member_after k id (cs ++ ds) b ≡ member_after k id ds (member_after k id cs b)
member_after-append k id [] ds b = refl
member_after-append k id (set_node j n ∷ cs) ds b = member_after-append k id cs ds b
member_after-append k id (del_keys js ∷ cs) ds b = member_after-append k id cs ds _
member_after-append k id (s_add j i ∷ cs) ds b = member_after-append k id cs ds _
member_after-append k id (s_rem j i ∷ cs) ds b = member_after-append k id cs ds _

pub entry_after-append :
    (k : Text) (cs ds : List Command) (o : Option ProxyNode)
    → entry_after k (cs ++ ds) o ≡ entry_after k ds (entry_after k cs o)
entry_after-append k [] ds o = refl
entry_after-append k (set_node j n ∷ cs) ds o = entry_after-append k cs ds _
entry_after-append k (del_keys js ∷ cs) ds o = entry_after-append k cs ds _
entry_after-append k (s_add j i ∷ cs) ds o = entry_after-append k cs ds o
entry_after-append k (s_rem j i ∷ cs) ds o = entry_after-append k cs ds o

pub member_after-remove_from :
    (k : Text) (id i : ℕ) (keys : List Text) (b : Bool)
    → member_after k id (remove_from i keys) b ≡ (if one_of k keys && (id == i) then false else b)
unfolding one_of
member_after-remove_from k id i [] b = refl
member_after-remove_from k id i (key ∷ keys) b =
    rw (member_after-remove_from k id i keys (if text_eq k key && (id == i) then false else b))
      (ground arith)

member_after-add_to :
    (k : Text) (id i : ℕ) (keys : List Text) (b : Bool)
    → member_after k id (add_to i keys) b ≡ (if one_of k keys && (id == i) then true else b)
unfolding one_of
member_after-add_to k id i [] b = refl
member_after-add_to k id i (key ∷ keys) b =
    rw (member_after-add_to k id i keys (if text_eq k key && (id == i) then true else b))
      (ground arith)

pub entry_after-remove_from :
    (k : Text) (i : ℕ) (keys : List Text) (o : Option ProxyNode)
    → entry_after k (remove_from i keys) o ≡ o
entry_after-remove_from k i [] o = refl
entry_after-remove_from k i (key ∷ keys) o = entry_after-remove_from k i keys o

entry_after-add_to :
    (k : Text) (i : ℕ) (keys : List Text) (o : Option ProxyNode)
    → entry_after k (add_to i keys) o ≡ o
entry_after-add_to k i [] o = refl
entry_after-add_to k i (key ∷ keys) o = entry_after-add_to k i keys o

replace_region :
    (v : Text) (id : ℕ) (cs : List Text)
    → replace_set_membership (region_key v) id (not (is_empty v)) ++ add_to id cs
      ≡ add_to id (key_unless_empty v (region_key v) cs)
unfolding replace_set_membership region_key is_empty text_eq
replace_region [] id cs = refl
replace_region (c ∷ v) id cs = refl

replace_city :
    (v : Text) (id : ℕ) (cs : List Text)
    → replace_set_membership (city_key v) id (not (is_empty v)) ++ add_to id cs
      ≡ add_to id (key_unless_empty v (city_key v) cs)
unfolding replace_set_membership city_key is_empty text_eq
replace_city [] id cs = refl
replace_city (c ∷ v) id cs = refl

replace_asn :
    (v : Text) (id : ℕ) (cs : List Text)
    → replace_set_membership (asn_key v) id (not (is_empty v)) ++ add_to id cs
      ≡ add_to id (key_unless_empty v (asn_key v) cs)
unfolding replace_set_membership asn_key is_empty text_eq
replace_asn [] id cs = refl
replace_asn (c ∷ v) id cs = refl

replace_isp :
    (v : Text) (id : ℕ)
    → replace_set_membership (isp_key v) id (not (is_empty v))
      ≡ add_to id (key_unless_empty v (isp_key v) [])
unfolding replace_set_membership isp_key is_empty text_eq
replace_isp [] id = refl
replace_isp (c ∷ v) id = refl

-- The transaction of CacheNode takes the node out of the sets of the cached one and into its own.
abbrev cache_plan : Option ProxyNode → ProxyNode → List Command
cache_plan previous node =
    set_node (node_key node.id) node
    ∷ ((if usable node then s_add healthy_nodes node.id else s_rem healthy_nodes node.id)
        ∷ (remove_from node.id (index_of previous) ++ add_to node.id (node_index_keys node)))

cache_commands-plan :
    (previous : Option ProxyNode) (node : ProxyNode)
    → cache_commands previous node ≡ cache_plan previous node
unfolding cache_commands node_index_keys
cache_commands-plan previous node =
    rw
      (
        replace_isp node.isp node.id,
        replace_asn node.asn node.id,
        replace_city node.city node.id,
        replace_region (node_region node) node.id,
      )
      refl

healthy_command :
    (k : Text) (id : ℕ) (node : ProxyNode) (cs : List Command) (b : Bool)
    → member_after k id
        ((if usable node then s_add healthy_nodes node.id else s_rem healthy_nodes node.id) ∷ cs)
        b
      ≡ member_after k id cs (if text_eq k healthy_nodes && (id == node.id) then usable node else b)
healthy_command k id node cs b = elim (Bool-cases (usable node)) [
  | inl e ↦ rw e refl
  | inr e ↦ rw e refl
]

healthy_nodes-index_of : (o : Option ProxyNode) → one_of healthy_nodes (index_of o) ≡ false
healthy_nodes-index_of none = unfold one_of in refl
healthy_nodes-index_of (some node) = healthy_nodes-index node

-- CacheNode: the set of the healthy nodes, and the sets that index nodes.
pub healthy_after-cache :
    (id : ℕ) (previous : Option ProxyNode) (node : ProxyNode) (b : Bool)
    → member_after healthy_nodes id (cache_commands previous node) b
      ≡ (if id == node.id then usable node else b)
healthy_after-cache id previous node b =
    rw
      (
        cache_commands-plan previous node,
        healthy_command healthy_nodes id node,
        member_after-append healthy_nodes id (remove_from node.id (index_of previous)),
        member_after-remove_from healthy_nodes id node.id (index_of previous),
        member_after-add_to healthy_nodes id node.id (node_index_keys node),
        healthy_nodes-index node,
        healthy_nodes-index_of previous,
        text_eq_refl healthy_nodes,
      )
      refl

pub index_after-cache :
    (k : Text) (id : ℕ) (previous : Option ProxyNode) (node : ProxyNode) (b : Bool)
    → is_index_key k ≡ true
    → member_after k id (cache_commands previous node) b ≡ (
        if id == node.id
        then one_of k (node_index_keys node) || (not (one_of k (index_of previous)) && b)
        else b)
index_after-cache k id previous node b h =
    rw
      (
        cache_commands-plan previous node,
        healthy_command k id node,
        member_after-append k id (remove_from node.id (index_of previous)),
        member_after-remove_from k id node.id (index_of previous),
        member_after-add_to k id node.id (node_index_keys node),
        index_key-ne k healthy_nodes h (unfold is_index_key in refl),
      )
      (ground arith)

healthy_entry :
    (k : Text) (node : ProxyNode) (cs : List Command) (o : Option ProxyNode)
    → entry_after k
        ((if usable node then s_add healthy_nodes node.id else s_rem healthy_nodes node.id) ∷ cs)
        o
      ≡ entry_after k cs o
healthy_entry k node cs o = elim (Bool-cases (usable node)) [
  | inl e ↦ rw e refl
  | inr e ↦ rw e refl
]

pub entry_after-cache :
    (id : ℕ) (previous : Option ProxyNode) (node : ProxyNode) (o : Option ProxyNode)
    → entry_after (node_key id) (cache_commands previous node) o
      ≡ (if id == node.id then some node else o)
entry_after-cache id previous node o =
    rw
      (
        cache_commands-plan previous node,
        healthy_entry (node_key id) node,
        entry_after-append (node_key id) (remove_from node.id (index_of previous)),
        entry_after-remove_from (node_key id) node.id (index_of previous),
        entry_after-add_to (node_key id) node.id (node_index_keys node),
        node_key-eq id node.id,
      )
      refl
