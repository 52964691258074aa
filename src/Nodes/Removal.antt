-- ===== src/Nodes/Removal.antt =====
-- What the transaction of RemoveNode does to the sets and to the cached nodes.
use proxydeck.Prelude.{
  ℕ, ◌≡◌, refl, Bool, true, false, ◌&&◌, List, [], ◌∷◌, ◌++◌, Option, none, arith, ◌==◌,
  if◌then◌else◌,
}
use proxydeck.Strings.{Text, lit, text_eq, text_eq_refl}
use proxydeck.Subscription.Protocol.{one_of}
use proxydeck.Model.{ProxyNode}
use proxydeck.Redis.{node_usage_key, node_requests_key}
use proxydeck.Nodes.{remove_from, remove_commands}
use proxydeck.Nodes.Keys.{
  node_key, healthy_nodes, node_index_keys, is_index_key, index_key-ne, node_key-index,
  healthy_nodes-index, node_key-eq,
}
use proxydeck.Nodes.Commands.{del_keys, s_rem, member_after, entry_after}
use proxydeck.Nodes.Effect.{
  member_after-append, entry_after-append, member_after-remove_from, entry_after-remove_from,
}

abbrev counters_of : ProxyNode → List Text
counters_of node =
    node_usage_key node.id (lit "upload")
    ∷ (node_usage_key node.id (lit "download") ∷ (node_requests_key node.id ∷ []))

removal :
    (node : ProxyNode)
    → remove_commands node
      ≡ del_keys (node_key node.id ∷ [])
        ∷ (s_rem healthy_nodes node.id
            ∷ (remove_from node.id (node_index_keys node) ++ (del_keys (counters_of node) ∷ [])))
unfolding remove_commands
removal node = refl

one_of-uncached :
    (k : Text) (node : ProxyNode) → is_index_key k ≡ true → one_of k (node_key node.id ∷ []) ≡ false
unfolding one_of
one_of-uncached k node h = rw (index_key-ne k (node_key node.id) h (node_key-index node.id)) refl

one_of-uncounted :
    (k : Text) (node : ProxyNode) → is_index_key k ≡ true → one_of k (counters_of node) ≡ false
unfolding one_of
one_of-uncounted k node h =
    rw
      (
        index_key-ne k (node_usage_key node.id (lit "upload")) h
            (unfold is_index_key node_usage_key in refl),
        index_key-ne k (node_usage_key node.id (lit "download")) h
            (unfold is_index_key node_usage_key in refl),
        index_key-ne k (node_requests_key node.id) h
            (unfold is_index_key node_requests_key in refl),
      )
      refl

one_of-node_key :
    (id : ℕ) (node : ProxyNode) → one_of (node_key id) (node_key node.id ∷ []) ≡ (id == node.id)
unfolding one_of
one_of-node_key id node = rw (node_key-eq id node.id) (ground arith)

pub healthy_after-remove :
    (id : ℕ) (node : ProxyNode) (b : Bool)
    → member_after healthy_nodes id (remove_commands node) b ≡ (if id == node.id then false else b)
healthy_after-remove id node b =
    rw
      (
        removal node,
        member_after-append healthy_nodes id (remove_from node.id (node_index_keys node)),
        member_after-remove_from healthy_nodes id node.id (node_index_keys node),
        healthy_nodes-index node,
        text_eq_refl healthy_nodes,
      )
      (unfold one_of text_eq node_key node_usage_key node_requests_key in refl)

pub index_after-remove :
    (k : Text) (id : ℕ) (node : ProxyNode) (b : Bool)
    → is_index_key k ≡ true
    → member_after k id (remove_commands node) b
      ≡ (if one_of k (node_index_keys node) && (id == node.id) then false else b)
index_after-remove k id node b h =
    rw
      (
        removal node,
        member_after-append k id (remove_from node.id (node_index_keys node)),
        member_after-remove_from k id node.id (node_index_keys node),
        index_key-ne k healthy_nodes h (unfold is_index_key in refl),
        one_of-uncounted k node h,
        one_of-uncached k node h,
      )
      refl

pub entry_after-remove :
    (id : ℕ) (node : ProxyNode) (o : Option ProxyNode)
    → entry_after (node_key id) (remove_commands node) o ≡ (if id == node.id then none else o)
entry_after-remove id node o =
    rw
      (
        removal node,
        entry_after-append (node_key id) (remove_from node.id (node_index_keys node)),
        entry_after-remove_from (node_key id) node.id (node_index_keys node),
        one_of-node_key id node,
      )
      (unfold one_of text_eq node_key node_usage_key node_requests_key in refl)
