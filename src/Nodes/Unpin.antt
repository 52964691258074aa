-- ===== src/Nodes/Unpin.antt =====
-- What CacheNode and RemoveNode of redisstore/store.go do to the sticky sessions.
use proxydeck.Prelude.{◌≡◌, ◌⊎◌, ap, ℕ, true, false, none, some, inl, inr, not}
use mathlib.Core.Path.{subst}
use proxydeck.Errors.{ok}
use proxydeck.Strings.{Text}
use proxydeck.Model.{ProxyNode}
use proxydeck.Redis.{Err}
use proxydeck.Nodes.{
  usable, cache_node, remove_node, then_cleanup, cache_commands, found, load_node,
}
use proxydeck.Nodes.Commands.{NodeRedis}
use proxydeck.Nodes.Sticky.{Unpinned, cleanup_sticky_for_node-Unpinned}

module _ (r : NodeRedis)
    (reads : (s : r.State) (k : Text) (i : ℕ)
      → r.pointer s k ≡ some i
      → r.get_uint k s ≡ ok i) where
  open r use {State}

  then_cleanup-Unpinned :
      (id : ℕ) (p : Err × State) (t : State)
      → then_cleanup r true id p ≡ (none, t)
      → Unpinned r id t
  then_cleanup-Unpinned id (some e, s) t h =
      let q : ◌≡◌ {A = Err} (some e) none = ap (λ (p : Err × State). p.0) h in cc
  then_cleanup-Unpinned id (none, s) t h = cleanup_sticky_for_node-Unpinned r s (reads s) id t h

  -- After CacheNode of a node that is unhealthy or disabled, or RemoveNode of any node, no sticky
  -- session points to the node, if the call succeeds and every sticky key can be read.
  pub retired-Unpinned :
      (node : ProxyNode) (s t : State)
      → ((usable node ≡ false) × (cache_node r node s ≡ (none, t)))
        ⊎ (remove_node r node s ≡ (none, t))
      → Unpinned r node.id t
  unfolding cache_node remove_node
  retired-Unpinned node s t (inl (u, h)) = then_cleanup-Unpinned node.id _ t (
      subst
        (λ b.
          then_cleanup r (not b) node.id
            (r.exec (cache_commands (found (load_node r node.id s)) node) s)
          ≡ (none, t))
        u h)
  retired-Unpinned node s t (inr h) = then_cleanup-Unpinned node.id _ t h
