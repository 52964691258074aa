-- ===== src/Nodes/Index.antt =====
-- The invariant of the cached nodes of redisstore/store.go: the sets by region, city, ASN and ISP
-- and the set of the healthy nodes agree with the nodes that are cached.
use mathlib.Core.Path.{subst}
use proxydeck.Prelude.{
  ℕ, ◌≡◌, refl, ap, ◌∙◌, Bool, true, false, not, ◌&&◌, ◌||◌, Option, none, some, arith, ◌==◌,
  Bool-cases, inl, inr, if◌then◌else◌,
}
use proxydeck.Strings.{Text}
use proxydeck.Strings.Split.{has_prefix}
use proxydeck.Model.{ProxyNode}
use proxydeck.Redis.{Err}
use proxydeck.Nodes.{
  found, load_node, cache_node, remove_node, then_cleanup, cache_commands, remove_commands,
}
use proxydeck.Nodes.Keys.{node_key, healthy_nodes, index_key-sticky, node_key-sticky}
use proxydeck.Nodes.Commands.{NodeRedis}
use proxydeck.Nodes.Effect.{healthy_after-cache, index_after-cache, entry_after-cache}
use proxydeck.Nodes.Removal.{healthy_after-remove, index_after-remove, entry_after-remove}
use proxydeck.Nodes.Sticky.{Keeps, cleanup_sticky_for_node-Keeps}
use proxydeck.Nodes.Kinds.{
  Kind, value_of, index_key, has_value, is_usable, index_key-index, one_of-index_of,
  one_of-index_keys,
}

-- Every set holds exactly the ids of the cached nodes that have the value, or that are usable, and a
-- node is cached under its own id.
pub record Indexed (r : NodeRedis) (s : r.State) : Type 0 where
  pub healthy_members : (id : ℕ) → r.has s healthy_nodes id ≡ is_usable (r.entry s (node_key id))
  pub index_members :
      (kind : Kind) (v : Text) (id : ℕ)
      → r.has s (index_key kind v) id ≡ has_value kind v (r.entry s (node_key id))

cancel : (a b : Bool) → a || (not b && b) ≡ a
cancel a true = ground arith
cancel a false = ground arith

and_true : (a : Bool) → a && true ≡ a
and_true a = ground arith

and_false : (a : Bool) → a && false ≡ false
and_false a = ground arith

-- Nothing is cached, or the cached node has the values of the given one.
abbrev pub SameSets : Option ProxyNode → ProxyNode → Type 0
SameSets none node = Unit
SameSets (some n) node = (kind : Kind) → value_of kind n ≡ value_of kind node

SameSets-out :
    (o : Option ProxyNode) (node : ProxyNode) (kind : Kind) (v : Text)
    → SameSets o node
    → (if has_value kind v (some node) then false else has_value kind v o) ≡ false
SameSets-out none node kind v h = ground arith
SameSets-out (some n) node kind v h = rw (h kind) (ground arith)

module _ (r : NodeRedis) where
  open r use {State}

  Keeps-Indexed : (s t : State) → Keeps r s t → Indexed r s → Indexed r t
  Keeps-Indexed s t k h = record {
    healthy_members = λ id.
        k.members healthy_nodes id (unfold has_prefix in refl)
        ∙ rw (k.entries (node_key id) (node_key-sticky id)) (h.healthy_members id);
    index_members = λ kind v id.
        k.members (index_key kind v) id (index_key-sticky _ (index_key-index kind v))
        ∙ rw (k.entries (node_key id) (node_key-sticky id)) (h.index_members kind v id);
  }

  cached-Indexed :
      (node : ProxyNode) (s t : State)
      → found (load_node r node.id s) ≡ r.entry s (node_key node.id)
      → r.exec (cache_commands (found (load_node r node.id s)) node) s ≡ (none, t)
      → Indexed r s
      → Indexed r t
  cached-Indexed node s t g e h =
      let (m, n, _) = r.exec_ok _ s t e in
      let at : (id : ℕ)
          → r.entry t (node_key id)
            ≡ (if id == node.id then some node else r.entry s (node_key id)) =
        λ id. n (node_key id) ∙ entry_after-cache id _ node _ in
      record {
        healthy_members = λ id.
            m healthy_nodes id
            ∙ (healthy_after-cache id _ node _
                ∙ rw (at id, h.healthy_members id)
                    (elim (Bool-cases (id == node.id)) [ inl q ↦ rw q refl | inr q ↦ rw q refl ]));
        index_members = λ kind v id.
            m (index_key kind v) id
            ∙ (index_after-cache (index_key kind v) id _ node _ (index_key-index kind v)
                ∙ rw (at id, h.index_members kind v id, g, one_of-index_keys kind v node)
                    (elim (Bool-cases (id == node.id)) [
                      | inl q ↦
                          let i : id ≡ node.id = ground arith in
                          rw (q, one_of-index_of kind v (r.entry s (node_key node.id)), i)
                            (cancel (has_value kind v (some node))
                              (has_value kind v (r.entry s (node_key node.id))))
                      | inr q ↦ rw q refl
                    ]));
      }

  removed-Indexed :
      (node : ProxyNode) (s t : State)
      → r.exec (remove_commands node) s ≡ (none, t)
      → SameSets (r.entry s (node_key node.id)) node
      → Indexed r s
      → Indexed r t
  removed-Indexed node s t e same h =
      let (m, n, _) = r.exec_ok _ s t e in
      let at : (id : ℕ)
          → r.entry t (node_key id) ≡ (if id == node.id then none else r.entry s (node_key id)) =
        λ id. n (node_key id) ∙ entry_after-remove id node _ in
      record {
        healthy_members = λ id.
            m healthy_nodes id
            ∙ (healthy_after-remove id node _
                ∙ rw (at id, h.healthy_members id)
                    (elim (Bool-cases (id == node.id)) [ inl q ↦ rw q refl | inr q ↦ rw q refl ]));
        index_members = λ kind v id.
            m (index_key kind v) id
            ∙ (index_after-remove (index_key kind v) id node _ (index_key-index kind v)
                ∙ rw (at id, h.index_members kind v id, one_of-index_keys kind v node)
                    (elim (Bool-cases (id == node.id)) [
                      | inl q ↦
                          let i : id ≡ node.id = ground arith in
                          let out = SameSets-out (r.entry s (node_key node.id)) node kind v same in
                          rw (q, i) (rw (and_true (has_value kind v (some node))) out)
                      | inr q ↦ rw (q, and_false (has_value kind v (some node))) refl
                    ]));
      }

  then_cleanup-Keeps :
      (b : Bool) (id : ℕ) (p : Err × State) (t : State)
      → then_cleanup r b id p ≡ (none, t)
      → (p ≡ (none, p.1)) × Keeps r p.1 t
  then_cleanup-Keeps b id (some e, s) t h =
      let q : ◌≡◌ {A = Err} (some e) none = ap (λ (p : Err × State). p.0) h in cc
  then_cleanup-Keeps true id (none, s) t h = (refl, cleanup_sticky_for_node-Keeps r id s t h)
  then_cleanup-Keeps false id (none, s) t h = (
    refl,
    subst (Keeps r s) (ap (λ (p : Err × State). p.1) h)
        (record { members = λ k i e. refl; entries = λ k e. refl }),
  )

-- A call of CacheNode or RemoveNode that succeeds. CacheNode can read the node that is cached, and
-- RemoveNode is called with a row that has the values of the node that is cached.
pub data Step (r : NodeRedis) : r.State → r.State → Type 0 where
  caching :
      (node : ProxyNode) (s t : r.State)
      → found (load_node r node.id s) ≡ r.entry s (node_key node.id)
      → cache_node r node s ≡ (none, t)
      → Step r s t
  removing :
      (node : ProxyNode) (s t : r.State)
      → SameSets (r.entry s (node_key node.id)) node
      → remove_node r node s ≡ (none, t)
      → Step r s t

-- Any number of such calls.
pub data Steps (r : NodeRedis) : r.State → r.State → Type 0 where
  stay : (s : r.State) → Steps r s s
  next : (s t u : r.State) → Step r s t → Steps r t u → Steps r s u

module _ (r : NodeRedis) where
  open r use {State}

  Step-Indexed : (s t : State) → Step r s t → Indexed r s → Indexed r t
  unfolding cache_node remove_node
  Step-Indexed _ _ (caching node s t g e) h =
      let (q, k) = then_cleanup-Keeps r _ _ _ t e in
      Keeps-Indexed r _ t k (cached-Indexed r node s _ g q h)
  Step-Indexed _ _ (removing node s t g e) h =
      let (q, k) = then_cleanup-Keeps r true node.id _ t e in
      Keeps-Indexed r _ t k (removed-Indexed r node s _ q g h)

  -- Calls of CacheNode and RemoveNode that succeed keep the sets in agreement with the nodes that
  -- are cached, if CacheNode can read the node that is cached and RemoveNode is called with a row
  -- that has its values.
  pub Steps-Indexed : (s t : State) → Steps r s t → Indexed r s → Indexed r t
  Steps-Indexed _ _ (stay s) h = h
  Steps-Indexed _ _ (next s t u p q) h = Steps-Indexed t u q (Step-Indexed s t p h)
