-- ===== src/Tests/Nodes.antt =====
-- The theorems on the cached nodes of redisstore/store.go and on selector/service.go at concrete
-- nodes.
use proxydeck.Strings.Number.{format_uint, parse_uint}
use proxydeck.Strings.Split.{has_prefix}
use proxydeck.Prelude.{
  ◌≡◌, refl, Bool, true, false, List, [], ◌∷◌, none, some, inl, inr, filter, ℕ, Bool-cases,
  if◌then◌else◌,
}
use mathlib.Core.Path.{subst}
use proxydeck.Errors.{Result, ok, err, record_not_found}
use proxydeck.Strings.{is_empty, text_eq, Text, lit}
use proxydeck.Model.{ProxyNode}
use proxydeck.Nodes.{parse_uint_members, load_node, cache_node, remove_node, usable, cache_commands}
use proxydeck.Nodes.Keys.{isp_key, asn_key, city_key, node_key, region_key}
use proxydeck.Nodes.Reference.{Store, reference, run, pointed, as_result}
use proxydeck.Nodes.Index.{Indexed, Steps, caching, stay, next, Steps-Indexed}
use proxydeck.Nodes.Sticky.{Unpinned}
use proxydeck.Nodes.Unpin.{retired-Unpinned}
use proxydeck.Selector.Username.{Filters, no_filters}
use proxydeck.Selector.Pick.{NodeTable, pick, meets}
use proxydeck.Selector.Pick.Sound.{pick-meets}
use proxydeck.Selector.Pick.Usable.{pick-usable}
use proxydeck.Selector.Pick.Finds.{pick-finds}
use proxydeck.Selector.Pick.Session.{pick-again}
use proxydeck.Tests.{node}

-- Nothing is stored.
abbrev empty : Store
empty = (λ k id. false, λ k. none, [])

-- The node is cached, and a session points to it.
abbrev cached : Store
cached = run (cache_commands none node) empty

abbrev pinned : Store
pinned = (cached.0, cached.1, (lit "sticky:bob:h:demo", 7) ∷ [])

abbrev disabled_node : ProxyNode
disabled_node = record node { disabled = true }

abbrev pub head_or : List ProxyNode → Result ProxyNode
head_or [] = err record_not_found
head_or (n ∷ ns) = ok n

pub filter-head :
    (p : ProxyNode → Bool) (ns : List ProxyNode) (n : ProxyNode)
    → head_or (filter p ns) ≡ ok n
    → p n ≡ true
filter-head p [] n h = cc
filter-head p (m ∷ ns) n h = elim (Bool-cases (p m)) [
  | inl e ↦
      let q : head_or (m ∷ filter p ns) ≡ ok n =
        subst (λ b. head_or (if b then m ∷ filter p ns else filter p ns) ≡ ok n) e h in
      let i : m ≡ n = cc in subst (λ x. p x ≡ true) i e
  | inr e ↦
      filter-head p ns n
        (subst (λ b. head_or (if b then m ∷ filter p ns else filter p ns) ≡ ok n) e h)
]

ok-rows : (ms ns : List ProxyNode) → ◌≡◌ {A = Result (List ProxyNode)} (ok ms) (ok ns) → ns ≡ ms
ok-rows ms ns h = cc

-- A database with the node.
abbrev table : NodeTable
table = record {
  rows = node ∷ [];
  find = λ p. ok (filter p (node ∷ []));
  first = λ p. head_or (filter p (node ∷ []));
  find_ok = λ p ns h. ok-rows _ ns h;
  first_ok = λ p n h. filter-head p (node ∷ []) n h;
}

reads : (s : Store) (k : Text) (i : ℕ) → pointed s.2 k ≡ some i → as_result (pointed s.2 k) ≡ ok i
reads s k i h = rw h refl

empty-Indexed : Indexed reference empty
empty-Indexed = record { healthy_members = λ id. refl; index_members = λ kind v id. refl }

cached-Steps : Steps reference empty cached
unfolding load_node cache_node
cached-Steps = next empty cached cached (caching node empty cached refl refl) (stay cached)

Steps-Indexed_example : Indexed reference cached
Steps-Indexed_example = Steps-Indexed reference empty cached cached-Steps empty-Indexed

abbrev unpinned : Store
unpinned = (remove_node reference node pinned).1

retired-Unpinned_example : Unpinned reference 7 unpinned
unfolding remove_node has_prefix text_eq
retired-Unpinned_example = retired-Unpinned reference reads node pinned unpinned (inr refl)

abbrev us : Filters
us = record no_filters { region = lit "US" }

abbrev session : Filters
session = record us { sid = lit "demo" }

pick-meets_example : meets us node ≡ true
unfolding is_empty pick parse_uint_members cache_commands text_eq region_key city_key asn_key
    isp_key parse_uint format_uint load_node node_key
pick-meets_example =
    pick-meets reference table (λ t. t) (λ n. 0) (lit "bob") us cached cached node
      Steps-Indexed_example refl refl

pick-usable_example : usable node ≡ true
unfolding pick is_empty parse_uint_members cache_commands text_eq region_key city_key asn_key
    isp_key parse_uint format_uint load_node node_key
pick-usable_example =
    pick-usable reference table (λ t. t) (λ n. 0) (lit "bob") us cached cached node refl

pick-finds_example :
    (n : ProxyNode) × ((pick reference table (λ t. t) (λ n. 0) (lit "bob") us empty).0 ≡ ok n)
unfolding is_empty text_eq
pick-finds_example =
    pick-finds reference table (λ t. t) (λ n. 0) (λ ks s. (_, refl)) (λ p. refl) us node [] refl
      (lit "bob") empty

abbrev after : Store
after = (pick reference table (λ t. t) (λ n. 0) (lit "bob") session cached).1

pick-again_example :
    (pick reference table (λ t. t) (λ n. 0) (lit "bob") session after ≡ (ok node, after))
    × (node.id ≡ node.id)
unfolding is_empty pick parse_uint_members cache_commands text_eq region_key city_key asn_key
    isp_key parse_uint format_uint load_node node_key
pick-again_example =
    pick-again reference table (λ t. t) (λ n. 0) reads (λ s k i. refl) (lit "bob") session cached
      after node node refl refl refl
