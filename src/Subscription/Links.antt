-- ===== src/Subscription/Links.antt =====
-- The links between subscriptions and nodes in subscription/service.go: `Delete` and
-- `pruneSubscriptionNodes`. The database's tables are an interface; its laws state what the commands
-- do when they succeed.
pub mod Pruned
pub mod Linked
pub mod Clean
use proxydeck.Prelude.{
  ℕ, ◌≡◌, Bool, true, false, not, ◌&&◌, ◌||◌, ◌==◌, List, [], ◌∷◌, Option, none, some, length,
  filter, if◌then◌else◌,
}
use proxydeck.Errors.{Error, Result, ok, err}
use proxydeck.Model.{ProxyNode}
use proxydeck.Redis.{Err}

-- `SubscriptionNode`, without its tags
pub record Link : Type 0 where
  pub id : ℕ
  pub subscription_id : ℕ
  pub node_id : ℕ

abbrev pub of_subscription : ℕ → Link → Bool
of_subscription sub l = l.subscription_id == sub

abbrev pub to_node : ℕ → Link → Bool
to_node id l = l.node_id == id

abbrev pub has_id : ℕ → ProxyNode → Bool
has_id id n = n.id == id

pub record Tables : Type 1 where
  pub State : Type 0
  pub links : State → List Link
  pub nodes : State → List ProxyNode
  -- Find, of links and of the nodes that a subscription's links lead to; First; Count
  pub find_links : ℕ → State → Result (List Link)
  pub find_nodes : ℕ → State → Result (List ProxyNode)
  pub first_node : ℕ → State → Result ProxyNode
  pub count_links : ℕ → State → Result ℕ
  -- Delete, of one link, of a subscription's links, of a node and of a subscription
  pub delete_link : Link → State → Err × State
  pub delete_links : ℕ → State → Err × State
  pub delete_node : ℕ → State → Err × State
  pub delete_subscription : ℕ → State → Err × State
  -- RemoveNode of the cache, whose error is dropped
  pub forget : ProxyNode → State → State
  pub find_links_ok :
      (sub : ℕ) (s : State) (ls : List Link)
      → find_links sub s ≡ ok ls
      → ls ≡ filter (of_subscription sub) (links s)
  pub count_links_ok :
      (id : ℕ) (s : State) (n : ℕ)
      → count_links id s ≡ ok n
      → n ≡ length (filter (to_node id) (links s))
  pub first_node_ok : (id : ℕ) (s : State) (n : ProxyNode) → first_node id s ≡ ok n → n.id ≡ id
  pub delete_link_ok :
      (l : Link) (s t : State)
      → delete_link l s ≡ (none, t)
      → (links t ≡ filter (λ m. not (m.id == l.id)) (links s)) × (nodes t ≡ nodes s)
  pub delete_links_ok :
      (sub : ℕ) (s t : State)
      → delete_links sub s ≡ (none, t)
      → (links t ≡ filter (λ m. not (of_subscription sub m)) (links s)) × (nodes t ≡ nodes s)
  pub delete_node_ok :
      (id : ℕ) (s t : State)
      → delete_node id s ≡ (none, t)
      → (links t ≡ links s) × (nodes t ≡ filter (λ n. not (has_id id n)) (nodes s))
  pub delete_subscription_ok :
      (sub : ℕ) (s t : State)
      → delete_subscription sub s ≡ (none, t)
      → (links t ≡ links s) × (nodes t ≡ nodes s)
  pub forget_ok :
      (n : ProxyNode) (s : State) → (links (forget n s) ≡ links s) × (nodes (forget n s) ≡ nodes s)

-- `_, ok := keep[id]`
abbrev pub kept : ℕ → List ℕ → Bool
kept id [] = false
kept id (i ∷ ids) = i == id || kept id ids

module _ (d : Tables) where
  open d use {State}

  -- `if err := …; err != nil { return err }`
  abbrev pub and_then : Err × State → (State → Err × State) → Err × State
  and_then (some e, s) k = (some e, s)
  and_then (none, s) k = k s

  abbrev pub forgotten : ProxyNode → Err × State → Err × State
  forgotten n (some e, s) = (some e, s)
  forgotten n (none, s) = (none, d.forget n s)

  unfoldable pub delete_row : ProxyNode → State → Err × State
  delete_row n s = forgotten n (d.delete_node n.id s)

  abbrev pub delete_found : Result ProxyNode → State → Err × State
  delete_found (err e) s = (none, s)
  delete_found (ok n) s = delete_row n s

  -- `if count == 0`
  abbrev pub if_unlinked : Result ℕ → (State → Err × State) → State → Err × State
  if_unlinked (err e) k s = (some e, s)
  if_unlinked (ok n) k s = if n == 0 then k s else (none, s)

  unfoldable pub delete_unlinked : ℕ → State → Err × State
  unfolding delete_row
  delete_unlinked id s =
      if_unlinked (d.count_links id s) (λ u. delete_found (d.first_node id u) u) s

  -- the loop of `pruneSubscriptionNodes`
  unfoldable pub prune_links : List ℕ → List Link → State → Err × State
  unfolding delete_unlinked
  prune_links ids [] s = (none, s)
  prune_links ids (l ∷ ls) s =
      let rest = λ (u : State). prune_links ids ls u in
      if kept l.node_id ids
      then rest s
      else and_then (d.delete_link l s) (λ u. and_then (delete_unlinked l.node_id u) rest)

  abbrev pub prune_found : List ℕ → Result (List Link) → State → Err × State
  prune_found ids (err e) s = (some e, s)
  prune_found ids (ok ls) s = prune_links ids ls s

  unfoldable pub prune_subscription_nodes : ℕ → List ℕ → State → Err × State
  unfolding prune_links
  prune_subscription_nodes sub ids s = prune_found ids (d.find_links sub s) s

  -- the loop of `Delete`
  unfoldable pub delete_nodes : List ProxyNode → State → Err × State
  unfolding delete_row
  delete_nodes [] s = (none, s)
  delete_nodes (n ∷ ns) s =
      let rest = λ (u : State). delete_nodes ns u in
      and_then (if_unlinked (d.count_links n.id s) (λ u. delete_row n u) s) rest

  abbrev pub delete_from : ℕ → Result (List ProxyNode) → State → Err × State
  delete_from sub (err e) s = (some e, s)
  delete_from sub (ok ns) s =
      and_then (d.delete_links sub s)
        (λ u. and_then (delete_nodes ns u) (λ v. d.delete_subscription sub v))

  -- `Delete`
  unfoldable pub delete_all : ℕ → State → Err × State
  unfolding delete_nodes
  delete_all sub s = delete_from sub (d.find_nodes sub s) s
