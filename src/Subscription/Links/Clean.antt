-- ===== src/Subscription/Links/Clean.antt =====
-- Links never dangle: what `pruneSubscriptionNodes` and `Delete` of subscription/service.go leave
-- behind.
use mathlib.Core.Path.{subst}
use proxydeck.Prelude.{
  ℕ, ◌≡◌, refl, sym, ap, ◌∙◌, true, not, ◌==◌, List, [], ◌∷◌, none, All, All-filter, filter,
  Bool-cases, inl, inr, if◌then◌else◌,
}
use proxydeck.Errors.{Result, ok, err}
use proxydeck.Model.{ProxyNode}
use proxydeck.Redis.{Err}
use proxydeck.Subscription.Links.{
  Link, Tables, of_subscription, kept, and_then, delete_row, if_unlinked, delete_unlinked,
  prune_links, prune_found, prune_subscription_nodes, delete_nodes, delete_from, delete_all,
}
use proxydeck.Subscription.Links.Pruned.{
  paired, and_then-none, deleted, delete_row-links, if_unlinked-links, is_kept, prune-kept,
}
use proxydeck.Subscription.Links.Linked.{
  Linked, delete_row-Linked, if_unlinked-Linked, delete_unlinked-Linked,
}

module _ (d : Tables) where
  open d use {State}

  deleted-Linked :
      (ids : List ℕ) (l : Link) (ls : List Link) (s : State)
      → ((v : State)
          → Linked d v
          → (prune_links d ids ls v).0 ≡ none
          → Linked d (prune_links d ids ls v).1)
      → Linked d s
      → (deleted d ids l ls s).0 ≡ none
      → Linked d (deleted d ids l ls s).1
  deleted-Linked ids l ls s ih k h =
      let (a, b) = and_then-none d (d.delete_link l s) _ h in
      let u = (d.delete_link l s).1 in
      let (x, y) = d.delete_link_ok l s u a in
      let k1 : Linked d u =
        rw (x, y) (All-filter (λ m. not (m.id == l.id)) (λ m q p. p) (d.links s) k) in
      let h1 : (and_then d (delete_unlinked d l.node_id u) (λ v. prune_links d ids ls v)).0 ≡ none =
        ap (λ (p : Err × State). p.0) (sym b) ∙ h in
      let (e, f) = and_then-none d (delete_unlinked d l.node_id u) _ h1 in
      let v = (delete_unlinked d l.node_id u).1 in
      let h2 : (prune_links d ids ls v).0 ≡ none = ap (λ (p : Err × State). p.0) (sym f) ∙ h1 in
      let k2 : Linked d v =
        delete_unlinked-Linked d l.node_id u k1 (ap (λ (p : Err × State). p.0) e) in
      subst (λ (p : Err × State). Linked d p.1) (sym (b ∙ f)) (ih v k2 h2)

  prune_links-Linked :
      (ids : List ℕ) (ls : List Link) (s : State)
      → Linked d s
      → (prune_links d ids ls s).0 ≡ none
      → Linked d (prune_links d ids ls s).1
  unfolding prune_links
  prune_links-Linked ids [] s k h = k
  prune_links-Linked ids (l ∷ ls) s k h = elim (Bool-cases (kept l.node_id ids)) [
    | inl e ↦ rw e (
        prune_links-Linked ids ls s k
          (subst (λ b. (if b then prune_links d ids ls s else deleted d ids l ls s).0 ≡ none) e h))
    | inr e ↦ rw e (
        deleted-Linked ids l ls s (λ v p q. prune_links-Linked ids ls v p q) k
          (subst (λ b. (if b then prune_links d ids ls s else deleted d ids l ls s).0 ≡ none) e h))
  ]

  prune_found-Linked :
      (ids : List ℕ) (res : Result (List Link)) (s : State)
      → Linked d s
      → (prune_found d ids res s).0 ≡ none
      → Linked d (prune_found d ids res s).1
  prune_found-Linked ids (err e) s k h = cc
  prune_found-Linked ids (ok ls) s k h = prune_links-Linked ids ls s k h

  -- Where pruneSubscriptionNodes succeeds, the subscription has no links but those to the imported
  -- nodes, and every link still leads to a node, if every link did before.
  pub prune-Linked :
      (sub : ℕ) (ids : List ℕ) (s : State)
      → Linked d s
      → (prune_subscription_nodes d sub ids s).0 ≡ none
      → All (λ m. is_kept sub ids m ≡ true) (d.links (prune_subscription_nodes d sub ids s).1)
        × Linked d (prune_subscription_nodes d sub ids s).1
  unfolding prune_subscription_nodes
  prune-Linked sub ids s k h = (prune-kept d sub ids s h, prune_found-Linked ids _ s k h)

  delete_nodes-Linked :
      (ns : List ProxyNode) (s : State)
      → Linked d s
      → (delete_nodes d ns s).0 ≡ none
      → Linked d (delete_nodes d ns s).1 × (d.links (delete_nodes d ns s).1 ≡ d.links s)
  unfolding delete_nodes
  delete_nodes-Linked [] s k h = (k, refl)
  delete_nodes-Linked (n ∷ ns) s k h =
      let first = if_unlinked d (d.count_links n.id s) (λ u. delete_row d n u) s in
      let (a, b) = and_then-none d first (λ u. delete_nodes d ns u) h in
      let u = first.1 in
      let h0 : first.0 ≡ none = ap (λ (p : Err × State). p.0) a in
      let k1 : Linked d u =
        if_unlinked-Linked d n.id (λ u. delete_row d n u) s _ refl
          (λ x q. delete_row-Linked d n s x k q) k h0 in
      let e : d.links u ≡ d.links s =
        if_unlinked-links d (d.count_links n.id s) (λ u. delete_row d n u) s
          (delete_row-links d n s) h0 in
      let h1 : (delete_nodes d ns u).0 ≡ none = ap (λ (p : Err × State). p.0) (sym b) ∙ h in
      let (x, y) = delete_nodes-Linked ns u k1 h1 in
      subst (λ (p : Err × State). Linked d p.1 × (d.links p.1 ≡ d.links s)) (sym b) (x, y ∙ e)

  delete_from-Linked :
      (sub : ℕ) (res : Result (List ProxyNode)) (s : State)
      → Linked d s
      → (delete_from d sub res s).0 ≡ none
      → (d.links (delete_from d sub res s).1
          ≡ filter (λ m. not (of_subscription sub m)) (d.links s))
        × Linked d (delete_from d sub res s).1
  delete_from-Linked sub (err e) s k h = cc
  delete_from-Linked sub (ok ns) s k h =
      let (a, b) = and_then-none d (d.delete_links sub s) _ h in
      let u = (d.delete_links sub s).1 in
      let (x, y) = d.delete_links_ok sub s u a in
      let k1 : Linked d u =
        rw (x, y) (All-filter (λ m. not (of_subscription sub m)) (λ m q p. p) (d.links s) k) in
      let h1 : (and_then d (delete_nodes d ns u) (λ v. d.delete_subscription sub v)).0 ≡ none =
        ap (λ (p : Err × State). p.0) (sym b) ∙ h in
      let (e, f) = and_then-none d (delete_nodes d ns u) (λ v. d.delete_subscription sub v) h1 in
      let v = (delete_nodes d ns u).1 in
      let (k2, g) = delete_nodes-Linked ns u k1 (ap (λ (p : Err × State). p.0) e) in
      let h2 : (d.delete_subscription sub v).0 ≡ none =
        ap (λ (p : Err × State). p.0) (sym f) ∙ h1 in
      let (i, j) = d.delete_subscription_ok sub v _ (paired _ h2) in
      subst
        (λ (p : Err × State).
          (d.links p.1 ≡ filter (λ m. not (of_subscription sub m)) (d.links s)) × Linked d p.1)
        (sym (b ∙ f)) (i ∙ (g ∙ x), rw (i, j) k2)

  -- Where Delete succeeds, the links of the subscription are gone and the others are left, and every
  -- link still leads to a node, if every link did before.
  pub delete-Linked :
      (sub : ℕ) (s : State)
      → Linked d s
      → (delete_all d sub s).0 ≡ none
      → (d.links (delete_all d sub s).1 ≡ filter (λ m. not (of_subscription sub m)) (d.links s))
        × Linked d (delete_all d sub s).1
  unfolding delete_all
  delete-Linked sub s k h = delete_from-Linked sub _ s k h
