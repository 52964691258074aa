-- ===== src/Subscription/Links/Pruned.antt =====
-- What `pruneSubscriptionNodes` and `Delete` of subscription/service.go leave of a subscription's
-- links.
use mathlib.Core.Path.{subst}
use proxydeck.Prelude.{
  ℕ, ◌≡◌, refl, sym, ap, ◌∙◌, Bool, true, false, not, ◌&&◌, ◌||◌, ◌==◌, List, [], ◌∷◌, none, some,
  All, All-map, All-filter, filter, arith, Bool-cases, inl, inr, if◌then◌else◌,
}
use proxydeck.Errors.{Result, ok, err}
use proxydeck.Model.{ProxyNode}
use proxydeck.Redis.{Err}
use proxydeck.Subscription.Links.{
  Link, Tables, of_subscription, kept, and_then, forgotten, delete_row, delete_found, if_unlinked,
  delete_unlinked, prune_links, prune_found, prune_subscription_nodes,
}

pub paired {ℓ} : {A : Type ℓ} (p : Err × A) → p.0 ≡ none → p ≡ (none, p.1)
paired (a, b) e = rw e refl

module _ (d : Tables) where
  open d use {State}

  forgotten-links :
      (n : ProxyNode) (s : State) (p : Err × State)
      → (p.0 ≡ none → d.links p.1 ≡ d.links s)
      → (forgotten d n p).0 ≡ none
      → d.links (forgotten d n p).1 ≡ d.links s
  forgotten-links n s (some e, t) h q = cc
  forgotten-links n s (none, t) h q = (d.forget_ok n t).0 ∙ h refl

  pub delete_row-links :
      (n : ProxyNode) (s : State)
      → (delete_row d n s).0 ≡ none
      → d.links (delete_row d n s).1 ≡ d.links s
  unfolding delete_row
  delete_row-links n s =
      forgotten-links n s (d.delete_node n.id s) (λ e. (d.delete_node_ok n.id s _ (paired _ e)).0)

  delete_found-links :
      (res : Result ProxyNode) (s : State)
      → (delete_found d res s).0 ≡ none
      → d.links (delete_found d res s).1 ≡ d.links s
  delete_found-links (err e) s q = refl
  delete_found-links (ok n) s q = delete_row-links n s q

  pub if_unlinked-links :
      (res : Result ℕ) (k : State → Err × State) (s : State)
      → ((k s).0 ≡ none → d.links (k s).1 ≡ d.links s)
      → (if_unlinked d res k s).0 ≡ none
      → d.links (if_unlinked d res k s).1 ≡ d.links s
  if_unlinked-links (err e) k s h q = refl
  if_unlinked-links (ok n) k s h q = elim (Bool-cases (n == 0)) [
    | inl e ↦ rw e (h (subst (λ b. (if b then k s else (none, s)).0 ≡ none) e q))
    | inr e ↦ rw e refl
  ]

  delete_unlinked-links :
      (id : ℕ) (s : State)
      → (delete_unlinked d id s).0 ≡ none
      → d.links (delete_unlinked d id s).1 ≡ d.links s
  unfolding delete_unlinked
  delete_unlinked-links id s =
      if_unlinked-links (d.count_links id s) (λ u. delete_found d (d.first_node id u) u) s
        (delete_found-links (d.first_node id s) s)

  pub and_then-none :
      (p : Err × State) (k : State → Err × State)
      → (and_then d p k).0 ≡ none
      → (p ≡ (none, p.1)) × (and_then d p k ≡ k p.1)
  and_then-none (some e, s) k h = cc
  and_then-none (none, s) k h = (refl, refl)

-- The links that are left of some by the loop of pruneSubscriptionNodes.
remaining : List ℕ → List Link → List Link → List Link
remaining ids [] ms = ms
remaining ids (l ∷ ls) ms =
    remaining ids ls (if kept l.node_id ids then ms else filter (λ m. not (m.id == l.id)) ms)

-- Whether the loop deletes a link.
dropping : List ℕ → List Link → Link → Bool
dropping ids [] m = false
dropping ids (l ∷ ls) m = (not (kept l.node_id ids) && m.id == l.id) || dropping ids ls m

-- A link of another subscription, or one to a node that is kept.
abbrev pub is_kept : ℕ → List ℕ → Link → Bool
is_kept sub ids m = not (of_subscription sub m) || kept m.node_id ids

module _ (sub : ℕ) (ids : List ℕ) where
  All-dropping :
      (xs : List Link)
      → All (λ m. (is_kept sub ids m || dropping ids (filter (of_subscription sub) xs) m) ≡ true) xs
  unfolding dropping
  All-dropping [] = tt
  All-dropping (x ∷ xs) = elim (Bool-cases (of_subscription sub x)) [
    | inl e ↦ rw e (ground arith, All-map (λ m h. ground arith) xs (All-dropping xs))
    | inr e ↦
        let q : filter (of_subscription sub) xs ≡ filter (of_subscription sub) (x ∷ xs) =
          rw e refl in
        (
          rw e (ground arith),
          subst (λ fs. All (λ m. (is_kept sub ids m || dropping ids fs m) ≡ true) xs) q
              (All-dropping xs),
        )
  ]

  All-kept :
      (ls ms : List Link)
      → All (λ m. (is_kept sub ids m || dropping ids ls m) ≡ true) ms
      → All (λ m. is_kept sub ids m ≡ true) (remaining ids ls ms)
  unfolding dropping remaining
  All-kept [] ms h = All-map (λ m k. ground arith) ms h
  All-kept (l ∷ ls) ms h = elim (Bool-cases (kept l.node_id ids)) [
    | inl e ↦ All-kept ls _ (rw e (All-map (λ m k. ground arith) ms h))
    | inr e ↦
        All-kept ls _ (rw e (All-filter (λ m. not (m.id == l.id)) (λ m q k. ground arith) ms h))
  ]

module _ (d : Tables) where
  open d use {State}

  -- one round of the loop that deletes its link
  abbrev pub deleted : List ℕ → Link → List Link → State → Err × State
  deleted ids l ls s =
      and_then d (d.delete_link l s)
        (λ u. and_then d (delete_unlinked d l.node_id u) (λ v. prune_links d ids ls v))

  deleted-links :
      (ids : List ℕ) (l : Link) (ls : List Link) (s : State)
      → ((v : State)
          → (prune_links d ids ls v).0 ≡ none
          → d.links (prune_links d ids ls v).1 ≡ remaining ids ls (d.links v))
      → (deleted ids l ls s).0 ≡ none
      → d.links (deleted ids l ls s).1
        ≡ remaining ids ls (filter (λ m. not (m.id == l.id)) (d.links s))
  deleted-links ids l ls s ih h =
      let (a, b) = and_then-none d (d.delete_link l s) _ h in
      let u = (d.delete_link l s).1 in
      let h1 : (and_then d (delete_unlinked d l.node_id u) (λ v. prune_links d ids ls v)).0 ≡ none =
        ap (λ (p : Err × State). p.0) (sym b) ∙ h in
      let (e, f) = and_then-none d (delete_unlinked d l.node_id u) _ h1 in
      let v = (delete_unlinked d l.node_id u).1 in
      let h2 : (prune_links d ids ls v).0 ≡ none = ap (λ (p : Err × State). p.0) (sym f) ∙ h1 in
      let g : d.links v ≡ d.links u =
        delete_unlinked-links d l.node_id u (ap (λ (p : Err × State). p.0) e) in
      ap (λ (p : Err × State). d.links p.1) (b ∙ f)
      ∙ (ih v h2 ∙ ap (remaining ids ls) (g ∙ (d.delete_link_ok l s u a).0))

  prune_links-links :
      (ids : List ℕ) (ls : List Link) (s : State)
      → (prune_links d ids ls s).0 ≡ none
      → d.links (prune_links d ids ls s).1 ≡ remaining ids ls (d.links s)
  unfolding prune_links remaining
  prune_links-links ids [] s h = refl
  prune_links-links ids (l ∷ ls) s h = elim (Bool-cases (kept l.node_id ids)) [
    | inl e ↦ rw e (
        prune_links-links ids ls s
          (subst (λ b. (if b then prune_links d ids ls s else deleted ids l ls s).0 ≡ none) e h))
    | inr e ↦ rw e (
        deleted-links ids l ls s (λ v k. prune_links-links ids ls v k)
          (subst (λ b. (if b then prune_links d ids ls s else deleted ids l ls s).0 ≡ none) e h))
  ]

  prune_found-links :
      (sub : ℕ) (ids : List ℕ) (res : Result (List Link)) (s : State)
      → d.find_links sub s ≡ res
      → (prune_found d ids res s).0 ≡ none
      → All (λ m. is_kept sub ids m ≡ true) (d.links (prune_found d ids res s).1)
  prune_found-links sub ids (err e) s q h = cc
  prune_found-links sub ids (ok ls) s q h =
      rw (prune_links-links ids ls s h, d.find_links_ok sub s ls q)
        (All-kept sub ids _ _ (All-dropping sub ids (d.links s)))

  -- Where pruneSubscriptionNodes succeeds, the subscription has no links but those to the imported
  -- nodes.
  pub prune-kept :
      (sub : ℕ) (ids : List ℕ) (s : State)
      → (prune_subscription_nodes d sub ids s).0 ≡ none
      → All (λ m. is_kept sub ids m ≡ true) (d.links (prune_subscription_nodes d sub ids s).1)
  unfolding prune_subscription_nodes
  prune-kept sub ids s h = prune_found-links sub ids _ s refl h
