-- ===== src/Subscription/Links/Linked.antt =====
-- Links that never dangle: deleting a node that no link leads to, in subscription/service.go.
use mathlib.Core.Path.{subst}
use proxydeck.Prelude.{
  ℕ, ◌≡◌, refl, ◌∙◌, Bool, true, false, not, ◌||◌, ◌==◌, List, [], ◌∷◌, none, some, All, All-map,
  length, filter, arith, Bool-cases, inl, inr, if◌then◌else◌,
}
use proxydeck.Errors.{Result, ok, err}
use proxydeck.Model.{ProxyNode}
use proxydeck.Redis.{Err}
use proxydeck.Subscription.Links.{
  Link, Tables, to_node, has_id, forgotten, delete_row, delete_found, if_unlinked, delete_unlinked,
}

abbrev pub has_row : ℕ → List ProxyNode → Bool
has_row id [] = false
has_row id (n ∷ ns) = has_id id n || has_row id ns

-- Every link leads to a node of the table.
abbrev pub LinkedTo : List ProxyNode → List Link → Type 0
LinkedTo ns = All (λ l. has_row l.node_id ns ≡ true)

unlinked :
    (id : ℕ) (ls : List Link)
    → (length (filter (to_node id) ls) == 0) ≡ true
    → All (λ l. to_node id l ≡ false) ls
unlinked id [] h = tt
unlinked id (l ∷ ls) h = elim (Bool-cases (to_node id l)) [
  | inl e ↦
      let q : (length (l ∷ filter (to_node id) ls) == 0) ≡ true =
        subst
          (λ b.
            (length (if b then l ∷ filter (to_node id) ls else filter (to_node id) ls) == 0) ≡ true)
          e h in
      ground arith
  | inr e ↦ (
    e,
    unlinked id ls (
        subst
          (λ b.
            (length (if b then l ∷ filter (to_node id) ls else filter (to_node id) ls) == 0) ≡ true)
          e h),
  )
]

has_row-filter :
    (id j : ℕ) (ns : List ProxyNode)
    → (id == j) ≡ false
    → has_row id ns ≡ true
    → has_row id (filter (λ n. not (has_id j n)) ns) ≡ true
has_row-filter id j [] h k = k
has_row-filter id j (n ∷ ns) h k = elim (Bool-cases (has_id j n)) [
  | inl e ↦ rw e (has_row-filter id j ns h (ground arith))
  | inr e ↦ elim (Bool-cases (has_id id n)) [
    | inl f ↦ rw (e, f) (ground arith)
    | inr f ↦ rw (e, f, has_row-filter id j ns h (ground arith)) refl
  ]
]

All-both {ℓ κ ν} :
    {A : Type ℓ} (P : A → Type κ) (Q : A → Type ν) (xs : List A)
    → All P xs
    → All Q xs
    → All (λ x. P x × Q x) xs
All-both P Q [] h k = tt
All-both P Q (x ∷ xs) h k = ((h.0, k.0), All-both P Q xs h.1 k.1)

LinkedTo-filter :
    (j : ℕ) (ns : List ProxyNode) (ls : List Link)
    → LinkedTo ns ls
    → All (λ l. to_node j l ≡ false) ls
    → LinkedTo (filter (λ n. not (has_id j n)) ns) ls
LinkedTo-filter j ns ls h k =
    All-map (λ l p. has_row-filter l.node_id j ns p.1 p.0) ls (All-both _ _ ls h k)

module _ (d : Tables) where
  open d use {State}

  abbrev pub Linked : State → Type 0
  Linked s = LinkedTo (d.nodes s) (d.links s)

  delete_row-nodes :
      (n : ProxyNode) (s : State) (p : Err × State)
      → d.delete_node n.id s ≡ p
      → (forgotten d n p).0 ≡ none
      → (d.links (forgotten d n p).1 ≡ d.links s)
        × (d.nodes (forgotten d n p).1 ≡ filter (λ m. not (has_id n.id m)) (d.nodes s))
  delete_row-nodes n s (some e, t) q h = cc
  delete_row-nodes n s (none, t) q h =
      let (a, b) = d.forget_ok n t in let (x, y) = d.delete_node_ok n.id s t q in (a ∙ x, b ∙ y)

  pub delete_row-Linked :
      (n : ProxyNode) (s : State)
      → All (λ l. to_node n.id l ≡ false) (d.links s)
      → Linked s
      → (delete_row d n s).0 ≡ none
      → Linked (delete_row d n s).1
  unfolding delete_row
  delete_row-Linked n s u k h =
      let (a, b) = delete_row-nodes n s _ refl h in
      rw (a, b) (LinkedTo-filter n.id (d.nodes s) (d.links s) k u)

  pub if_unlinked-Linked :
      (id : ℕ) (k : State → Err × State) (s : State) (res : Result ℕ)
      → d.count_links id s ≡ res
      → (All (λ l. to_node id l ≡ false) (d.links s) → (k s).0 ≡ none → Linked (k s).1)
      → Linked s
      → (if_unlinked d res k s).0 ≡ none
      → Linked (if_unlinked d res k s).1
  if_unlinked-Linked id k s (err e) q f h p = h
  if_unlinked-Linked id k s (ok n) q f h p = elim (Bool-cases (n == 0)) [
    | inl e ↦
        let c : (length (filter (to_node id) (d.links s)) == 0) ≡ true =
          subst (λ m. (m == 0) ≡ true) (d.count_links_ok id s n q) e in
        rw e
          (f (unlinked id (d.links s) c) (subst (λ b. (if b then k s else (none, s)).0 ≡ none) e p))
    | inr e ↦ rw e h
  ]

  found-Linked :
      (id : ℕ) (res : Result ProxyNode) (s : State)
      → d.first_node id s ≡ res
      → Linked s
      → All (λ l. to_node id l ≡ false) (d.links s)
      → (delete_found d res s).0 ≡ none
      → Linked (delete_found d res s).1
  found-Linked id (err e) s q h u p = h
  found-Linked id (ok n) s q h u p = delete_row-Linked n s (rw (d.first_node_ok id s n q) u) h p

  pub delete_unlinked-Linked :
      (id : ℕ) (s : State)
      → Linked s
      → (delete_unlinked d id s).0 ≡ none
      → Linked (delete_unlinked d id s).1
  unfolding delete_unlinked
  delete_unlinked-Linked id s h p =
      if_unlinked-Linked id (λ u. delete_found d (d.first_node id u) u) s _ refl
        (λ u q. found-Linked id _ s refl h u q) h p
