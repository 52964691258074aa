-- ===== src/Nodes/Sticky.antt =====
-- What cleanupStickyForNode leaves alone, and what it removes.
use proxydeck.Prelude.{
  ℕ, ◌≡◌, ◌≢◌, ◌⊎◌, refl, sym, ap, ◌∙◌, true, false, List, [], ◌∷◌, none, some, All, arith, ◌==◌,
  Bool-cases, inl, inr, if◌then◌else◌,
}
use mathlib.Core.Path.{subst}
use proxydeck.Errors.{Result, ok, err}
use proxydeck.Strings.{Text, lit, text_eq, text_eq-ne, text_eq-eq}
use proxydeck.Subscription.Protocol.{one_of}
use proxydeck.Redis.{Err}
use proxydeck.Nodes.{sticky_of, points_to, delete_keys, cleanup_found, cleanup_sticky_for_node}
use proxydeck.Nodes.Keys.{is_sticky}
use proxydeck.Nodes.Commands.{NodeRedis}

-- The second state has the sets and the nodes of the first under every key that is not sticky.
pub record Keeps (r : NodeRedis) (s t : r.State) : Type 0 where
  pub members : (k : Text) (id : ℕ) → is_sticky k ≡ false → r.has t k id ≡ r.has s k id
  pub entries : (k : Text) → is_sticky k ≡ false → r.entry t k ≡ r.entry s k

one_of-sticky :
    (k : Text) (ks : List Text)
    → is_sticky k ≡ false
    → All (λ j. is_sticky j ≡ true) ks
    → one_of k ks ≡ false
unfolding one_of
one_of-sticky k [] h a = refl
one_of-sticky k (j ∷ ks) h (p, a) =
    rw
      (
        text_eq-ne k j (λ e. let q : is_sticky k ≡ is_sticky j = ap is_sticky e in cc),
        one_of-sticky k ks h a,
      )
      refl

module _ (r : NodeRedis) where
  Keeps-refl : (s : r.State) → Keeps r s s
  Keeps-refl s = record { members = λ k i e. refl; entries = λ k e. refl }

  open r use {State}

  sticky_of-All :
      (id : ℕ) (ks : List Text) (s : State)
      → All (λ j. is_sticky j ≡ true) ks
      → All (λ j. is_sticky j ≡ true) (sticky_of r id ks s)
  unfolding sticky_of
  sticky_of-All id [] s a = tt
  sticky_of-All id (k ∷ ks) s (p, a) = elim (Bool-cases (points_to r id (r.get_uint k s))) [
    | inl e ↦ rw e (p, sticky_of-All id ks s a)
    | inr e ↦ rw e (sticky_of-All id ks s a)
  ]

  sticky_of-finds :
      (id : ℕ) (k : Text) (ks : List Text) (s : State)
      → r.get_uint k s ≡ ok id
      → one_of k ks ≡ true
      → one_of k (sticky_of r id ks s) ≡ true
  unfolding sticky_of one_of
  sticky_of-finds id k [] s g h = cc
  sticky_of-finds id k (j ∷ ks) s g h = elim (Bool-cases (text_eq k j)) [
    | inl e ↦
        let p : k ≡ j = text_eq-eq k j e in
        let q : r.get_uint j s ≡ ok id = cc in
        let i : (id == id) ≡ true = ground arith in rw (q, i, e) refl
    | inr e ↦
        let ih : one_of k (sticky_of r id ks s) ≡ true =
          sticky_of-finds id k ks s g (ground arith) in
        elim (Bool-cases (points_to r id (r.get_uint j s))) [
          | inl f ↦ rw (f, e) ih
          | inr f ↦ rw f ih
        ]
  ]

  Keeps-del :
      (id : ℕ) (ks : List Text) (s t : State)
      → All (λ j. is_sticky j ≡ true) ks
      → delete_keys r ks s ≡ (none, t)
      → Keeps r s t
  Keeps-del id [] s t a h =
      let e : s ≡ t = ap (λ (p : Err × State). p.1) h in subst (Keeps r s) e (Keeps-refl s)
  Keeps-del id (k ∷ ks) s t a h =
      let (_, m, n) = r.del_ok (k ∷ ks) s t h in
      record {
        members = λ j i e. m j i ∙ rw (one_of-sticky j (k ∷ ks) e a) refl;
        entries = λ j e. n j ∙ rw (one_of-sticky j (k ∷ ks) e a) refl;
      }

  cleanup_found-Keeps :
      (id : ℕ) (res : Result (List Text)) (s t : State)
      → r.keys (lit "sticky:*") s ≡ res
      → cleanup_found r id res s ≡ (none, t)
      → Keeps r s t
  cleanup_found-Keeps id (err e) s t k h =
      let q : ◌≡◌ {A = Err} (some e) none = ap (λ (p : Err × State). p.0) h in cc
  cleanup_found-Keeps id (ok ks) s t k h =
      Keeps-del id (sticky_of r id ks s) s t (sticky_of-All id ks s (r.keys_ok s ks k).0) h

  pub cleanup_sticky_for_node-Keeps :
      (id : ℕ) (s t : State) → cleanup_sticky_for_node r id s ≡ (none, t) → Keeps r s t
  unfolding cleanup_sticky_for_node
  cleanup_sticky_for_node-Keeps id s t h = cleanup_found-Keeps id _ s t refl h

  -- No sticky key points to the node.
  abbrev pub Unpinned : ℕ → State → Type 0
  Unpinned id t = (k : Text) → (is_sticky k ≡ false) ⊎ (r.pointer t k ≢ some id)

  deleted_pointer :
      (ks : List Text) (s t : State) (k : Text)
      → delete_keys r ks s ≡ (none, t)
      → r.pointer t k ≡ (if one_of k ks then none else r.pointer s k)
  deleted_pointer [] s t k h =
      let e : s ≡ t = ap (λ (p : Err × State). p.1) h in
      unfold one_of in ap (λ x. r.pointer x k) (sym e)
  deleted_pointer (j ∷ ks) s t k h = (r.del_ok (j ∷ ks) s t h).0 k

  module _ (s : State)
      (reads : (k : Text) (i : ℕ) → r.pointer s k ≡ some i → r.get_uint k s ≡ ok i) where
    unpinned_at :
        (id : ℕ) (ks : List Text) (t : State) (k : Text)
        → r.keys (lit "sticky:*") s ≡ ok ks
        → delete_keys r (sticky_of r id ks s) s ≡ (none, t)
        → is_sticky k ≡ true
        → r.pointer t k ≢ some id
    unpinned_at id ks t k e h st p = elim (Bool-cases (one_of k (sticky_of r id ks s))) [
      | inl o ↦
          let q : r.pointer t k ≡ none =
            deleted_pointer (sticky_of r id ks s) s t k h ∙ rw o refl in
          cc
      | inr o ↦
          let q : r.pointer t k ≡ r.pointer s k =
            deleted_pointer (sticky_of r id ks s) s t k h ∙ rw o refl in
          let old : r.pointer s k ≡ some id = sym q ∙ p in
          let f : one_of k (sticky_of r id ks s) ≡ true =
            sticky_of-finds id k ks s (reads k id old) ((r.keys_ok s ks e).1 k id st old) in
          cc
    ]

    cleanup_found-Unpinned :
        (id : ℕ) (res : Result (List Text)) (t : State)
        → r.keys (lit "sticky:*") s ≡ res
        → cleanup_found r id res s ≡ (none, t)
        → Unpinned id t
    cleanup_found-Unpinned id (err e) t k h j =
        let q : ◌≡◌ {A = Err} (some e) none = ap (λ (p : Err × State). p.0) h in cc
    cleanup_found-Unpinned id (ok ks) t k h j = elim (Bool-cases (is_sticky j)) [
      | inl st ↦ inr (unpinned_at id ks t j k h st)
      | inr st ↦ inl st
    ]

    pub cleanup_sticky_for_node-Unpinned :
        (id : ℕ) (t : State) → cleanup_sticky_for_node r id s ≡ (none, t) → Unpinned id t
    unfolding cleanup_sticky_for_node
    cleanup_sticky_for_node-Unpinned id t h = cleanup_found-Unpinned id _ t refl h
