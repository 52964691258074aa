-- ===== src/Subscription/Sync/Kept.antt =====
-- What `Sync` of subscription/service.go leaves of the links of a subscription.
use mathlib.Core.Path.{subst}
use proxydeck.Prelude.{ℕ, ◌≡◌, refl, sym, ap, ◌∙◌, true, List, none, some, All}
use proxydeck.Errors.{Result, ok, err}
use proxydeck.Strings.{Text}
use proxydeck.Model.{Subscription}
use proxydeck.Redis.{Err}
use proxydeck.Retry.{Context, Config}
use proxydeck.Subscription.Decoders.{Decoders}
use proxydeck.Subscription.Node.{ParsedNode}
use proxydeck.Subscription.Links.{Tables}
use proxydeck.Subscription.Links.Pruned.{is_kept, prune-kept}
use proxydeck.Subscription.Sync.{
  Surroundings, stamped, pruned, persisted, parsed, sync_body, sync_found, sync,
}

module _ (d : Tables) (x : Surroundings d) where
  open d use {State}

  -- All links of the subscription lead to nodes of the result, if there is a result.
  KeptBy : ℕ → List ℕ → Result (List ℕ) × State → Type 0
  KeptBy sub ids p = All (λ m. is_kept sub ids m ≡ true) (d.links p.1)

  ok-ids : (js ids : List ℕ) → ◌≡◌ {A = Result (List ℕ)} (ok js) (ok ids) → js ≡ ids
  ok-ids js ids h = cc

  stamped-KeptBy :
      (sub : ℕ) (js ids : List ℕ) (s : State) (p : Err × State)
      → x.set_last_sync sub s ≡ p
      → All (λ m. is_kept sub js m ≡ true) (d.links s)
      → (stamped d x js p).0 ≡ ok ids
      → KeptBy sub ids (stamped d x js p)
  unfolding KeptBy
  stamped-KeptBy sub js ids s (some e, t) q k h = cc
  stamped-KeptBy sub js ids s (none, t) q k h =
      let e : js ≡ ids = ok-ids js ids h in
      rw (x.set_last_sync_ok sub s t q)
        (subst (λ is. All (λ m. is_kept sub is m ≡ true) (d.links s)) e k)

  pruned-KeptBy :
      (sub : ℕ) (js ids : List ℕ) (p : Err × State)
      → (p.0 ≡ none → All (λ m. is_kept sub js m ≡ true) (d.links p.1))
      → (pruned d x sub js p).0 ≡ ok ids
      → KeptBy sub ids (pruned d x sub js p)
  pruned-KeptBy sub js ids (some e, t) k h = cc
  pruned-KeptBy sub js ids (none, t) k h = stamped-KeptBy sub js ids t _ refl (k refl) h

  persisted-KeptBy :
      (sub : ℕ) (ids : List ℕ) (p : Result (List ℕ) × State)
      → (persisted d x sub p).0 ≡ ok ids
      → KeptBy sub ids (persisted d x sub p)
  persisted-KeptBy sub ids (err e, t) h = cc
  persisted-KeptBy sub ids (ok js, t) h = pruned-KeptBy sub js ids _ (prune-kept d sub js t) h

  parsed-KeptBy :
      (sub : ℕ) (ids : List ℕ) (res : Result (List ParsedNode)) (s : State)
      → (parsed d x sub res s).0 ≡ ok ids
      → KeptBy sub ids (parsed d x sub res s)
  parsed-KeptBy sub ids (err e) s h = cc
  parsed-KeptBy sub ids (ok items) s h = persisted-KeptBy sub ids _ h

  module _ (m : Decoders) (c : Context (State × Text)) (cfg : Config) where
    body-KeptBy :
        (sub : Subscription) (ids : List ℕ) (p : Result Text × State)
        → (sync_body d x m c cfg sub p).0 ≡ ok ids
        → KeptBy sub.id ids (sync_body d x m c cfg sub p)
    body-KeptBy sub ids (err e, t) h = cc
    body-KeptBy sub ids (ok body, t) h = parsed-KeptBy sub.id ids _ t h

    -- Where Sync returns ids, every link of the subscription that it read leads to a node with one of
    -- these ids.
    pub sync-kept :
        (id : ℕ) (sub : Subscription) (ids : List ℕ) (s : State)
        → x.first_subscription id (x.count_sync s) ≡ ok sub
        → (sync d x m c cfg id s).0 ≡ ok ids
        → All (λ l. is_kept sub.id ids l ≡ true) (d.links (sync d x m c cfg id s).1)
    unfolding sync KeptBy
    sync-kept id sub ids s q h =
        let e : sync d x m c cfg id s ≡ sync_found d x m c cfg (ok sub) (x.count_sync s) =
          rw q refl in
        subst (λ (p : Result (List ℕ) × State). KeptBy sub.id ids p) (sym e)
          (body-KeptBy sub ids _ (ap (λ (p : Result (List ℕ) × State). p.0) (sym e) ∙ h))
