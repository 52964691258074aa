-- ===== src/Subscription/Sync.antt =====
-- `persistParsedNodes`, `Sync`, `ImportManualNodes`, `syncDueSubscriptions` and `fetchSubscription` of
-- subscription/service.go. The database, the cache, the cipher and the HTTP client are interfaces.
pub mod Kept
use proxydeck.Prelude.{
  ℕ, ◌≡◌, ◌+◌, ◌-◌, ◌*◌, ◌^◌, ◌==◌, Bool, true, false, not, ◌&&◌, ◌||◌, List, [], ◌∷◌, ◌++◌, Option,
  none, some, length, leb, if◌then◌else◌,
}
use proxydeck.Prelude.Int.{ℤ, pos, negsuc, pos_part, neg_part, ◌-ℤ◌, leb_ℤ, wrap64}
use proxydeck.Errors.{Error, Result, ok, err, message}
use proxydeck.Strings.{Text, lit}
use proxydeck.Strings.Number.{format_uint}
use proxydeck.Model.{ProxyNode, Subscription}
use proxydeck.Redis.{Err}
use proxydeck.Fetch.{Response}
use proxydeck.Retry.{Failure, stop, plain, Context, Config, do_retry}
use proxydeck.Subscription.Due.{subscription_due}
use proxydeck.Subscription.Decoders.{Decoders}
use proxydeck.Subscription.Node.{ParsedNode, node_key}
use proxydeck.Subscription.Manual.{ManualNodeInput, manual_input_nodes}
use proxydeck.Subscription.Body.{parse_subscription_body}
use proxydeck.Subscription.Links.{Tables, prune_subscription_nodes}

-- The row of a parsed node, before the database gives it an id.
unfoldable pub new_row : ParsedNode → Text → Text → ℕ → ProxyNode
new_row item user_enc pass_enc sub = record {
  id = 0;
  node_key = node_key item.protocol item.host item.port;
  protocol = item.protocol;
  host = item.host;
  port = item.port;
  upstream_username_enc = user_enc;
  upstream_password_enc = pass_enc;
  tls_enabled = item.tls_enabled;
  tls_skip_verify = item.tls_skip_verify;
  server_name = item.server_name;
  tag = item.tag;
  expected_region = item.expected_region;
  detected_region = [];
  city = [];
  country = [];
  asn = [];
  org = [];
  isp = [];
  exit_ip = [];
  latency_ms = pos 0;
  healthy = false;
  disabled = false;
  fail_count = pos 0;
  last_check_at = none;
  subscription_id = sub;
  raw_json = item.raw_json;
  upload_bytes = pos 0;
  download_bytes = pos 0;
  total_requests = pos 0;
}

-- What the services around the tables do. A command whose error is dropped returns a state only.
pub record Surroundings (d : Tables) : Type 0 where
  -- Create with the clause OnConflict; whether `subscription_id` is among the columns it updates
  pub upsert : ProxyNode → Bool → d.State → Err × d.State
  pub first_at : Text → Text → ℤ → d.State → Result ProxyNode
  -- FirstOrCreate of a link with a tag; CacheNode
  pub link_to : ℕ → ℕ → Text → d.State → d.State
  pub cache : ProxyNode → d.State → d.State
  -- Encrypt; the empty text where it returns an error
  pub encrypt : Text → d.State → Text × d.State
  pub first_subscription : ℕ → d.State → Result Subscription
  pub enabled_subscriptions : d.State → Result (List Subscription)
  pub set_last_sync : ℕ → d.State → Err × d.State
  pub request : Text → d.State → Result Response × d.State
  -- the metrics, if there are any, and the log
  pub count_sync : d.State → d.State
  pub count_failure : d.State → d.State
  pub log : ℕ → Text → Text → d.State → d.State
  pub set_last_sync_ok :
      (sub : ℕ) (s t : d.State) → set_last_sync sub s ≡ (none, t) → d.links t ≡ d.links s

module _ (d : Tables) (x : Surroundings d) where
  open d use {State}

  abbrev pub fetch_failed : Response → Error
  fetch_failed resp = message (lit "subscription fetch failed: " ++ resp.status)

  abbrev pub as_failure : Err → Option Failure
  as_failure none = none
  as_failure (some e) = some (plain e)

  abbrev pub fetched : Text → Result Response × State → Option Failure × (State × Text)
  fetched body (err e, s) = (some (plain e), (s, body))
  fetched body (ok resp, s) =
      if leb 500 resp.status_code
      then (some (plain (fetch_failed resp)), (s, body))
      else if not (resp.status_code == 200)
      then (some (stop (some (fetch_failed resp))), (s, body))
      else (as_failure resp.read_error, (s, resp.body))

  abbrev pub fetch_result : Option Error × (State × Text) → Result Text × State
  fetch_result (none, (s, body)) = (ok body, s)
  fetch_result (some e, (s, body)) = (err e, s)

  -- The retries work on the state and the variable `body`.
  unfoldable pub fetch_subscription :
      Context (State × Text) → Config → Text → State → Result Text × State
  unfolding do_retry
  fetch_subscription c cfg url s =
      fetch_result (do_retry c cfg (λ p. fetched p.1 (x.request url p.0)) (s, []))

  abbrev pub link_if : Option ℕ → ℕ → Text → State → State
  link_if none id tag s = s
  link_if (some sub) id tag s = x.link_to sub id tag s

  abbrev pub given : Option ℕ → Bool
  given none = false
  given (some sub) = true

  abbrev pub id_or_zero : Option ℕ → ℕ
  id_or_zero none = 0
  id_or_zero (some sub) = sub

  -- The node in the table is linked and cached; its id is imported.
  abbrev pub imported_row : Option ℕ → Text → List ℕ → Result ProxyNode → State → List ℕ × State
  imported_row sub tag ids (err e) s = (ids, s)
  imported_row sub tag ids (ok n) s = (ids ++ (n.id ∷ []), x.cache n (link_if sub n.id tag s))

  abbrev pub upserted : Option ℕ → ProxyNode → Text → List ℕ → Err × State → Result (List ℕ) × State
  upserted sub row tag ids (some e, s) = (err e, s)
  upserted sub row tag ids (none, s) =
      let p = imported_row sub tag ids (x.first_at row.protocol row.host row.port s) s in
      (ok p.0, p.1)

  -- one round of the loop of `persistParsedNodes`
  unfoldable pub persist_one : Option ℕ → ParsedNode → List ℕ → State → Result (List ℕ) × State
  unfolding new_row
  persist_one sub item ids s =
      let user = x.encrypt item.username s in
      let pass = x.encrypt item.password user.1 in
      let row = new_row item user.0 pass.0 (id_or_zero sub) in
      upserted sub row item.tag ids (x.upsert row (given sub) pass.1)

  abbrev pub and_continue :
      Result (List ℕ) × State → (List ℕ → State → Result (List ℕ) × State) → Result (List ℕ) × State
  and_continue (err e, s) k = (err e, s)
  and_continue (ok ids, s) k = k ids s

  unfoldable pub persist_loop :
      Option ℕ → List ParsedNode → List ℕ → State → Result (List ℕ) × State
  unfolding persist_one
  persist_loop sub [] ids s = (ok ids, s)
  persist_loop sub (item ∷ items) ids s =
      and_continue (persist_one sub item ids s) (λ js t. persist_loop sub items js t)

  unfoldable pub persist_parsed_nodes : List ParsedNode → Option ℕ → State → Result (List ℕ) × State
  unfolding persist_loop
  persist_parsed_nodes items sub s = persist_loop sub items [] s

  abbrev pub failed : Error → State → Result (List ℕ) × State
  failed e s = (err e, x.count_failure s)

  abbrev pub stamped : List ℕ → Err × State → Result (List ℕ) × State
  stamped ids (some e, s) = (err e, s)
  stamped ids (none, s) = (ok ids, s)

  abbrev pub pruned : ℕ → List ℕ → Err × State → Result (List ℕ) × State
  pruned sub ids (some e, s) = failed e s
  pruned sub ids (none, s) = stamped ids (x.set_last_sync sub s)

  abbrev pub persisted : ℕ → Result (List ℕ) × State → Result (List ℕ) × State
  persisted sub (err e, s) = failed e s
  persisted sub (ok ids, s) = pruned sub ids (prune_subscription_nodes d sub ids s)

  abbrev pub parsed : ℕ → Result (List ParsedNode) → State → Result (List ℕ) × State
  parsed sub (err e) s = failed e s
  parsed sub (ok items) s = persisted sub (persist_parsed_nodes items (some sub) s)

  module _ (m : Decoders) where
    -- The inputs are checked before anything is stored.
    abbrev pub import_parsed : Result (List ParsedNode) → State → Result (List ℕ) × State
    import_parsed (err e) s = (err e, s)
    import_parsed (ok items) s = persist_parsed_nodes items none s

    unfoldable pub import_manual_nodes : List ManualNodeInput → State → Result (List ℕ) × State
    unfolding persist_parsed_nodes
    import_manual_nodes inputs s = import_parsed (manual_input_nodes m inputs) s

    module _ (c : Context (State × Text)) (cfg : Config) where
      abbrev pub sync_body : Subscription → Result Text × State → Result (List ℕ) × State
      sync_body sub (err e, s) = failed e s
      sync_body sub (ok body, s) = parsed sub.id (parse_subscription_body m sub.type body) s

      abbrev pub sync_found : Result Subscription → State → Result (List ℕ) × State
      sync_found (err e) s = (err e, s)
      sync_found (ok sub) s = sync_body sub (fetch_subscription c cfg sub.url s)

      -- `Sync`; the result is the list of the imported ids, whose length is `ImportedCount`.
      unfoldable pub sync : ℕ → State → Result (List ℕ) × State
      unfolding persist_parsed_nodes fetch_subscription
      sync id s = sync_found (x.first_subscription id (x.count_sync s)) (x.count_sync s)

      -- `writeSyncAuditLog`; `render` is `err.Error()`.
      abbrev pub write_log : (Error → Text) → ℕ → Result (List ℕ) × State → ℕ × State
      write_log render id (err e, s) = (0, x.log id (lit "sync_subscription_error") (render e) s)
      write_log render id (ok ids, s) = (1, x.log id (lit "sync_subscription") [] s)

      abbrev pub add_to : ℕ → ℕ × State → ℕ × State
      add_to n (m, s) = (n + m, s)

      -- the loop of `syncDueSubscriptions`: how many were synced
      unfoldable pub sync_loop : (Error → Text) → ℤ → List Subscription → State → ℕ × State
      unfolding sync subscription_due
      sync_loop render now [] s = (0, s)
      sync_loop render now (sub ∷ subs) s =
          let rest = λ (t : State). sync_loop render now subs t in
          if not (subscription_due sub now)
          then rest s
          else (let p = write_log render sub.id (sync sub.id s) in add_to p.0 (rest p.1))

      -- The query asks for enabled subscriptions with an interval.
      abbrev pub sync_all :
          (Error → Text) → ℤ → Result (List Subscription) → State → Result ℕ × State
      sync_all render now (err e) s = (err e, s)
      sync_all render now (ok subs) s = let p = sync_loop render now subs s in (ok p.0, p.1)

      unfoldable pub sync_due_subscriptions : (Error → Text) → ℤ → State → Result ℕ × State
      unfolding sync_loop
      sync_due_subscriptions render now s = sync_all render now (x.enabled_subscriptions s) s
