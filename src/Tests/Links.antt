-- ===== src/Tests/Links.antt =====
-- The theorems on the links and the synchronization of subscription/service.go at concrete tables.
use mathlib.Core.Path.{sym}
use proxydeck.Prelude.{
  ℕ, ◌≡◌, refl, ◌==◌, ◌<◌, ◌*◌, ◌+◌, ◌≤◌, ◌↔◌, Bool, true, not, List, [], ◌∷◌, none, some, All,
  length, filter, arith, ap,
}
use proxydeck.Prelude.{◌>>◌, skip_if}
use proxydeck.Prelude.Int.{pos, wrap64}
use proxydeck.Strings.{text_eq, to_lower, to_upper, is_empty, equal_fold}
use proxydeck.Strings.Space.{trim_space}
use proxydeck.Strings.Split.{contains}
use proxydeck.Retry.{attempt_loop}
use proxydeck.Subscription.Region.{infer_region}
use proxydeck.Subscription.Body.{parse_subscription_body}
use proxydeck.Subscription.Protocol.{
  is_trojan_protocol, is_shadowsocks_protocol, is_vmess_protocol, is_vless_protocol, normalized,
  one_of, is_supported_outbound_protocol,
}
use proxydeck.Subscription.Singbox.{parse_singbox_outbound, parse_singbox_subscription}
use proxydeck.Subscription.Value.{as_object, bool_value, as_float, float_is_zero, get, string_value}
use proxydeck.Errors.{Result, ok}
use proxydeck.Strings.{Text, lit}
use proxydeck.Model.{ProxyNode, Subscription}
use proxydeck.Redis.{Err}
use proxydeck.Retry.{Context, default_config}
use proxydeck.Subscription.Links.{
  Link, Tables, of_subscription, to_node, has_id, prune_subscription_nodes, delete_all,
}
use proxydeck.Subscription.Links.Pruned.{is_kept}
use proxydeck.Subscription.Links.Linked.{Linked}
use proxydeck.Subscription.Links.Clean.{prune-Linked, delete-Linked}
use proxydeck.Subscription.Due.{subscription_due, subscription_due_iff}
use proxydeck.Subscription.Sync.{Surroundings, sync}
use proxydeck.Fetch.{Response}
use proxydeck.Subscription.Sync.Kept.{sync-kept}
use proxydeck.Tests.{node}
use proxydeck.Tests.Subscription.{decoders}
use proxydeck.Tests.Nodes.{head_or, filter-head}

abbrev Rows : Type 0
Rows = List Link × List ProxyNode

abbrev keep_links : (Link → Bool) → Rows → Rows
keep_links p s = (filter p s.0, s.1)

abbrev keep_nodes : (ProxyNode → Bool) → Rows → Rows
keep_nodes p s = (s.0, filter p s.1)

rows_of : (s t : Rows) → ◌≡◌ {A = Err × Rows} (none, s) (none, t) → t ≡ s
rows_of s t h = sym (ap (λ (p : Err × Rows). p.1) h)

ok-of {ℓ} : {A : Type ℓ} (a b : A) → ◌≡◌ {A = Result A} (ok a) (ok b) → b ≡ a
ok-of a b h = cc

same-rows : (s t : Rows) → t ≡ s → (t.0 ≡ s.0) × (t.1 ≡ s.1)
same-rows s t e = rw e (refl, refl)

first-id : (id : ℕ) (s : Rows) (n : ProxyNode) → head_or (filter (has_id id) s.1) ≡ ok n → n.id ≡ id
first-id id s n h = let q = filter-head (has_id id) s.1 n h in ground (arith, q)

-- Tables on which every command succeeds.
abbrev tables : Tables
tables = record {
  State = Rows;
  links = λ s. s.0;
  nodes = λ s. s.1;
  find_links = λ sub s. ok (filter (of_subscription sub) s.0);
  find_nodes = λ sub s. ok s.1;
  first_node = λ id s. head_or (filter (has_id id) s.1);
  count_links = λ id s. ok (length (filter (to_node id) s.0));
  delete_link = λ l s. (none, keep_links (λ m. not (m.id == l.id)) s);
  delete_links = λ sub s. (none, keep_links (λ m. not (of_subscription sub m)) s);
  delete_node = λ id s. (none, keep_nodes (λ n. not (has_id id n)) s);
  delete_subscription = λ sub s. (none, s);
  forget = λ n s. s;
  find_links_ok = λ sub s ls h. ok-of _ ls h;
  count_links_ok = λ id s n h. ok-of _ n h;
  first_node_ok = first-id;
  delete_link_ok = λ l s t h. same-rows _ t (rows_of _ t h);
  delete_links_ok = λ sub s t h. same-rows _ t (rows_of _ t h);
  delete_node_ok = λ id s t h. same-rows _ t (rows_of _ t h);
  delete_subscription_ok = λ sub s t h. same-rows _ t (rows_of _ t h);
  forget_ok = λ n s. (refl, refl);
}

abbrev link : ℕ → ℕ → ℕ → Link
link id sub to = record { id = id; subscription_id = sub; node_id = to }

-- Two subscriptions share node 7; the first one has node 8 for itself.
abbrev shared : Rows
shared = (link 1 1 7 ∷ link 2 1 8 ∷ link 3 2 7 ∷ [], node ∷ record node { id = 8 } ∷ [])

abbrev pruned : Rows
pruned = (prune_subscription_nodes tables 1 (7 ∷ []) shared).1

prune-Linked_example : All (λ m. is_kept 1 (7 ∷ []) m ≡ true) pruned.0 × Linked tables pruned
unfolding prune_subscription_nodes
prune-Linked_example = prune-Linked tables 1 (7 ∷ []) shared (refl, (refl, (refl, tt))) refl

abbrev emptied : Rows
emptied = (delete_all tables 1 shared).1

delete-Linked_example :
    (emptied.0 ≡ filter (λ m. not (of_subscription 1 m)) shared.0) × Linked tables emptied
unfolding delete_all
delete-Linked_example = delete-Linked tables 1 shared (refl, (refl, (refl, tt))) refl

abbrev feed : Subscription
feed = record {
  id = 1;
  name = lit "feed";
  type = lit "singbox";
  url = lit "http://feed";
  enabled = true;
  sync_interval_seconds = pos 60;
  last_sync_at = some (pos 0);
  remark = [];
}

subscription_due_iff_example :
    (subscription_due feed (pos 61000000000) ≡ true)
    ↔ ((feed.enabled ≡ true) × (0 < 60) × (0 + 60 * 1000000000 ≤ 61000000000))
subscription_due_iff_example =
    subscription_due_iff feed 60 61000000000 0 refl refl (omega arith) (omega arith) (omega arith)

-- The feed answers with a proxy, which is stored as node 7.
abbrev answer : Response
answer = record {
  status_code = 200;
  status = lit "200 OK";
  body = lit "10.0.0.1:1080";
  read_error = none;
}

abbrev surroundings : Surroundings tables
surroundings = record {
  upsert = λ n b s. (none, s);
  first_at = λ p h n s. ok node;
  link_to = λ sub id tag s. s;
  cache = λ n s. s;
  encrypt = λ t s. (t, s);
  first_subscription = λ id s. ok feed;
  enabled_subscriptions = λ s. ok (feed ∷ []);
  set_last_sync = λ sub s. (none, s);
  request = λ url s. (ok answer, s);
  count_sync = λ s. s;
  count_failure = λ s. s;
  log = λ id action detail s. s;
  set_last_sync_ok = λ sub s t h. (same-rows _ t (rows_of _ t h)).0;
}

abbrev patient : Context (Rows × Text)
patient = record { poll = λ s. (none, s); wait = λ d s. (none, s) }

abbrev synced : Result (List ℕ) × Rows
synced = sync tables surroundings decoders patient default_config 1 shared

sync-kept_example : All (λ l. is_kept 1 (7 ∷ []) l ≡ true) synced.1.0
unfolding sync attempt_loop parse_subscription_body text_eq normalized to_lower trim_space
    parse_singbox_subscription parse_singbox_outbound ◌>>◌ skip_if is_supported_outbound_protocol
    one_of string_value get is_empty float_is_zero as_float is_vless_protocol equal_fold
    is_vmess_protocol wrap64 is_shadowsocks_protocol is_trojan_protocol bool_value as_object
    infer_region to_upper contains prune_subscription_nodes
sync-kept_example =
    sync-kept tables surroundings decoders patient default_config 1 feed (7 ∷ []) shared refl refl
