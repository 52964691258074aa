-- ===== src/Admin/Subscriptions.antt =====
-- `createSubscription`, `updateSubscription`, `deleteSubscription`, `syncSubscription` and
-- `importNodes` of adminapi/server.go. The table of subscriptions and the subscription service are an
-- interface; the service is modelled in Subscription/Links and Subscription/Sync.
use proxydeck.Prelude.{
  ℕ, Bool, true, false, not, List, [], ◌∷◌, length, Option, none, some, if◌then◌else◌,
}
use proxydeck.Prelude.Int.{ℤ}
use proxydeck.Errors.{Error, Result, ok, err, message}
use proxydeck.Strings.{Text, lit, text_eq, is_empty}
use proxydeck.Strings.Space.{trim_space}
use proxydeck.Strings.Number.{format_uint}
use proxydeck.Model.{Subscription}
use proxydeck.Redis.{Err}
use proxydeck.Subscription.Protocol.{normalized, one_of}
use proxydeck.Subscription.Manual.{ManualNodeInput}
use proxydeck.Subscription.Value.{Fields, text, get, end, field}
use proxydeck.Admin.{Reply, reply, fail, done, subscription_row, imported}
use proxydeck.Admin.Columns.{put, as_text, read_int64}
use proxydeck.Admin.Users.{negative, or_true}

pub record Subscriptions : Type 1 where
  pub State : Type 0
  pub create : Subscription → State → Result Subscription × State
  -- Updates of the rows with the path's id
  pub updates : Text → Fields → State → Err × State
  -- Delete, Sync and ImportManualNodes of the subscription service
  pub delete : ℕ → State → Err × State
  pub sync : ℕ → State → Result (List ℕ) × State
  pub import_manual : List ManualNodeInput → State → Result (List ℕ) × State
  -- CheckNodes of the health check, if there is one, in a goroutine of its own
  pub start_checks : List ℕ → State → State
  pub audit : Text → Text → Text → State → State
  -- `id, _ := strconv.Atoi(…)` and `uint(id)`
  pub path_id : Text → ℕ
  -- `err.Error()`
  pub render : Error → Text

unfoldable pub is_supported_subscription_type : Text → Bool
is_supported_subscription_type value = one_of (normalized value) (
    lit "singbox"
    ∷ lit "shadowrocket"
    ∷ lit "clash"
    ∷ lit "mihomo"
    ∷ lit "surge"
    ∷ lit "surfboard"
    ∷ lit "quantumultx"
    ∷ lit "manual"
    ∷ [])

pub record CreateSubscription : Type 0 where
  pub name : Text
  pub type : Text
  pub url : Text
  pub enabled : Option Bool
  pub sync_interval_seconds : ℤ
  pub remark : Text

abbrev pub or_singbox : Text → Text
or_singbox type = if is_empty type then lit "singbox" else type

unfoldable pub new_subscription : CreateSubscription → Subscription
new_subscription req = record {
  id = 0;
  name = trim_space req.name;
  type = normalized (or_singbox req.type);
  url = trim_space req.url;
  enabled = or_true req.enabled;
  sync_interval_seconds = req.sync_interval_seconds;
  last_sync_at = none;
  remark = req.remark;
}

-- Whether the map has the key.
unfoldable pub has_key : Fields → Text → Bool
has_key end k = false
has_key (field j v fs) k = if text_eq j k then true else has_key fs k

-- `typeValue, _ := rawType.(string)`
abbrev pub or_blank : Option Text → Text
or_blank none = []
or_blank (some s) = s

abbrev pub update_type : Fields → Result Fields
update_type fs =
    if has_key fs (lit "type")
    then (let value = or_blank (as_text (get fs (lit "type"))) in
        if is_supported_subscription_type value
        then ok (put (lit "type") (text (normalized value)) fs)
        else err (message (lit "unsupported subscription type")))
    else ok fs

-- A text that must not be blank, if it is given.
abbrev pub update_text : Text → Error → Option Text → Result Fields → Result Fields
update_text key why o (err e) = err e
update_text key why none (ok fs) = ok fs
update_text key why (some value) (ok fs) =
    if is_empty (trim_space value) then err why else ok (put key (text (trim_space value)) fs)

abbrev pub refuse_interval : Option ℤ → Result Fields → Result Fields
refuse_interval o (err e) = err e
refuse_interval none (ok fs) = ok fs
refuse_interval (some n) (ok fs) =
    if negative n then err (message (lit "sync_interval_seconds must be >= 0")) else ok fs

-- The guards of `updateSubscription`.
unfoldable pub check_subscription_update : Fields → Result Fields
unfolding has_key is_supported_subscription_type
check_subscription_update fs = refuse_interval (read_int64 (get fs (lit "sync_interval_seconds"))) (
    update_text (lit "url") (message (lit "url is required")) (as_text (get fs (lit "url"))) (
      update_text (lit "name") (message (lit "name is required")) (as_text (get fs (lit "name")))
        (update_type fs)))

module _ (x : Subscriptions) where
  open x use {State}

  abbrev pub created : Result Subscription × State → Reply × State
  created (err e, s) = (fail 400 e, s)
  created (ok item, s) = (
    reply 200 (subscription_row item),
    x.audit (lit "create_subscription") (format_uint item.id) item.name s,
  )

  unfoldable pub create_subscription : Result CreateSubscription → State → Reply × State
  unfolding new_subscription is_supported_subscription_type
  create_subscription (err e) s = (fail 400 e, s)
  create_subscription (ok req) s =
      if not (is_supported_subscription_type (or_singbox req.type))
      then (fail 400 (message (lit "unsupported subscription type")), s)
      else if is_empty (trim_space req.name)
      then (fail 400 (message (lit "name is required")), s)
      else if is_empty (trim_space req.url)
      then (fail 400 (message (lit "url is required")), s)
      else if negative req.sync_interval_seconds
      then (fail 400 (message (lit "sync_interval_seconds must be >= 0")), s)
      else created (x.create (new_subscription req) s)

  -- An answer by the error of a command, with a line of the audit log where there is none.
  abbrev pub audited : Text → Text → Err × State → Reply × State
  audited action id (some e, s) = (fail 400 e, s)
  audited action id (none, s) = (reply 200 done, x.audit action id [] s)

  abbrev pub update_checked : Text → Result Fields → State → Reply × State
  update_checked id (err e) s = (fail 400 e, s)
  update_checked id (ok fs) s = audited (lit "update_subscription") id (x.updates id fs s)

  unfoldable pub update_subscription : Text → Result Fields → State → Reply × State
  unfolding check_subscription_update
  update_subscription id (err e) s = (fail 400 e, s)
  update_subscription id (ok req) s = update_checked id (check_subscription_update req) s

  unfoldable pub delete_subscription : Text → State → Reply × State
  delete_subscription id s = audited (lit "delete_subscription") id (x.delete (x.path_id id) s)

  abbrev pub check_imported : List ℕ → State → State
  check_imported [] s = s
  check_imported (id ∷ ids) s = x.start_checks (id ∷ ids) s

  abbrev pub synced : Text → Result (List ℕ) × State → Reply × State
  synced id (err e, s) = (fail 502 e, x.audit (lit "sync_subscription_error") id (x.render e) s)
  synced id (ok ids, s) = (
    reply 200 (imported (length ids)),
    x.audit (lit "sync_subscription") id [] (check_imported ids s),
  )

  unfoldable pub sync_subscription : Text → State → Reply × State
  sync_subscription id s = synced id (x.sync (x.path_id id) s)

  abbrev pub or_http : Text → Text
  or_http protocol = if is_empty protocol then lit "http" else protocol

  -- A node without a protocol has that of the request.
  unfoldable pub with_protocols : Text → List ManualNodeInput → List ManualNodeInput
  with_protocols protocol [] = []
  with_protocols protocol (input ∷ inputs) =
      (if is_empty (trim_space input.protocol) then record input { protocol = protocol } else input)
      ∷ with_protocols protocol inputs

  abbrev pub stored : Result (List ℕ) × State → Reply × State
  stored (err e, s) = (fail 400 e, s)
  stored (ok ids, s) = (
    reply 200 (imported (length ids)),
    x.audit (lit "import_nodes") [] (format_uint (length ids)) (check_imported ids s),
  )

  unfoldable pub import_nodes : Result (Text × List ManualNodeInput) → State → Reply × State
  unfolding with_protocols
  import_nodes (err e) s = (fail 400 e, s)
  import_nodes (ok (protocol, [])) s = (fail 400 (message (lit "nodes are required")), s)
  import_nodes (ok (protocol, input ∷ inputs)) s =
      stored (x.import_manual (with_protocols (or_http (normalized protocol)) (input ∷ inputs)) s)
