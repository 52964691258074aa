-- ===== src/Admin/Nodes.antt =====
-- `getNode`, `checkNode`, `toggleNodeDisabled`, `deleteNode`, `nodePayload`, `exitTag` and
-- `sanitizedRawJSON` of adminapi/server.go. The tables, the health check and the cache of the nodes
-- are an interface; CacheNode and RemoveNode are modelled in Nodes.
use proxydeck.Prelude.{
  ℕ, Bool, false, ◌⊎◌, inl, inr, List, [], ◌∷◌, Option, none, some, if◌then◌else◌,
}
use proxydeck.Errors.{Error, Result, ok, err}
use proxydeck.Strings.{Text, lit, is_empty}
use proxydeck.Strings.Space.{trim_space}
use proxydeck.Strings.Split.{join}
use proxydeck.Model.{ProxyNode}
use proxydeck.Redis.{Err}
use proxydeck.Subscription.Value.{Fields}
use proxydeck.Admin.{Reply, reply, fail, done, node_view}
use proxydeck.Admin.Columns.{without}

pub record NodeRows : Type 1 where
  pub State : Type 0
  pub first : Text → State → Result ProxyNode
  pub save : ProxyNode → State → Err × State
  pub delete_links : ℕ → State → State
  pub delete : ProxyNode → State → Err × State
  -- CacheNode and RemoveNode, whose errors are dropped
  pub cache : ProxyNode → State → State
  pub forget : ProxyNode → State → State
  pub path_id : Text → ℕ
  pub check_one : ℕ → State → Err × State
  pub audit : Text → Text → Text → State → State
  pub render : Error → Text
  -- a JSON object
  pub json_object : Text → Option Fields

-- `if s != "" { parts = append(parts, s) }`
abbrev pub part : Text → List Text → List Text
part s parts = if is_empty s then parts else s ∷ parts

abbrev pub joined_or : Text → List Text → Text
joined_or tag [] = tag
joined_or tag (p ∷ ps) = join (p ∷ ps) (lit " | ")

unfoldable pub exit_tag : ProxyNode → Text
exit_tag node =
    joined_or node.tag
      (part node.detected_region (part node.city (part node.asn (part node.exit_ip []))))

abbrev pub without_secrets : Text → Option Fields → Text ⊎ Fields
without_secrets raw none = inl raw
without_secrets raw (some payload) =
    inr (without (lit "password") (without (lit "username") payload))

unfoldable pub sanitized_raw_json : (Text → Option Fields) → Text → Text ⊎ Fields
sanitized_raw_json json_object raw =
    if is_empty (trim_space raw) then inl raw else without_secrets raw (json_object raw)

-- The columns that are shown; the encrypted ones are not, and the description is shown apart.
unfoldable pub visible : ProxyNode → ProxyNode
visible node = record node { upstream_username_enc = []; upstream_password_enc = []; raw_json = [] }

-- `_ = c.ShouldBindJSON(&req)`
abbrev pub or_false : Result Bool → Bool
or_false (err e) = false
or_false (ok b) = b

module _ (x : NodeRows) where
  open x use {State}

  -- `nodePayload`: the tag and the description that are shown, and the columns.
  unfoldable pub node_payload : ProxyNode → Reply
  unfolding exit_tag sanitized_raw_json visible
  node_payload node =
      reply 200
        (node_view (exit_tag node) (sanitized_raw_json x.json_object node.raw_json) (visible node))

  abbrev pub with_node :
      Result ProxyNode → (ProxyNode → State → Reply × State) → State → Reply × State
  with_node (err e) k s = (fail 404 e, s)
  with_node (ok node) k s = k node s

  unfoldable pub get_node : Text → State → Reply × State
  unfolding node_payload
  get_node id s = with_node (x.first id s) (λ node t. (node_payload node, t)) s

  abbrev pub checked : Text → Err × State → Reply × State
  checked id (some e, s) = (fail 502 e, x.audit (lit "check_node_error") id (x.render e) s)
  checked id (none, s) = (reply 200 done, x.audit (lit "check_node") id [] s)

  unfoldable pub check_node : Text → State → Reply × State
  check_node id s = checked id (x.check_one (x.path_id id) s)

  abbrev pub saved : Text → ProxyNode → Err × State → Reply × State
  saved id node (some e, s) = (fail 400 e, s)
  saved id node (none, s) =
      (reply 200 done, x.audit (lit "toggle_node_disabled") id [] (x.cache node s))

  -- A request that cannot be decoded counts as `disabled` false.
  unfoldable pub toggle_node_disabled : Text → Result Bool → State → Reply × State
  toggle_node_disabled id req s =
      with_node (x.first id s)
        (λ node t.
          let changed = record node { disabled = or_false req } in
          saved id changed (x.save changed t))
        s

  abbrev pub deleted : Text → ProxyNode → Err × State → Reply × State
  deleted id node (some e, s) = (fail 400 e, s)
  deleted id node (none, s) = (reply 200 done, x.audit (lit "delete_node") id [] (x.forget node s))

  unfoldable pub delete_node : Text → State → Reply × State
  delete_node id s =
      with_node (x.first id s)
        (λ node t. deleted id node (x.delete node (x.delete_links node.id t))) s
