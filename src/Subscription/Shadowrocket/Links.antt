-- ===== src/Subscription/Shadowrocket/Links.antt =====
-- `parseShadowrocketShadowsocksNode`, `parseShadowrocketTrojanNode` and `parseShadowrocketVLESSNode`.
use proxydeck.Prelude.{
  Bool, true, false, not, ◌&&◌, ◌||◌, [], ◌∷◌, Option, none, some, get_or, ◌>>=◌, ◌>>◌, skip_if,
  if◌then◌else◌,
}
use proxydeck.Prelude.Int.{pos, leb_ℤ}
use proxydeck.Strings.{Text, lit, text_eq, is_empty, equal_fold}
use proxydeck.Strings.Space.{trim_space}
use proxydeck.Strings.Split.{cut, split_two, trim_prefix}
use proxydeck.Strings.Number.{atoi}
use proxydeck.Subscription.Value.{end, field, text, bool}
use proxydeck.Subscription.Decoders.{Decoders, Url, query_get, username_of, password_of}
use proxydeck.Subscription.Protocol.{normalized, one_of, first_non_empty}
use proxydeck.Subscription.Region.{infer_region}
use proxydeck.Subscription.Node.{ParsedNode, node_fields}
use proxydeck.Subscription.Shadowrocket.Base64.{decode_base64_text, decode_shadowsocks_user_info}

-- `allowInsecure` or `insecure` of the query, as `1` or `true`
unfoldable pub query_skip_verify : Url → Bool
query_skip_verify u =
    equal_fold (query_get u.query (lit "allowInsecure")) (lit "1")
    || equal_fold (query_get u.query (lit "allowInsecure")) (lit "true")
    || equal_fold (query_get u.query (lit "insecure")) (lit "1")
    || equal_fold (query_get u.query (lit "insecure")) (lit "true")

-- What a Shadowsocks link says: method, password, host and the text of the port.
pub record Endpoint : Type 0 where
  pub method : Text
  pub password : Text
  pub host : Text
  pub port_text : Text

module _ (d : Decoders) where
  -- `tag, _ := url.QueryUnescape(strings.TrimSpace(u.Fragment))`
  unfoldable pub url_tag : Url → Text
  url_tag u = d.query_unescape (trim_space u.fragment)

  abbrev user_endpoint : Url → Option Text → Option (Text × Text)
  user_endpoint u (some password) = some (username_of u.user, password)
  user_endpoint u none = decode_shadowsocks_user_info d (username_of u.user)

  -- the method and the password in the link's user, in plain text or in base64
  unfoldable pub plain_endpoint : Url → Option Endpoint
  plain_endpoint u = do
    (method, password) ← user_endpoint u (password_of u.user)
    some (record { method = method; password = password; host = u.hostname; port_text = u.port })

  -- everything between `ss://` and the fragment or the query in base64
  unfoldable pub packed_endpoint : Text → Option Endpoint
  packed_endpoint trimmed = do
    let payload = trim_prefix trimmed (lit "ss://")
    let before_tag = get_or (split_two payload (lit "#")) 0 []
    let before_query = get_or (split_two before_tag (lit "?")) 0 []
    decoded ← decode_base64_text d before_query
    (user_info, address) ← cut decoded (lit "@")
    (method, password) ← cut user_info (lit ":")
    (host, port_text) ← cut address (lit ":")
    some (record { method = method; password = password; host = host; port_text = port_text })

  unfoldable pub shadowsocks_endpoint : Url → Text → Option Endpoint
  unfolding plain_endpoint packed_endpoint
  shadowsocks_endpoint u trimmed =
      if not (is_empty u.hostname) && not (is_empty u.port)
      then plain_endpoint u
      else packed_endpoint trimmed

  unfoldable pub parse_shadowsocks_link : Text → Option ParsedNode
  unfolding shadowsocks_endpoint url_tag
  parse_shadowsocks_link raw = do
    let trimmed = trim_space raw
    u ← d.parse_url trimmed
    let tag = url_tag u
    e ← shadowsocks_endpoint u trimmed
    port ← atoi (trim_space e.port_text)
    skip_if (is_empty e.host || leb_ℤ port (pos 0) || is_empty e.method)
    some (record {
      protocol = lit "ss";
      host = trim_space e.host;
      port = port;
      username = e.method;
      password = e.password;
      tls_enabled = false;
      tls_skip_verify = false;
      server_name = [];
      tag = tag;
      expected_region = infer_region tag;
      raw_json = d.marshal (
          node_fields (lit "shadowrocket") (lit "ss") e.host port tag
            (field (lit "method") (text e.method) end));
    })

  abbrev or_password : Text → Option Text → Text
  or_password user none = user
  or_password user (some password) = if is_empty user then password else user

  unfoldable pub parse_trojan_link : Text → Option ParsedNode
  unfolding url_tag
  parse_trojan_link raw = do
    u ← d.parse_url (trim_space raw)
    let host = trim_space u.hostname
    port ← atoi (trim_space u.port)
    skip_if (is_empty host || leb_ℤ port (pos 0))
    let password = or_password (username_of u.user) (password_of u.user)
    skip_if (is_empty password)
    let tag = url_tag u
    let server_name = first_non_empty (
        query_get u.query (lit "peer")
        ∷ query_get u.query (lit "sni")
        ∷ query_get u.query (lit "servername")
        ∷ host
        ∷ [])
    some (record {
      protocol = lit "trojan";
      host = host;
      port = port;
      username = [];
      password = password;
      tls_enabled = true;
      tls_skip_verify = query_skip_verify u;
      server_name = server_name;
      tag = tag;
      expected_region = infer_region tag;
      raw_json = d.marshal (
          node_fields (lit "shadowrocket") (lit "trojan") host port tag (
            field (lit "server_name") (text server_name)
              (field (lit "tls_skip_verify") (bool (query_skip_verify u)) end)));
    })

  -- whether the query asks for what the gateway cannot dial
  unfoldable pub vless_refused : Url → Bool
  vless_refused u =
      let transport =
        first_non_empty
          (query_get u.query (lit "type") ∷ query_get u.query (lit "transport") ∷ []) in
      let security = normalized (query_get u.query (lit "security")) in
      let encryption =
        normalized (first_non_empty (query_get u.query (lit "encryption") ∷ lit "none" ∷ [])) in
      (not (is_empty transport) && not (equal_fold transport (lit "tcp")))
      || (not (is_empty security) && not (one_of security (lit "tls" ∷ lit "none" ∷ [])))
      || not (is_empty (trim_space (query_get u.query (lit "flow"))))
      || not (text_eq encryption (lit "none"))

  unfoldable pub vless_tls : Url → Bool
  vless_tls u =
      text_eq (normalized (query_get u.query (lit "security"))) (lit "tls")
      || not (is_empty (query_get u.query (lit "sni")))
      || not (is_empty (query_get u.query (lit "peer")))

  unfoldable pub vless_server_name : Url → Text → Text
  unfolding vless_tls
  vless_server_name u host =
      let name = first_non_empty (
        query_get u.query (lit "sni")
        ∷ query_get u.query (lit "peer")
        ∷ query_get u.query (lit "servername")
        ∷ []) in
      if is_empty name && vless_tls u then host else name

  unfoldable pub parse_vless_link : Text → Option ParsedNode
  unfolding url_tag vless_refused vless_server_name
  parse_vless_link raw = do
    u ← d.parse_url (trim_space raw)
    let host = trim_space u.hostname
    port ← atoi (trim_space u.port)
    skip_if (is_empty host || leb_ℤ port (pos 0))
    let uuid = username_of u.user
    skip_if (is_empty uuid)
    skip_if (vless_refused u)
    let tag = url_tag u
    let server_name = vless_server_name u host
    some (record {
      protocol = lit "vless";
      host = host;
      port = port;
      username = uuid;
      password = [];
      tls_enabled = vless_tls u;
      tls_skip_verify = query_skip_verify u;
      server_name = server_name;
      tag = tag;
      expected_region = infer_region tag;
      raw_json = d.marshal (
          node_fields (lit "shadowrocket") (lit "vless") host port tag (
            field (lit "uuid") (text uuid) (
              field (lit "server_name") (text server_name) (
                field (lit "tls_enabled") (bool (vless_tls u))
                  (field (lit "tls_skip_verify") (bool (query_skip_verify u)) end)))));
    })
