-- ===== src/Subscription/Surge.antt =====
-- `parseSurgeSubscription` and `parseSurgeProxyLine`.
use proxydeck.Prelude.{
  Bool, false, ◌&&◌, ◌||◌, List, [], ◌∷◌, Option, some, length, get_or, drop, ltb, ◌>>=◌, ◌>>◌,
  skip_if, if◌then◌else◌,
}
use proxydeck.Prelude.Int.{ℤ, pos, leb_ℤ}
use proxydeck.Errors.{Result}
use proxydeck.Strings.{Text, lit, is_empty, equal_fold}
use proxydeck.Strings.Space.{trim_space}
use proxydeck.Strings.Split.{cut, has_prefix, has_suffix, fields_lines}
use proxydeck.Strings.Number.{atoi}
use proxydeck.Subscription.Value.{Fields, end, field, text, bool}
use proxydeck.Subscription.Decoders.{Decoders}
use proxydeck.Subscription.Protocol.{
  is_shadowsocks_protocol, is_trojan_protocol, normalize_proxy_protocol, first_non_empty,
  split_comma_separated, parse_key_value_options, OptionMap, option,
}
use proxydeck.Subscription.Region.{infer_region}
use proxydeck.Subscription.Node.{ParsedNode, node_fields, or_empty, add_node}

-- the entries on TLS in the description of a node
unfoldable pub tls_fields : Bool → Bool → Text → Fields
tls_fields tls_enabled tls_skip_verify server_name = field (lit "tls_enabled") (bool tls_enabled) (
    field (lit "tls_skip_verify") (bool tls_skip_verify)
      (field (lit "server_name") (text server_name) end))

-- the key of a Shadowsocks node is its method
unfoldable pub method_option : OptionMap → Text
method_option o =
    first_non_empty
      (option o (lit "encrypt-method") ∷ option o (lit "method") ∷ option o (lit "cipher") ∷ [])

-- `username` and `password` of the parts, `none` where the line is refused
surge_credentials : Text → List Text → Option (Text × Text)
surge_credentials protocol parts =
    let options = parse_key_value_options (drop 3 parts) in
    let method = method_option options in
    let password = option options (lit "password") in
    if is_shadowsocks_protocol protocol
    then (do skip_if (is_empty method || is_empty password); some (method, password))
    else if is_trojan_protocol protocol
    then (do skip_if (is_empty (get_or parts 3 [])); some (get_or parts 3 [], get_or parts 3 []))
    else some (get_or parts 3 [], get_or parts 4 [])

surge_server_name : OptionMap → Text → Text
surge_server_name o server =
    first_non_empty
      (option o (lit "sni") ∷ option o (lit "peer") ∷ option o (lit "servername") ∷ server ∷ [])

surge_skip_verify : OptionMap → Bool
surge_skip_verify o =
    equal_fold (option o (lit "skip-cert-verify")) (lit "true")
    || equal_fold (option o (lit "allowinsecure")) (lit "true")

unfoldable pub is_section : Text → Bool
is_section line = has_prefix line (lit "[") && has_suffix line (lit "]")

module _ (d : Decoders) where
  unfoldable pub surge_node : Text → Text → Text → ℤ → Text × Text → Bool → Bool → Text → ParsedNode
  surge_node name protocol server port (username, password) tls_enabled tls_skip_verify
        server_name =
      record {
        protocol = protocol;
        host = server;
        port = port;
        username = username;
        password = password;
        tls_enabled = tls_enabled;
        tls_skip_verify = tls_skip_verify;
        server_name = server_name;
        tag = trim_space name;
        expected_region = infer_region (trim_space name);
        raw_json = d.marshal (
            node_fields (lit "surge") protocol server port (trim_space name)
              (tls_fields tls_enabled tls_skip_verify server_name));
      }

  -- The line has five parts, so the test `len(parts) > 4` of the source always passes.
  unfoldable pub parse_surge_proxy_line : Text → Option ParsedNode
  unfolding surge_node surge_credentials surge_server_name surge_skip_verify
  parse_surge_proxy_line line = do
    (name, rest) ← cut line (lit "=")
    let parts = split_comma_separated rest
    skip_if (ltb (length parts) 5)
    let (protocol, tls_enabled) = normalize_proxy_protocol (get_or parts 0 [])
    skip_if (is_empty protocol)
    let server = get_or parts 1 []
    port ← atoi (get_or parts 2 [])
    skip_if (is_empty server || leb_ℤ port (pos 0))
    credentials ← surge_credentials protocol parts
    let options = parse_key_value_options (drop 4 parts)
    some (
        surge_node name protocol server port credentials
          (is_trojan_protocol protocol || tls_enabled) (surge_skip_verify options)
          (surge_server_name options server))

  -- the loop over the lines; the flag is `inProxySection`
  unfoldable pub surge_lines : Bool → List Text → List ParsedNode
  unfolding is_section
  surge_lines inside [] = []
  surge_lines inside (raw ∷ lines) =
      let line = trim_space raw in
      let skipped = surge_lines inside lines in
      let section = surge_lines (equal_fold line (lit "[Proxy]")) lines in
      if is_empty line || has_prefix line (lit "#")
      then skipped
      else if is_section line
      then section
      else if inside
      then add_node (parse_surge_proxy_line line) skipped
      else skipped

  unfoldable pub parse_surge_subscription : Text → Result (List ParsedNode)
  unfolding surge_lines
  parse_surge_subscription body =
      or_empty (lit "subscription contains no supported surge/surfboard nodes")
        (Result.ok (surge_lines false (fields_lines body)))
