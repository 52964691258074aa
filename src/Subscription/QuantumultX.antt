-- ===== src/Subscription/QuantumultX.antt =====
-- `parseQuantumultXSubscription` and `parseQuantumultXLine`.
use proxydeck.Prelude.{
  Bool, ◌&&◌, ◌||◌, List, [], ◌∷◌, Option, some, length, get_or, drop, ltb, ◌>>=◌, ◌>>◌, skip_if,
  if◌then◌else◌,
}
use proxydeck.Prelude.Int.{ℤ, pos, leb_ℤ}
use proxydeck.Errors.{Result, ok}
use proxydeck.Strings.{Text, lit, is_empty, equal_fold}
use proxydeck.Strings.Space.{trim_space}
use proxydeck.Strings.Split.{cut, has_prefix, fields_lines}
use proxydeck.Strings.Number.{atoi}
use proxydeck.Subscription.Decoders.{Decoders}
use proxydeck.Subscription.Protocol.{
  is_shadowsocks_protocol, is_trojan_protocol, normalize_proxy_protocol, first_non_empty,
  split_comma_separated, parse_key_value_options, OptionMap, option,
}
use proxydeck.Subscription.Region.{infer_region}
use proxydeck.Subscription.Node.{ParsedNode, node_key, node_fields, or_empty, add_node}
use proxydeck.Subscription.Surge.{tls_fields, method_option}

-- `username` and `password` of the options, `none` where the line is refused
quantumult_credentials : Text → OptionMap → Option (Text × Text)
quantumult_credentials protocol o =
    let password = option o (lit "password") in
    let secret = (if is_empty password then option o (lit "secret") else password) in
    if is_shadowsocks_protocol protocol
    then (do
      skip_if (is_empty (method_option o) || is_empty password)
      some (method_option o, password))
    else if is_trojan_protocol protocol
    then (do skip_if (is_empty secret); some (option o (lit "username"), secret))
    else some (option o (lit "username"), password)

quantumult_tag : OptionMap → Text → Text → ℤ → Text
quantumult_tag o protocol host port =
    let tag = first_non_empty (option o (lit "tag") ∷ option o (lit "remarks") ∷ []) in
    if is_empty tag then node_key protocol host port else tag

quantumult_server_name : OptionMap → Bool → Text → Text
quantumult_server_name o tls_enabled host =
    let name =
      first_non_empty
        (option o (lit "tls-host") ∷ option o (lit "servername") ∷ option o (lit "sni") ∷ []) in
    if is_empty name && tls_enabled then host else name

quantumult_skip_verify : OptionMap → Bool
quantumult_skip_verify o =
    equal_fold (option o (lit "tls-verification")) (lit "false")
    || equal_fold (option o (lit "skip-cert-verify")) (lit "true")
    || equal_fold (option o (lit "allowinsecure")) (lit "true")

module _ (d : Decoders) where
  unfoldable pub quantumult_node : Text → Text → ℤ → Text × Text → OptionMap → Bool → ParsedNode
  unfolding quantumult_tag quantumult_server_name quantumult_skip_verify
  quantumult_node protocol host port (username, password) o tls_enabled =
      let tag = quantumult_tag o protocol host port in
      let name = quantumult_server_name o tls_enabled host in
      record {
        protocol = protocol;
        host = host;
        port = port;
        username = username;
        password = password;
        tls_enabled = tls_enabled;
        tls_skip_verify = quantumult_skip_verify o;
        server_name = name;
        tag = tag;
        expected_region = infer_region tag;
        raw_json = d.marshal (
            node_fields (lit "quantumultx") protocol host port tag
              (tls_fields tls_enabled (quantumult_skip_verify o) name));
      }

  unfoldable pub parse_quantumult_line : Text → Option ParsedNode
  unfolding quantumult_node quantumult_credentials
  parse_quantumult_line line = do
    (protocol_part, rest) ← cut line (lit "=")
    let (protocol, tls_enabled) = normalize_proxy_protocol protocol_part
    skip_if (is_empty protocol)
    let parts = split_comma_separated rest
    skip_if (ltb (length parts) 2)
    (host, port_text) ← cut (trim_space (get_or parts 0 [])) (lit ":")
    port ← atoi (trim_space port_text)
    skip_if (is_empty host || leb_ℤ port (pos 0))
    let o = parse_key_value_options (drop 1 parts)
    credentials ← quantumult_credentials protocol o
    some (
        quantumult_node protocol host port credentials o (
          is_trojan_protocol protocol
          || (tls_enabled || equal_fold (option o (lit "over-tls")) (lit "true"))))

  unfoldable pub quantumult_lines : List Text → List ParsedNode
  quantumult_lines [] = []
  quantumult_lines (raw ∷ lines) =
      let rest = quantumult_lines lines in
      let line = trim_space raw in
      if is_empty line || has_prefix line (lit "#") || has_prefix line (lit ";")
      then rest
      else add_node (parse_quantumult_line line) rest

  unfoldable pub parse_quantumult_subscription : Text → Result (List ParsedNode)
  unfolding quantumult_lines
  parse_quantumult_subscription body =
      or_empty (lit "subscription contains no supported quantumultx nodes")
        (ok (quantumult_lines (fields_lines body)))
