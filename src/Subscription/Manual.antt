-- ===== src/Subscription/Manual.antt =====
-- `ParseManualProxyList`, `parseManualProxyLine` and the checks of `ImportManualNodes`.
use proxydeck.Prelude.{
  Bool, false, not, ◌&&◌, ◌||◌, List, [], ◌∷◌, ◌++◌, Option, none, some, length, get_or, ◌==◌,
  ◌>>=◌, ◌>>◌, skip_if, if◌then◌else◌,
}
use proxydeck.Prelude.Int.{ℤ, pos, leb_ℤ}
use proxydeck.Errors.{Result, ok, err, message}
use proxydeck.Strings.{Text, lit, is_empty}
use proxydeck.Strings.Space.{trim_space}
use proxydeck.Strings.Split.{split, has_prefix}
use proxydeck.Strings.Number.{atoi}
use proxydeck.Subscription.Value.{end}
use proxydeck.Subscription.Decoders.{Decoders}
use proxydeck.Subscription.Protocol.{normalized, is_supported_outbound_protocol}
use proxydeck.Subscription.Region.{infer_region}
use proxydeck.Subscription.Node.{ParsedNode, host_port, node_fields, or_empty}

abbrev pub default_http : Text → Text
default_http protocol = if is_empty protocol then lit "http" else protocol

unfoldable pub is_comment : Text → Bool
is_comment line = has_prefix line (lit "#") || has_prefix line (lit "//")

abbrev pub with_node :
    Option ParsedNode → Text → Result (List ParsedNode) → Result (List ParsedNode)
with_node none line rest = err (message (lit "invalid manual proxy line: " ++ line))
with_node (some node) line (ok nodes) = ok (node ∷ nodes)
with_node (some node) line (err e) = err e

module _ (d : Decoders) where
  unfoldable pub manual_node : Text → Text → ℤ → Text → Text → Text → ParsedNode
  manual_node protocol host port username password tag = record {
    protocol = protocol;
    host = host;
    port = port;
    username = username;
    password = password;
    tls_enabled = false;
    tls_skip_verify = false;
    server_name = [];
    tag = tag;
    expected_region = infer_region tag;
    raw_json = d.marshal (node_fields (lit "manual") protocol host port tag end);
  }

  -- `username` and `password` of the parts, `none` if one of them is missing
  manual_credentials : List Text → Option (Text × Text)
  manual_credentials (h ∷ p ∷ user ∷ pass ∷ []) = do
    skip_if (is_empty (trim_space user) || is_empty (trim_space pass))
    some (trim_space user, trim_space pass)
  manual_credentials _ = some ([], [])

  unfoldable pub parse_manual_proxy_line : Text → Text → Option ParsedNode
  unfolding manual_node manual_credentials
  parse_manual_proxy_line line protocol = do
    let parts = split (trim_space line) (lit ":")
    skip_if (not (length parts == 2) && not (length parts == 4))
    let host = trim_space (get_or parts 0 [])
    port ← atoi (trim_space (get_or parts 1 []))
    skip_if (is_empty host || leb_ℤ port (pos 0))
    (username, password) ← manual_credentials parts
    some (manual_node protocol host port username password (host_port host port))

  unfoldable pub parse_manual_lines : List Text → Text → Result (List ParsedNode)
  unfolding is_comment
  parse_manual_lines [] protocol = ok []
  parse_manual_lines (raw ∷ lines) protocol =
      let rest = parse_manual_lines lines protocol in
      let line = trim_space raw in
      if is_empty line || is_comment line
      then rest
      else with_node (parse_manual_proxy_line line protocol) line rest

  unfoldable pub parse_manual_proxy_list : Text → Text → Result (List ParsedNode)
  unfolding parse_manual_lines
  parse_manual_proxy_list body default_protocol =
      let protocol = default_http (normalized default_protocol) in
      if not (is_supported_outbound_protocol protocol)
      then err (message (lit "unsupported manual protocol: " ++ default_protocol))
      else or_empty (lit "manual proxy list is empty")
          (parse_manual_lines (split body (lit "\n")) protocol)

-- `ManualNodeInput`
pub record ManualNodeInput : Type 0 where
  pub protocol : Text
  pub host : Text
  pub port : ℤ
  pub username : Text
  pub password : Text
  pub tag : Text

module _ (d : Decoders) where
  -- one round of the loop of `ImportManualNodes`
  unfoldable pub manual_input_node : ManualNodeInput → Result ParsedNode
  manual_input_node input =
      let protocol = default_http (normalized input.protocol) in
      let host = trim_space input.host in
      let tag =
        (if is_empty (trim_space input.tag)
          then host_port host input.port
          else trim_space input.tag) in
      if not (is_supported_outbound_protocol protocol)
      then err (message (lit "unsupported manual protocol: " ++ input.protocol))
      else if is_empty host || leb_ℤ input.port (pos 0)
      then err (message (lit "invalid manual node: host and port are required"))
      else ok (
          manual_node d protocol host input.port (trim_space input.username)
            (trim_space input.password) tag)

  abbrev and_rest : Result ParsedNode → Result (List ParsedNode) → Result (List ParsedNode)
  and_rest (ok node) (ok nodes) = ok (node ∷ nodes)
  and_rest (ok node) (err e) = err e
  and_rest (err e) rest = err e

  -- the whole loop: the first bad input ends it
  unfoldable pub manual_input_nodes : List ManualNodeInput → Result (List ParsedNode)
  unfolding manual_input_node
  manual_input_nodes [] = ok []
  manual_input_nodes (input ∷ inputs) =
      and_rest (manual_input_node input) (manual_input_nodes inputs)
