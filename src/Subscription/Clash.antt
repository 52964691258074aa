-- ===== src/Subscription/Clash.antt =====
-- `parseClashSubscription`.
use proxydeck.Prelude.{
  Bool, not, ◌&&◌, ◌||◌, List, [], ◌∷◌, Option, some, ◌>>=◌, ◌>>◌, skip_if, if◌then◌else◌,
}
use proxydeck.Prelude.Int.{ℤ, pos, leb_ℤ}
use proxydeck.Errors.{Result, ok, err}
use proxydeck.Strings.{Text, lit, is_empty, equal_fold}
use proxydeck.Subscription.Value.{Fields, get, string_value, bool_value, parse_port_value}
use proxydeck.Subscription.Decoders.{Decoders}
use proxydeck.Subscription.Protocol.{
  is_supported_outbound_protocol, is_shadowsocks_protocol, is_trojan_protocol, is_vless_protocol,
  is_vmess_protocol, first_non_empty,
}
use proxydeck.Subscription.Region.{infer_region}
use proxydeck.Subscription.Node.{ParsedNode, or_empty, add_node}

-- `stringValue(item[key])`
abbrev pub str : Fields → Text → Text
str item k = string_value (get item k)

clash_network : Fields → Text
clash_network item = first_non_empty (str item (lit "network") ∷ str item (lit "type") ∷ [])

-- whether the block of its protocol leaves a VLESS or a VMess proxy out
unfoldable pub clash_skips : Text → Fields → Bool
unfolding clash_network
clash_skips protocol item =
    let network = clash_network item in
    (is_vless_protocol protocol
      && ((not (is_empty network)
            && not (equal_fold network (lit "tcp"))
            && not (equal_fold network (lit "raw")))
          || not (is_empty (str item (lit "flow")))))
    || (is_vmess_protocol protocol
        && not (is_empty network)
        && not (equal_fold network (lit "tcp")))

-- the four blocks that set `username` and `password`, in their order
unfoldable pub clash_credentials : Text → Fields → Text × Text
clash_credentials protocol item =
    if is_vless_protocol protocol || is_vmess_protocol protocol
    then (str item (lit "uuid"), [])
    else if is_shadowsocks_protocol protocol
    then (
      first_non_empty (str item (lit "cipher") ∷ str item (lit "method") ∷ []),
      str item (lit "password"),
    )
    else (str item (lit "username"), str item (lit "password"))

-- `serverName`, with the flag `tls` of the item
unfoldable pub clash_server_name : Text → Fields → Bool → Text → Text
clash_server_name protocol item tls server =
    let first = str item (lit "servername") in
    let name = (if is_empty first then str item (lit "sni") else first) in
    if is_empty name && (tls || is_trojan_protocol protocol) then server else name

module _ (d : Decoders) where
  unfoldable pub clash_node : Text → Text → ℤ → Fields → ParsedNode
  unfolding clash_credentials clash_server_name
  clash_node protocol server port item =
      let tls = bool_value (get item (lit "tls")) in
      let (username, password) = clash_credentials protocol item in
      let tag = str item (lit "name") in
      record {
        protocol = protocol;
        host = server;
        port = port;
        username = username;
        password = password;
        tls_enabled = is_trojan_protocol protocol || tls;
        tls_skip_verify =
            bool_value (get item (lit "skip-cert-verify"))
            || bool_value (get item (lit "insecure"));
        server_name = clash_server_name protocol item tls server;
        tag = tag;
        expected_region = infer_region tag;
        raw_json = d.marshal item;
      }

  -- one round of the loop, `none` where it goes on without a node
  unfoldable pub parse_clash_proxy : Fields → Option ParsedNode
  unfolding clash_node clash_skips
  parse_clash_proxy item = do
    let protocol = str item (lit "type")
    skip_if (not (is_supported_outbound_protocol protocol))
    let server = str item (lit "server")
    port ← parse_port_value (get item (lit "port"))
    skip_if (is_empty server || leb_ℤ port (pos 0))
    skip_if (clash_skips protocol item)
    some (clash_node protocol server port item)

  unfoldable pub parse_clash_proxies : List Fields → List ParsedNode
  parse_clash_proxies [] = []
  parse_clash_proxies (item ∷ items) = add_node (parse_clash_proxy item) (parse_clash_proxies items)

  abbrev pub clash_document : Result (List Fields) → Result (List ParsedNode)
  clash_document (err e) = err e
  clash_document (ok items) =
      or_empty (lit "subscription contains no supported clash/mihomo nodes")
        (ok (parse_clash_proxies items))

  unfoldable pub parse_clash_subscription : Text → Result (List ParsedNode)
  unfolding parse_clash_proxies
  parse_clash_subscription body = clash_document (d.proxies body)
