-- ===== src/Subscription/Singbox.antt =====
-- `parseSingboxSubscription`.
use proxydeck.Prelude.{
  Bool, not, ◌&&◌, ◌||◌, List, [], ◌∷◌, Option, none, some, ◌>>◌, skip_if, if◌then◌else◌,
}
use proxydeck.Prelude.Int.{ℤ}
use proxydeck.Errors.{Result, ok, err}
use proxydeck.Strings.{Text, lit, is_empty, equal_fold}
use proxydeck.Subscription.Value.{
  Fields, end, get, bool_value, is_null, as_object, as_float, float_is_zero, int64_of,
}
use proxydeck.Subscription.Decoders.{Decoders}
use proxydeck.Subscription.Protocol.{
  one_of, is_supported_outbound_protocol, is_shadowsocks_protocol, is_trojan_protocol,
  is_vless_protocol, is_vmess_protocol,
}
use proxydeck.Subscription.Region.{infer_region}
use proxydeck.Subscription.Node.{ParsedNode, add_node}
use proxydeck.Subscription.Clash.{str}

-- The object under `tls`; without one, every entry is missing.
tls_object : Option Fields → Fields
tls_object none = end
tls_object (some fs) = fs

unfoldable pub singbox_tls : Fields → Fields
unfolding tls_object
singbox_tls item = tls_object (as_object (get item (lit "tls")))

-- whether the block of its protocol leaves a VLESS or a VMess outbound out
unfoldable pub singbox_skips : Text → Fields → Bool
singbox_skips protocol item =
    let transport = str item (lit "transport") in
    (is_vless_protocol protocol && not (is_null (get item (lit "transport"))))
    || (is_vmess_protocol protocol
        && not (is_empty transport)
        && not (equal_fold transport (lit "tcp")))

unfoldable pub singbox_credentials : Text → Fields → Text × Text
singbox_credentials protocol item =
    if is_vless_protocol protocol || is_vmess_protocol protocol
    then (str item (lit "uuid"), [])
    else if is_shadowsocks_protocol protocol
    then (str item (lit "method"), str item (lit "password"))
    else (str item (lit "username"), str item (lit "password"))

module _ (d : Decoders) where
  unfoldable pub singbox_node : Text → Text → ℤ → Fields → ParsedNode
  unfolding singbox_tls singbox_credentials
  singbox_node protocol server port item =
      let tls = singbox_tls item in
      let (username, password) = singbox_credentials protocol item in
      let tag = str item (lit "tag") in
      record {
        protocol = protocol;
        host = server;
        port = port;
        username = username;
        password = password;
        tls_enabled = is_trojan_protocol protocol || bool_value (get tls (lit "enabled"));
        tls_skip_verify = bool_value (get tls (lit "insecure"));
        server_name = str tls (lit "server_name");
        tag = tag;
        expected_region = infer_region tag;
        raw_json = d.marshal item;
      }

  -- one round of the loop, `none` where it goes on without a node
  unfoldable pub parse_singbox_outbound : Fields → Option ParsedNode
  unfolding singbox_node singbox_skips int64_of
  parse_singbox_outbound item = do
    let protocol = str item (lit "type")
    skip_if (not (is_supported_outbound_protocol protocol))
    let server = str item (lit "server")
    let port = as_float (get item (lit "server_port"))
    skip_if (is_empty server || float_is_zero port)
    skip_if (one_of (str item (lit "tag")) (lit "selector" ∷ lit "urltest" ∷ lit "direct" ∷ []))
    skip_if (singbox_skips protocol item)
    some (singbox_node protocol server (int64_of port.whole) item)

  unfoldable pub parse_singbox_outbounds : List Fields → List ParsedNode
  parse_singbox_outbounds [] = []
  parse_singbox_outbounds (item ∷ items) =
      add_node (parse_singbox_outbound item) (parse_singbox_outbounds items)

  abbrev pub singbox_document : Result (List Fields) → Result (List ParsedNode)
  singbox_document (err e) = err e
  singbox_document (ok items) = ok (parse_singbox_outbounds items)

  -- A document without a usable outbound is no error in this format.
  unfoldable pub parse_singbox_subscription : Text → Result (List ParsedNode)
  unfolding parse_singbox_outbounds
  parse_singbox_subscription body = singbox_document (d.outbounds body)
