-- ===== src/Subscription/Shadowrocket/Vmess.antt =====
-- `parseShadowrocketVMessNode`.
use proxydeck.Prelude.{
  Bool, false, not, ◌&&◌, ◌||◌, [], ◌∷◌, Option, some, ◌>>=◌, ◌>>◌, skip_if, if◌then◌else◌,
}
use proxydeck.Prelude.Int.{pos, leb_ℤ}
use proxydeck.Strings.{Text, lit, is_empty, equal_fold}
use proxydeck.Strings.Space.{trim_space}
use proxydeck.Strings.Split.{trim_prefix}
use proxydeck.Subscription.Value.{Fields, get, parse_port_value}
use proxydeck.Subscription.Decoders.{Decoders}
use proxydeck.Subscription.Protocol.{is_vmess_protocol, first_non_empty}
use proxydeck.Subscription.Region.{infer_region}
use proxydeck.Subscription.Node.{ParsedNode}
use proxydeck.Subscription.Clash.{str}
use proxydeck.Subscription.Shadowrocket.Base64.{decode_base64_text}

unfoldable pub vmess_tls : Fields → Bool
vmess_tls item =
    equal_fold (str item (lit "tls")) (lit "tls")
    || equal_fold (str item (lit "security")) (lit "tls")

unfoldable pub vmess_network : Fields → Text
vmess_network item =
    first_non_empty (str item (lit "net") ∷ str item (lit "network") ∷ str item (lit "type") ∷ [])

unfoldable pub vmess_server_name : Fields → Text → Text
unfolding vmess_tls
vmess_server_name item server =
    let name =
      first_non_empty
        (str item (lit "sni") ∷ str item (lit "servername") ∷ str item (lit "host") ∷ []) in
    if is_empty name && vmess_tls item then server else name

module _ (d : Decoders) where
  -- from the decoded object on
  unfoldable pub vmess_node : Fields → Option ParsedNode
  unfolding vmess_network vmess_server_name
  vmess_node item = do
    skip_if (not (is_vmess_protocol (first_non_empty (str item (lit "type") ∷ lit "vmess" ∷ []))))
    let server =
        first_non_empty
          (str item (lit "add") ∷ str item (lit "server") ∷ str item (lit "address") ∷ [])
    port ← parse_port_value (get item (lit "port"))
    skip_if (is_empty server || leb_ℤ port (pos 0))
    let network = vmess_network item
    skip_if (not (is_empty network) && not (equal_fold network (lit "tcp")))
    let uuid = first_non_empty (str item (lit "id") ∷ str item (lit "uuid") ∷ [])
    skip_if (is_empty uuid)
    let tag =
        first_non_empty (str item (lit "ps") ∷ str item (lit "name") ∷ str item (lit "remark") ∷ [])
    some (record {
      protocol = lit "vmess";
      host = server;
      port = port;
      username = uuid;
      password = [];
      tls_enabled = vmess_tls item;
      tls_skip_verify = false;
      server_name = vmess_server_name item server;
      tag = tag;
      expected_region = infer_region tag;
      raw_json = d.marshal item;
    })

  unfoldable pub parse_vmess_link : Text → Option ParsedNode
  unfolding vmess_node
  parse_vmess_link raw = do
    decoded ← decode_base64_text d (trim_space (trim_prefix (trim_space raw) (lit "vmess://")))
    item ← d.json_object decoded
    vmess_node item
