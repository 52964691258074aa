-- ===== src/Tests/Subscription.antt =====
-- The theorems on parsed subscriptions at two documents.
use proxydeck.Subscription.Region.{infer_region}
use proxydeck.Prelude.{refl, ◌>>◌, skip_if, true, false, none, [], ◌∷◌, List, All}
use proxydeck.Prelude.Int.{wrap64, pos}
use proxydeck.Errors.{ok}
use proxydeck.Strings.{to_upper, equal_fold, lit, text_eq, to_lower, is_empty}
use proxydeck.Strings.Space.{trim_space}
use proxydeck.Strings.Split.{contains, split}
use proxydeck.Strings.Number.{format_int, atoi}
use proxydeck.Subscription.Protocol.{
  is_trojan_protocol, is_shadowsocks_protocol, is_vmess_protocol, is_vless_protocol, normalized,
  one_of, is_supported_outbound_protocol,
}
use proxydeck.Subscription.Manual.{parse_manual_proxy_list, parse_manual_proxy_line}
use proxydeck.Subscription.Singbox.{parse_singbox_outbound, parse_singbox_subscription}
use proxydeck.Subscription.Value.{
  as_object, bool_value, as_float, float_is_zero, get, string_value, Fields, end, field, text,
  float64,
}
use proxydeck.Subscription.Decoders.{Decoders}
use proxydeck.Subscription.Node.{host_port, ParsedNode}
use proxydeck.Subscription.Body.{parse_subscription_body}
use proxydeck.Subscription.Body.Dialable.{IsServed, IsDialable}
use proxydeck.Subscription.Body.Sound.{
  parse_subscription_body-IsServed, parse_subscription_body-IsDialable,
}

abbrev pub outbound : Fields
outbound = field (lit "type") (text (lit "trojan")) (
    field (lit "server") (text (lit "a.example")) (
      field (lit "server_port") (float64 (record { whole = pos 443; fraction = 0 }))
        (field (lit "password") (text (lit "p")) end)))

abbrev pub decoders : Decoders
decoders = record {
  outbounds = λ t. ok (outbound ∷ []);
  proxies = λ t. ok [];
  json_object = λ t. none;
  marshal = λ f. [];
  parse_url = λ t. none;
  query_unescape = λ t. t;
  base64_std = λ t. none;
  base64_raw_std = λ t. none;
  base64_url = λ t. none;
  base64_raw_url = λ t. none;
}

abbrev singbox_nodes : List ParsedNode
singbox_nodes =
    record {
      protocol = lit "trojan";
      host = lit "a.example";
      port = pos 443;
      username = [];
      password = lit "p";
      tls_enabled = true;
      tls_skip_verify = false;
      server_name = [];
      tag = [];
      expected_region = [];
      raw_json = [];
    }
    ∷ []

abbrev manual_nodes : List ParsedNode
manual_nodes =
    record {
      protocol = lit "http";
      host = lit "10.0.0.1";
      port = pos 8080;
      username = [];
      password = [];
      tls_enabled = false;
      tls_skip_verify = false;
      server_name = [];
      tag = lit "10.0.0.1:8080";
      expected_region = [];
      raw_json = [];
    }
    ∷ []

parse_subscription_body-IsServed_example : All IsServed singbox_nodes
unfolding parse_subscription_body text_eq normalized to_lower trim_space parse_singbox_subscription
    parse_singbox_outbound ◌>>◌ skip_if is_supported_outbound_protocol one_of string_value get
    is_empty float_is_zero as_float is_vless_protocol equal_fold is_vmess_protocol wrap64
    is_shadowsocks_protocol is_trojan_protocol bool_value as_object infer_region to_upper contains
parse_subscription_body-IsServed_example =
    parse_subscription_body-IsServed decoders (lit "singbox") (lit "{}") singbox_nodes refl

parse_subscription_body-IsDialable_example : All IsDialable manual_nodes
unfolding text_eq normalized to_lower trim_space parse_subscription_body one_of
    parse_manual_proxy_list is_supported_outbound_protocol is_empty split parse_manual_proxy_line
    ◌>>◌ skip_if atoi host_port infer_region format_int to_upper contains
parse_subscription_body-IsDialable_example =
    parse_subscription_body-IsDialable decoders (lit "manual") (lit "10.0.0.1:8080") manual_nodes
      refl refl refl
