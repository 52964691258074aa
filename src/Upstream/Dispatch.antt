-- ===== src/Upstream/Dispatch.antt =====
-- Which nodes the dialers of upstream/direct_dial.go take, against the protocols that
-- subscription/service.go stores.
use proxydeck.Prelude.{◌≡◌, arith, Bool, true, false, ◌||◌}
use proxydeck.Errors.{Result, ok, err}
use proxydeck.Strings.{Text}
use proxydeck.Model.{ProxyNode}
use proxydeck.Subscription.Protocol.{one_of, is_supported_outbound_protocol}
use proxydeck.Upstream.{
  Dialer, is_shadowsocks, is_trojan, is_vless, is_vmess, is_http_proxy_protocol,
  is_socks_proxy_protocol, is_target_dial_protocol, dial_target,
}

-- The protocols that a subscription can store are exactly HTTP and those that have a dialer.
pub supported-dialled :
    (protocol : Text)
    → is_supported_outbound_protocol protocol
      ≡ (is_http_proxy_protocol protocol || is_target_dial_protocol protocol)
unfolding is_supported_outbound_protocol is_http_proxy_protocol is_target_dial_protocol
    is_shadowsocks is_trojan is_vless is_vmess is_socks_proxy_protocol one_of
supported-dialled protocol = ground arith

abbrev dials : Result Dialer → Bool
dials (ok d) = true
dials (err e) = false

-- `DialTarget` finds a dialer exactly for the nodes that the gateway hands to it.
dial_target-dials :
    (node : ProxyNode) → dials (dial_target node) ≡ is_target_dial_protocol node.protocol
unfolding is_target_dial_protocol dial_target is_shadowsocks is_trojan is_vless is_vmess
    is_socks_proxy_protocol
dial_target-dials node = ground arith
