-- ===== src/Upstream.antt =====
-- backend/internal/upstream: the tests on a node's protocol, the choice of a dialer, `SchemeForNode`
-- and `ProxyAuthorization`. The cipher and base64 are parameters.
pub mod Dispatch
pub mod Frames
pub mod Network
pub mod Dial
pub mod Url
use proxydeck.Prelude.{Bool, ◌||◌, ◌&&◌, [], ◌∷◌, ◌++◌, if◌then◌else◌}
use proxydeck.Errors.{Error, Result, ok, err, message}
use proxydeck.Strings.{Text, lit, text_eq, is_empty}
use proxydeck.Model.{ProxyNode}
use proxydeck.Subscription.Protocol.{normalized, one_of}

unfoldable pub is_shadowsocks : Text → Bool
is_shadowsocks protocol = one_of (normalized protocol) (lit "ss" ∷ lit "shadowsocks" ∷ [])

unfoldable pub is_trojan : Text → Bool
is_trojan protocol = text_eq (normalized protocol) (lit "trojan")

unfoldable pub is_vless : Text → Bool
is_vless protocol = text_eq (normalized protocol) (lit "vless")

unfoldable pub is_vmess : Text → Bool
is_vmess protocol = text_eq (normalized protocol) (lit "vmess")

unfoldable pub is_http_proxy_protocol : Text → Bool
is_http_proxy_protocol protocol = text_eq (normalized protocol) (lit "http")

unfoldable pub is_socks_proxy_protocol : Text → Bool
is_socks_proxy_protocol protocol = one_of (normalized protocol) (lit "socks" ∷ lit "socks5" ∷ [])

unfoldable pub is_target_dial_protocol : Text → Bool
unfolding is_shadowsocks is_trojan is_vless is_vmess is_socks_proxy_protocol
is_target_dial_protocol protocol =
    is_socks_proxy_protocol protocol
    || (is_shadowsocks protocol || (is_trojan protocol || (is_vless protocol || is_vmess protocol)))

-- Which dialer `DialTarget` runs; the error is its default case.
pub data Dialer : Type 0 where
  socks_dialer shadowsocks_dialer trojan_dialer vless_dialer vmess_dialer : Dialer

unfoldable pub dial_target : ProxyNode → Result Dialer
unfolding is_shadowsocks is_trojan is_vless is_vmess is_socks_proxy_protocol
dial_target node =
    if is_socks_proxy_protocol node.protocol
    then ok socks_dialer
    else if is_shadowsocks node.protocol
    then ok shadowsocks_dialer
    else if is_trojan node.protocol
    then ok trojan_dialer
    else if is_vless node.protocol
    then ok vless_dialer
    else if is_vmess node.protocol
    then ok vmess_dialer
    else err (message (lit "unsupported target dial protocol: " ++ node.protocol))

unfoldable pub scheme_for_node : ProxyNode → Result Text
scheme_for_node node =
    let p = normalized node.protocol in
    if text_eq p (lit "http")
    then (if node.tls_enabled then ok (lit "https") else ok (lit "http"))
    else if one_of p (lit "socks" ∷ lit "socks5" ∷ [])
    then ok (lit "socks5")
    else err (message (lit "unsupported upstream protocol: " ++ node.protocol))

abbrev basic_header : (Text → Text) → Text → Text → Text
basic_header encode user pass =
    if is_empty user && is_empty pass
    then []
    else lit "Basic " ++ encode (user ++ (lit ":" ++ pass))

abbrev with_password : (Text → Text) → Text → Result Text → Result Text
with_password encode user (err e) = err e
with_password encode user (ok pass) = ok (basic_header encode user pass)

abbrev with_username : (Text → Text) → Result Text → Result Text → Result Text
with_username encode (err e) password = err e
with_username encode (ok user) password = with_password encode user password

-- `decrypt` is `Cipher.Decrypt`, `encode` is base64.StdEncoding.
unfoldable pub proxy_authorization : (Text → Result Text) → (Text → Text) → ProxyNode → Result Text
proxy_authorization decrypt encode node =
    with_username encode (decrypt node.upstream_username_enc) (decrypt node.upstream_password_enc)
