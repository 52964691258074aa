-- ===== src/Subscription/Shadowrocket.antt =====
-- `parseShadowrocketSubscription` and `parseShadowrocketNode`. The links of the protocols that have
-- a parser of their own are in the modules below.
pub mod Base64
pub mod Links
pub mod Vmess
use proxydeck.Prelude.{
  Bool, true, false, List, [], ◌∷◌, Option, none, some, ◌||◌, ◌>>=◌, ◌>>◌, skip_if, if◌then◌else◌,
}
use proxydeck.Prelude.Int.{ℤ, pos, leb_ℤ}
use proxydeck.Errors.{Result, ok}
use proxydeck.Strings.{Text, lit, text_eq, is_empty}
use proxydeck.Strings.Space.{trim_space}
use proxydeck.Strings.Split.{split_two, fields_lines}
use proxydeck.Strings.Number.{atoi}
use proxydeck.Subscription.Value.{end, field, text, bool}
use proxydeck.Subscription.Decoders.{Decoders, Url, Userinfo}
use proxydeck.Subscription.Protocol.{normalized, one_of}
use proxydeck.Subscription.Region.{infer_region}
use proxydeck.Subscription.Node.{ParsedNode, node_fields, or_empty, add_node}
use Base64.{pad_base64, decode_shadowrocket_line}
use Links.{url_tag, parse_shadowsocks_link, parse_trojan_link, parse_vless_link}
use Vmess.{parse_vmess_link}

abbrev pair_or : Text → List Text → Text × Text
pair_or user (a ∷ b ∷ []) = (a, b)
pair_or user _ = (user, [])

module _ (d : Decoders) where
  abbrev first_of_two : Option Text → Option Text → Option Text
  first_of_two (some a) b = some a
  first_of_two none b = b

  abbrev split_credentials : Text → Option Text → Text × Text
  split_credentials user none = (user, [])
  split_credentials user (some decoded) = pair_or user (split_two decoded (lit ":"))

  abbrev user_credentials : Text → Option Text → Text × Text
  user_credentials user (some password) = (user, password)
  user_credentials user none =
      split_credentials user (first_of_two (d.base64_std (pad_base64 user)) (d.base64_raw_std user))

  unfoldable pub parse_shadowrocket_credentials : Option Userinfo → Text × Text
  parse_shadowrocket_credentials none = ([], [])
  parse_shadowrocket_credentials (some u) = user_credentials u.username u.password

  -- the branches for `http`, `https` and `socks`
  unfoldable pub parse_plain_link : Text → Bool → Url → Option ParsedNode
  unfolding parse_shadowrocket_credentials
  parse_plain_link protocol tls_enabled u = do
    port ← atoi u.port
    skip_if (is_empty u.hostname || leb_ℤ port (pos 0))
    let (username, password) = parse_shadowrocket_credentials u.user
    let tag = url_tag d u
    some (record {
      protocol = protocol;
      host = u.hostname;
      port = port;
      username = username;
      password = password;
      tls_enabled = tls_enabled;
      tls_skip_verify = false;
      server_name = u.hostname;
      tag = tag;
      expected_region = infer_region tag;
      raw_json = d.marshal (
          node_fields (lit "shadowrocket") protocol u.hostname port tag (
            field (lit "tls_enabled") (bool tls_enabled)
              (field (lit "server_name") (text u.hostname) end)));
    })

  -- the `switch` on the scheme
  unfoldable pub parse_link_as : Text → Text → Url → Option ParsedNode
  parse_link_as scheme raw u =
      if text_eq scheme (lit "http")
      then parse_plain_link (lit "http") false u
      else if text_eq scheme (lit "https")
      then parse_plain_link (lit "http") true u
      else if one_of scheme (lit "socks" ∷ lit "socks5" ∷ [])
      then parse_plain_link (lit "socks") false u
      else if one_of scheme (lit "ss" ∷ lit "shadowsocks" ∷ [])
      then parse_shadowsocks_link d raw
      else if text_eq scheme (lit "trojan")
      then parse_trojan_link d raw
      else if text_eq scheme (lit "vless")
      then parse_vless_link d raw
      else if text_eq scheme (lit "vmess")
      then parse_vmess_link d raw
      else none

  unfoldable pub parse_shadowrocket_node : Text → Option ParsedNode
  unfolding parse_link_as
  parse_shadowrocket_node raw = do
    u ← d.parse_url (trim_space raw)
    parse_link_as (normalized u.scheme) raw u

  unfoldable pub parse_shadowrocket_line : Text → Option ParsedNode
  parse_shadowrocket_line line = do
    decoded ← decode_shadowrocket_line d line
    parse_shadowrocket_node decoded

  unfoldable pub shadowrocket_lines : List Text → List ParsedNode
  unfolding parse_shadowrocket_line
  shadowrocket_lines [] = []
  shadowrocket_lines (line ∷ lines) =
      add_node (parse_shadowrocket_line line) (shadowrocket_lines lines)

  unfoldable pub parse_shadowrocket_subscription : Text → Result (List ParsedNode)
  unfolding shadowrocket_lines
  parse_shadowrocket_subscription body =
      or_empty (lit "subscription contains no supported shadowrocket nodes")
        (ok (shadowrocket_lines (fields_lines (trim_space body))))
