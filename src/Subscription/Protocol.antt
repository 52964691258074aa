-- ===== src/Subscription/Protocol.antt =====
-- The tests on protocol names, `normalizeProxyProtocol`, `firstNonEmpty`, `splitCommaSeparated` and
-- `parseKeyValueOptions` of subscription/service.go.
use proxydeck.Prelude.{Bool, true, false, ◌||◌, List, [], ◌∷◌, Option, none, some, if◌then◌else◌}
use proxydeck.Strings.{Text, lit, text_eq, is_empty, to_lower, equal_fold}
use proxydeck.Strings.Space.{trim_space}
use proxydeck.Strings.Split.{cut, split}

-- `strings.ToLower(strings.TrimSpace(s))`
unfoldable pub normalized : Text → Text
normalized s = to_lower (trim_space s)

unfoldable pub one_of : Text → List Text → Bool
one_of s [] = false
one_of s (t ∷ ts) = text_eq s t || one_of s ts

abbrev pub outbound_protocols : List Text
outbound_protocols =
    lit "http"
    ∷ lit "socks"
    ∷ lit "socks5"
    ∷ lit "ss"
    ∷ lit "shadowsocks"
    ∷ lit "trojan"
    ∷ lit "vless"
    ∷ lit "vmess"
    ∷ []

unfoldable pub is_supported_outbound_protocol : Text → Bool
is_supported_outbound_protocol protocol = one_of (normalized protocol) outbound_protocols

unfoldable pub is_shadowsocks_protocol : Text → Bool
is_shadowsocks_protocol protocol = one_of (normalized protocol) (lit "ss" ∷ lit "shadowsocks" ∷ [])

unfoldable pub is_trojan_protocol : Text → Bool
is_trojan_protocol protocol = equal_fold (trim_space protocol) (lit "trojan")

unfoldable pub is_vless_protocol : Text → Bool
is_vless_protocol protocol = equal_fold (trim_space protocol) (lit "vless")

unfoldable pub is_vmess_protocol : Text → Bool
is_vmess_protocol protocol = equal_fold (trim_space protocol) (lit "vmess")

-- The empty protocol is the refusal.
unfoldable pub normalize_proxy_protocol : Text → Text × Bool
normalize_proxy_protocol value =
    let p = normalized value in
    if text_eq p (lit "http")
    then (lit "http", false)
    else if text_eq p (lit "https")
    then (lit "http", true)
    else if one_of p (lit "socks" ∷ lit "socks5" ∷ [])
    then (lit "socks", false)
    else if one_of p (lit "ss" ∷ lit "shadowsocks" ∷ [])
    then (lit "ss", false)
    else if text_eq p (lit "trojan")
    then (lit "trojan", true)
    else if text_eq p (lit "vless")
    then (lit "vless", false)
    else ([], false)

unfoldable pub first_non_empty : List Text → Text
first_non_empty [] = []
first_non_empty (value ∷ values) =
    if is_empty (trim_space value) then first_non_empty values else trim_space value

keep_part : Text → List Text → List Text
keep_part [] parts = parts
keep_part (c ∷ s) parts = (c ∷ s) ∷ parts

trimmed_parts : List Text → List Text
unfolding keep_part
trimmed_parts [] = []
trimmed_parts (part ∷ parts) = keep_part (trim_space part) (trimmed_parts parts)

unfoldable pub split_comma_separated : Text → List Text
unfolding trimmed_parts
split_comma_separated value = trimmed_parts (split value (lit ","))

-- A Go map from option names to values, latest entry first.
abbrev pub OptionMap : Type 0
OptionMap = List (Text × Text)

option_of : Option (Text × Text) → OptionMap → OptionMap
option_of none m = m
option_of (some (key, value)) m = (normalized key, trim_space value) ∷ m

options_from : List Text → OptionMap → OptionMap
unfolding option_of
options_from [] m = m
options_from (part ∷ parts) m = options_from parts (option_of (cut part (lit "=")) m)

unfoldable pub parse_key_value_options : List Text → OptionMap
unfolding options_from
parse_key_value_options parts = options_from parts []

-- `options[key]`, the empty text if it is missing
unfoldable pub option : OptionMap → Text → Text
option [] k = []
option ((j, v) ∷ m) k = if text_eq j k then v else option m k
