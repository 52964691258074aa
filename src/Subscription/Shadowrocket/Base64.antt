-- ===== src/Subscription/Shadowrocket/Base64.antt =====
-- `padBase64`, `decodeBase64Text`, `decodeShadowsocksUserInfo` and `decodeShadowrocketLine`.
use proxydeck.Prelude.{
  ℕ, zero, suc, ◌+◌, ◌-◌, ◌%◌, [], ◌∷◌, ◌++◌, Option, none, some, ltb, ◌==◌, ◌>>=◌, ◌>>◌, skip_if,
  if◌then◌else◌,
}
use proxydeck.Strings.{Text, lit, is_empty}
use proxydeck.Strings.Space.{trim_space}
use proxydeck.Strings.Split.{contains, cut}
use proxydeck.Subscription.Decoders.{Decoders}

-- bytes of a code point in UTF-8, and of a text
unfoldable pub char_bytes : ℕ → ℕ
char_bytes c = if ltb c 0x80 then 1 else if ltb c 0x800 then 2 else if ltb c 0x10000 then 3 else 4

unfoldable pub byte_length : Text → ℕ
unfolding char_bytes
byte_length [] = 0
byte_length (c ∷ s) = char_bytes c + byte_length s

-- strings.Repeat("=", n)
unfoldable pub padding : ℕ → Text
padding zero = []
padding (suc n) = b'=' ∷ padding n

unfoldable pub pad_base64 : Text → Text
unfolding byte_length padding
pad_base64 value =
    if byte_length value % 4 == 0 then value else value ++ padding (4 - byte_length value % 4)

-- the first of several attempts that succeeds
abbrev or_try : Option Text → Option Text → Option Text
or_try (some a) b = some a
or_try none b = b

module _ (d : Decoders) where
  unfoldable pub decode_base64_text : Text → Option Text
  decode_base64_text value =
      let trimmed = trim_space value in
      or_try (d.base64_raw_url trimmed) (
        or_try (d.base64_url (pad_base64 trimmed))
          (or_try (d.base64_raw_std trimmed) (d.base64_std (pad_base64 trimmed))))

  unfoldable pub decode_shadowsocks_user_info : Text → Option (Text × Text)
  unfolding decode_base64_text
  decode_shadowsocks_user_info value = do decoded ← decode_base64_text value; cut decoded (lit ":")

  abbrev trimmed_text : Option Text → Option Text
  trimmed_text none = none
  trimmed_text (some s) = some (trim_space s)

  unfoldable pub decode_shadowrocket_line : Text → Option Text
  decode_shadowrocket_line line = do
    let trimmed = trim_space line
    skip_if (is_empty trimmed)
    let decoded = trimmed_text (
        or_try (d.base64_std (pad_base64 trimmed))
          (or_try (d.base64_raw_std trimmed) (d.base64_url (pad_base64 trimmed))))
    if contains trimmed (lit "://") then some trimmed else decoded
