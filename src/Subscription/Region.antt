-- ===== src/Subscription/Region.antt =====
-- `regionPattern`, `regionHints` and `inferRegion` of subscription/service.go.
use proxydeck.Prelude.{
  ℕ, ◌≡◌, refl, Bool, false, not, ◌&&◌, ◌||◌, List, [], ◌∷◌, Option, none, some, leb, ◌==◌,
  if◌then◌else◌,
}
use proxydeck.Strings.{Text, lit, text_eq, to_lower, to_upper}
use proxydeck.Strings.Split.{contains}
use proxydeck.Subscription.Protocol.{one_of}

-- `\w` of the regular expressions of Go: ASCII only
unfoldable pub is_word_char : ℕ → Bool
is_word_char c =
    (leb b'0' c && leb c b'9')
    || (leb b'A' c && leb c b'Z')
    || (leb b'a' c && leb c b'z')
    || c == b'_'

-- whether a text goes on with a character that is part of a word
unfoldable pub starts_in_word : Text → Bool
unfolding is_word_char
starts_in_word [] = false
starts_in_word (c ∷ s) = is_word_char c

abbrev pub region_codes : List Text
region_codes =
    lit "HK"
    ∷ lit "SG"
    ∷ lit "US"
    ∷ lit "JP"
    ∷ lit "TW"
    ∷ lit "KR"
    ∷ lit "DE"
    ∷ lit "FR"
    ∷ lit "GB"
    ∷ lit "NL"
    ∷ lit "CA"
    ∷ lit "AU"
    ∷ []

-- The leftmost match of `\b(HK|SG|…)\b` in a text of upper case, the flag saying whether the
-- character before is part of a word.
unfoldable pub find_region_code : Bool → Text → Option Text
unfolding starts_in_word one_of
find_region_code inside [] = none
find_region_code inside (c ∷ []) = none
find_region_code inside (c ∷ d ∷ s) =
    if not inside && one_of (c ∷ d ∷ []) region_codes && not (starts_in_word s)
    then some (c ∷ d ∷ [])
    else find_region_code (is_word_char c) (d ∷ s)

abbrev hint : Text → Text → Text × Text
hint m r = (m, r)

abbrev pub region_hints : List (Text × Text)
region_hints =
    hint (lit "🇭🇰") (lit "HK")
    ∷ hint (lit "香港") (lit "HK")
    ∷ hint (lit "hong kong") (lit "HK")
    ∷ hint (lit "🇸🇬") (lit "SG")
    ∷ hint (lit "新加坡") (lit "SG")
    ∷ hint (lit "singapore") (lit "SG")
    ∷ hint (lit "🇯🇵") (lit "JP")
    ∷ hint (lit "日本") (lit "JP")
    ∷ hint (lit "东京") (lit "JP")
    ∷ hint (lit "tokyo") (lit "JP")
    ∷ hint (lit "japan") (lit "JP")
    ∷ hint (lit "🇺🇸") (lit "US")
    ∷ hint (lit "美国") (lit "US")
    ∷ hint (lit "硅谷") (lit "US")
    ∷ hint (lit "洛杉矶") (lit "US")
    ∷ hint (lit "los angeles") (lit "US")
    ∷ hint (lit "silicon valley") (lit "US")
    ∷ hint (lit "usa") (lit "US")
    ∷ hint (lit "united states") (lit "US")
    ∷ hint (lit "🇹🇼") (lit "TW")
    ∷ hint (lit "台湾") (lit "TW")
    ∷ hint (lit "taiwan") (lit "TW")
    ∷ hint (lit "🇰🇷") (lit "KR")
    ∷ hint (lit "韩国") (lit "KR")
    ∷ hint (lit "seoul") (lit "KR")
    ∷ hint (lit "korea") (lit "KR")
    ∷ hint (lit "🇩🇪") (lit "DE")
    ∷ hint (lit "德国") (lit "DE")
    ∷ hint (lit "germany") (lit "DE")
    ∷ hint (lit "🇫🇷") (lit "FR")
    ∷ hint (lit "法国") (lit "FR")
    ∷ hint (lit "france") (lit "FR")
    ∷ hint (lit "🇬🇧") (lit "GB")
    ∷ hint (lit "英国") (lit "GB")
    ∷ hint (lit "london") (lit "GB")
    ∷ hint (lit "uk") (lit "GB")
    ∷ hint (lit "🇳🇱") (lit "NL")
    ∷ hint (lit "荷兰") (lit "NL")
    ∷ hint (lit "netherlands") (lit "NL")
    ∷ hint (lit "🇨🇦") (lit "CA")
    ∷ hint (lit "加拿大") (lit "CA")
    ∷ hint (lit "canada") (lit "CA")
    ∷ hint (lit "🇦🇺") (lit "AU")
    ∷ hint (lit "澳大利亚") (lit "AU")
    ∷ hint (lit "悉尼") (lit "AU")
    ∷ hint (lit "australia") (lit "AU")
    ∷ []

unfoldable pub find_hint : Text → List (Text × Text) → Text
find_hint lowered [] = []
find_hint lowered ((m, region) ∷ hints) =
    if contains lowered (to_lower m) then region else find_hint lowered hints

abbrev code_or_hint : Option Text → Text → Text
code_or_hint (some code) tag = code
code_or_hint none tag = find_hint (to_lower tag) region_hints

unfoldable pub infer_region : Text → Text
unfolding find_region_code find_hint
infer_region tag = code_or_hint (find_region_code false (to_upper tag)) tag

infer_region_runs :
    (infer_region (lit "node-us-1") ≡ lit "US")
    × (infer_region (lit "Tokyo 3") ≡ lit "JP")
    × (infer_region (lit "house") ≡ [])
unfolding infer_region to_upper to_lower contains text_eq
infer_region_runs = (refl, refl, refl)
