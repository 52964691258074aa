-- ===== src/Tests/Selector.antt =====
-- The theorems on the usernames of selector/service.go at concrete usernames.
use proxydeck.Prelude.{◌≡◌, refl, [], ◌∷◌, ◌++◌, List, arith}
use proxydeck.Strings.{Text, lit}
use proxydeck.Strings.Space.{is_space, trim_right}
use proxydeck.Strings.Split.{contains, has_prefix}
use proxydeck.Selector.Username.{no_filters, parse_username}
use proxydeck.Selector.Username.RoundTrip.{
  settle, legacy_suffix, dash_suffix, parse_username-legacy, parse_username-dash,
}

abbrev fields : List (Text × Text)
fields = (lit "st", lit "CA") ∷ []

parse_username-legacy_example :
    parse_username (lit "bob" ++ legacy_suffix ((lit "region", lit "US") ∷ fields))
    ≡ (lit "bob", settle ((lit "region", lit "US") ∷ fields) no_filters)
parse_username-legacy_example =
    parse_username-legacy (lit "bob") (lit "region", lit "US") fields (ground arith) (ground arith)

parse_username-dash_example :
    parse_username (lit "bob" ++ dash_suffix fields) ≡ (lit "bob", settle fields no_filters)
unfolding dash_suffix contains has_prefix trim_right is_space
parse_username-dash_example =
    parse_username-dash (lit "bob") fields (λ e. cc) (ground arith) (ground arith) (ground arith)
      refl
