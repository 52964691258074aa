-- ===== src/Selector/Username.antt =====
-- `Filters`, `ParseUsername` and the text behind `FilterHash` of selector/service.go.
pub mod RoundTrip
use proxydeck.Prelude.{◌≡◌, refl, ◌||◌, List, [], ◌∷◌, ◌++◌, if◌then◌else◌}
use proxydeck.Strings.{Text, lit, text_eq, is_empty}
use proxydeck.Strings.Space.{trim_space}
use proxydeck.Strings.Split.{contains, split, split_two}

pub record Filters : Type 0 where
  pub region : Text
  pub state : Text
  pub city : Text
  pub asn : Text
  pub isp : Text
  pub sid : Text

abbrev pub no_filters : Filters
no_filters = record { region = []; state = []; city = []; asn = []; isp = []; sid = [] }

-- The `switch` on the key, in both parsers: an unknown key changes nothing.
unfoldable pub set_filter : Text → Text → Filters → Filters
set_filter key value f =
    if text_eq key (lit "region")
    then record f { region = value }
    else if text_eq key (lit "st") || text_eq key (lit "state")
    then record f { state = value }
    else if text_eq key (lit "city")
    then record f { city = value }
    else if text_eq key (lit "asn")
    then record f { asn = value }
    else if text_eq key (lit "isp")
    then record f { isp = value }
    else if text_eq key (lit "sid")
    then record f { sid = value }
    else f

-- One round of the loop over `parts[1:]`, for `kv`.
legacy_field : List Text → Filters → Filters
legacy_field (key ∷ value ∷ []) f = set_filter key value f
legacy_field _ f = f

legacy_fields : List Text → Filters → Filters
unfolding legacy_field
legacy_fields [] f = f
legacy_fields (part ∷ parts) f = legacy_fields parts (legacy_field (split_two part (lit "=")) f)

abbrev legacy_parts : List Text → Text × Filters
legacy_parts [] = ([], no_filters)
legacy_parts (uid ∷ parts) = (uid, legacy_fields parts no_filters)

pub parse_legacy_username : Text → Text × Filters
unfolding legacy_fields
parse_legacy_username raw = legacy_parts (split raw (lit "__"))

-- The loop takes the parts two at a time; a last part without a partner is dropped.
dash_fields : List Text → Filters → Filters
dash_fields (key ∷ value ∷ parts) f =
    dash_fields parts (set_filter (trim_space key) (trim_space value) f)
dash_fields _ f = f

abbrev dash_parts : List Text → Text × Filters
dash_parts [] = ([], no_filters)
dash_parts (uid ∷ parts) = (trim_space uid, dash_fields parts no_filters)

pub parse_dash_username : Text → Text × Filters
unfolding dash_fields
parse_dash_username raw =
    if is_empty (trim_space raw)
    then ([], no_filters)
    else dash_parts (split (trim_space raw) (lit "-"))

unfoldable pub parse_username : Text → Text × Filters
unfolding parse_legacy_username parse_dash_username
parse_username raw =
    if contains raw (lit "__") then parse_legacy_username raw else parse_dash_username raw

-- The text that `FilterHash` hashes; the session is no part of it.
unfoldable pub hash_input : Filters → Text
hash_input f =
    f.region
    ++ (lit "|" ++ (f.state ++ (lit "|" ++ (f.city ++ (lit "|" ++ (f.asn ++ (lit "|" ++ f.isp)))))))

parse_username_runs :
    parse_username (lit "user001__region=SG__sid=demo")
    ≡ (lit "user001", record no_filters { region = lit "SG"; sid = lit "demo" })
unfolding parse_username split split_two contains set_filter text_eq
parse_username_runs = refl
