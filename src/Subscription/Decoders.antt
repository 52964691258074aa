-- ===== src/Subscription/Decoders.antt =====
-- What subscription/service.go calls of encoding/json, yaml.v3, encoding/base64 and net/url. The
-- development reads nothing into these functions: they are parameters of the parsers.
use proxydeck.Prelude.{List, Option, none, some, [], ◌∷◌, if◌then◌else◌}
use proxydeck.Errors.{Result}
use proxydeck.Strings.{Text, text_eq}
use proxydeck.Subscription.Value.{Fields}

pub record Userinfo : Type 0 where
  pub username : Text
  pub password : Option Text

pub record Url : Type 0 where
  pub scheme : Text
  pub hostname : Text
  pub port : Text
  pub user : Option Userinfo
  pub fragment : Text
  pub query : List (Text × Text)

pub record Decoders : Type 0 where
  -- `outbounds` of a JSON document, `proxies` of a YAML document
  pub outbounds : Text → Result (List Fields)
  pub proxies : Text → Result (List Fields)
  -- a JSON object
  pub json_object : Text → Option Fields
  pub marshal : Fields → Text
  pub parse_url : Text → Option Url
  -- url.QueryUnescape; the empty text where it returns an error
  pub query_unescape : Text → Text
  pub base64_std : Text → Option Text
  pub base64_raw_std : Text → Option Text
  pub base64_url : Text → Option Text
  pub base64_raw_url : Text → Option Text

-- `Values.Get`: the first value of the key.
unfoldable pub query_get : List (Text × Text) → Text → Text
query_get [] k = []
query_get ((j, v) ∷ q) k = if text_eq j k then v else query_get q k

-- `Username` and `Password` of a user that may be absent.
unfoldable pub username_of : Option Userinfo → Text
username_of none = []
username_of (some u) = u.username

unfoldable pub password_of : Option Userinfo → Option Text
password_of none = none
password_of (some u) = u.password
