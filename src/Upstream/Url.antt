-- ===== src/Upstream/Url.antt =====
-- `URLForNode` of upstream/http_proxy.go. url.Parse and the cipher are parameters.
use proxydeck.Prelude.{◌||◌, not, Option, some, ◌++◌, if◌then◌else◌}
use proxydeck.Errors.{Result, ok, err}
use proxydeck.Strings.{Text, lit, is_empty}
use proxydeck.Strings.Number.{format_int}
use proxydeck.Model.{ProxyNode}
use proxydeck.Upstream.{scheme_for_node}

-- A user with a password.
pub record Userinfo : Type 0 where
  pub username : Text
  pub password : Text

-- What the code uses of url.URL.
pub record Url : Type 0 where
  pub scheme : Text
  pub host : Text
  pub user : Option Userinfo

abbrev pub with_user : Text → Text → Url → Url
with_user user pass u =
    if not (is_empty user) || not (is_empty pass)
    then record u { user = some (record { username = user; password = pass }) }
    else u

module _ (parse : Text → Result Url) (decrypt : Text → Result Text) where
  abbrev pub url_text : Text → ProxyNode → Text
  url_text scheme node = scheme ++ (lit "://" ++ (node.host ++ (lit ":" ++ format_int node.port)))

  abbrev pub with_pass : Url → Text → Result Text → Result Url
  with_pass u user (err e) = err e
  with_pass u user (ok pass) = ok (with_user user pass u)

  abbrev pub with_credentials : ProxyNode → Url → Result Text → Result Url
  with_credentials node u (err e) = err e
  with_credentials node u (ok user) = with_pass u user (decrypt node.upstream_password_enc)

  abbrev pub on_parsed : ProxyNode → Result Url → Result Url
  on_parsed node (err e) = err e
  on_parsed node (ok u) = with_credentials node u (decrypt node.upstream_username_enc)

  abbrev pub on_scheme : ProxyNode → Result Text → Result Url
  on_scheme node (err e) = err e
  on_scheme node (ok scheme) = on_parsed node (parse (url_text scheme node))

  unfoldable pub url_for_node : ProxyNode → Result Url
  unfolding scheme_for_node
  url_for_node node = on_scheme node (scheme_for_node node)
