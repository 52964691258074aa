-- ===== src/Healthcheck/Transport/Supported.antt =====
-- Which nodes `transportForNode` of healthcheck/service.go can probe, against the protocols that
-- subscription/service.go stores.
use proxydeck.Prelude.{◌≡◌, refl, sym, ◌∙◌, arith, Bool, true, false, ◌||◌}
use proxydeck.Errors.{Result, ok, err}
use proxydeck.Strings.{Text}
use proxydeck.Model.{ProxyNode}
use proxydeck.Subscription.Protocol.{is_supported_outbound_protocol}
use proxydeck.Upstream.{is_http_proxy_protocol, is_target_dial_protocol, scheme_for_node}
use proxydeck.Upstream.Dispatch.{supported-dialled}
use proxydeck.Upstream.Url.{
  Url, url_text, with_pass, with_credentials, on_parsed, on_scheme, url_for_node,
}
use proxydeck.Healthcheck.Transport.{through, routed, transport_for_node}

abbrev pub succeeds {ℓ} : {A : Type ℓ} → Result A → Bool
succeeds (ok a) = true
succeeds (err e) = false

module _ (parse : Text → Result Url) (decrypt : Text → Result Text) (node : ProxyNode)
    (parsed : (scheme : Text) → succeeds (parse (url_text parse decrypt scheme node)) ≡ true)
    (username : succeeds (decrypt node.upstream_username_enc) ≡ true)
    (password : succeeds (decrypt node.upstream_password_enc) ≡ true) where
  with_pass-succeeds :
      (u : Url) (user : Text) (r : Result Text)
      → succeeds r ≡ true
      → succeeds (with_pass parse decrypt u user r) ≡ true
  with_pass-succeeds u user (err e) h = h
  with_pass-succeeds u user (ok pass) h = refl

  with_credentials-succeeds :
      (u : Url) (r : Result Text)
      → succeeds r ≡ true
      → succeeds (with_credentials parse decrypt node u r) ≡ true
  with_credentials-succeeds u (err e) h = h
  with_credentials-succeeds u (ok user) h = with_pass-succeeds u user _ password

  on_parsed-succeeds :
      (r : Result Url) → succeeds r ≡ true → succeeds (on_parsed parse decrypt node r) ≡ true
  on_parsed-succeeds (err e) h = h
  on_parsed-succeeds (ok u) h = with_credentials-succeeds u _ username

  on_scheme-succeeds :
      (r : Result Text) → succeeds r ≡ true → succeeds (on_scheme parse decrypt node r) ≡ true
  on_scheme-succeeds (err e) h = h
  on_scheme-succeeds (ok scheme) h = on_parsed-succeeds _ (parsed scheme)

  scheme_for_node-succeeds :
      is_http_proxy_protocol node.protocol ≡ true → succeeds (scheme_for_node node) ≡ true
  unfolding is_http_proxy_protocol scheme_for_node
  scheme_for_node-succeeds h = ground arith

  url_for_node-succeeds :
      is_http_proxy_protocol node.protocol ≡ true
      → succeeds (url_for_node parse decrypt node) ≡ true
  unfolding url_for_node
  url_for_node-succeeds h = on_scheme-succeeds (scheme_for_node node) (scheme_for_node-succeeds h)

  through-succeeds : (r : Result Url) → succeeds (through node r) ≡ succeeds r
  through-succeeds (err e) = refl
  through-succeeds (ok u) = refl

  -- the two tests of the protocol, and what each leads to
  routed-succeeds :
      (http dialled : Bool)
      → (http ≡ true → succeeds (url_for_node parse decrypt node) ≡ true)
      → succeeds (routed parse decrypt node http dialled) ≡ (http || dialled)
  routed-succeeds true dialled h = through-succeeds _ ∙ h refl
  routed-succeeds false true h = refl
  routed-succeeds false false h = refl

  transport-dialled :
      succeeds (transport_for_node parse decrypt node)
      ≡ (is_http_proxy_protocol node.protocol || is_target_dial_protocol node.protocol)
  unfolding transport_for_node
  transport-dialled = routed-succeeds _ _ url_for_node-succeeds

  -- The health check finds a way to a node exactly if its protocol is one that a subscription can
  -- store, if its URL can be parsed and its credentials decrypted.
  pub transport-supported :
      succeeds (transport_for_node parse decrypt node)
      ≡ is_supported_outbound_protocol node.protocol
  transport-supported = transport-dialled ∙ sym (supported-dialled node.protocol)
