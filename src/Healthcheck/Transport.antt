-- ===== src/Healthcheck/Transport.antt =====
-- `transportForNode` of healthcheck/service.go, and the header that `fetchExitIP` adds.
pub mod Supported
use proxydeck.Prelude.{Bool, [], ◌++◌, if◌then◌else◌}
use proxydeck.Errors.{Error, Result, ok, err, message}
use proxydeck.Strings.{Text, lit}
use proxydeck.Model.{ProxyNode}
use proxydeck.Upstream.{is_http_proxy_protocol, is_target_dial_protocol, proxy_authorization}
use proxydeck.Upstream.Url.{Url, url_for_node}

-- How a request leaves: through a proxy, or on a connection of DialTarget.
pub data Route : Type 0 where
  by_proxy : Url → Route
  by_dialer : Route

pub record Transport : Type 0 where
  pub insecure_skip_verify : Bool
  pub route : Route

abbrev pub through : ProxyNode → Result Url → Result Transport
through node (err e) = err e
through node (ok u) =
    ok (record { insecure_skip_verify = node.tls_skip_verify; route = by_proxy u })

-- The header's value; an error is as no value.
abbrev pub value_or_empty : Result Text → Text
value_or_empty (err e) = []
value_or_empty (ok value) = value

module _ (parse : Text → Result Url) (decrypt : Text → Result Text) where
  -- the cases of the switch, for the answers of its two tests
  abbrev pub routed : ProxyNode → Bool → Bool → Result Transport
  routed node http dialled =
      if http
      then through node (url_for_node parse decrypt node)
      else if dialled
      then ok (record { insecure_skip_verify = node.tls_skip_verify; route = by_dialer })
      else err (message (lit "unsupported healthcheck protocol: " ++ node.protocol))

  unfoldable pub transport_for_node : ProxyNode → Result Transport
  unfolding url_for_node
  transport_for_node node =
      routed node (is_http_proxy_protocol node.protocol) (is_target_dial_protocol node.protocol)

-- `Proxy-Authorization` of the requests to the probe sources; empty for none
unfoldable pub probe_header : (Text → Result Text) → (Text → Text) → ProxyNode → Text
unfolding is_http_proxy_protocol proxy_authorization
probe_header decrypt encode node =
    if is_http_proxy_protocol node.protocol
    then value_or_empty (proxy_authorization decrypt encode node)
    else []
