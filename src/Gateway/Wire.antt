-- ===== src/Gateway/Wire.antt =====
-- `dialUpstream`, `establishTunnel`, `writeProxyRequest` and `writeOriginRequest` of proxy/gateway.go:
-- what goes over a connection to a proxy or a target. The network and the formats of net/http are
-- parameters.
pub mod Credentials
use proxydeck.Prelude.{ℕ, ◌/◌, Bool, ◌&&◌, not, ◌==◌, [], ◌++◌, Option, none, some, if◌then◌else◌}
use proxydeck.Errors.{Result, ok, err, message}
use proxydeck.Strings.{Text, lit, is_empty}
use proxydeck.Strings.Split.{contains, cut}
use proxydeck.Model.{ProxyNode}
use proxydeck.Redis.{Err}
use proxydeck.Fetch.{Response}
use proxydeck.Subscription.Node.{host_port}
use proxydeck.Upstream.{proxy_authorization}
use proxydeck.Gateway.{Request}

abbrev pub crlf : Text
crlf = lit "\r\n"

abbrev pub header_start : Text
header_start = lit "\r\nProxy-Authorization: "

-- Behind the first line, for the parts around its end.
abbrev pub patched : Text → Text → Option (Text × Text) → Text
patched value raw none = raw
patched value raw (some (first, rest)) =
    first ++ (crlf ++ (lit "Proxy-Authorization: " ++ (value ++ (crlf ++ rest))))

-- What `writeProxyRequest` writes, for the value of the header and what WriteProxy gives.
unfoldable pub proxy_text : Text → Text → Text
unfolding contains cut
proxy_text value raw =
    if not (is_empty value) && not (contains raw header_start)
    then patched value raw (cut raw crlf)
    else raw

abbrev pub auth_header : Result Text → Text
auth_header (err e) = []
auth_header (ok value) =
    if not (is_empty value) then lit "Proxy-Authorization: " ++ (value ++ crlf) else []

unfoldable pub connect_text : Text → Result Text → Text
connect_text target authorization =
    lit "CONNECT "
    ++ (target
        ++ (lit " HTTP/1.1\r\nHost: " ++ (target ++ (crlf ++ (auth_header authorization ++ crlf)))))

-- The host where there is no name, which is not trimmed here.
unfoldable pub tls_name : ProxyNode → Text
tls_name node = if is_empty node.server_name then node.host else node.server_name

module _ {S : Type 0} where
  unfoldable pub dial_upstream :
      (Text → S → Result ℕ × S)
      → (Text → Text → Bool → S → Result ℕ × S)
      → ProxyNode
      → S
      → Result ℕ × S
  unfolding tls_name host_port
  dial_upstream dial dial_tls node s =
      if node.tls_enabled
      then dial_tls (host_port node.host node.port) (tls_name node) node.tls_skip_verify s
      else dial (host_port node.host node.port) s

  module _ (write : Text → S → Err × S) where
    abbrev pub write_form : Result Text × S → (Text → Text) → Err × S
    write_form (err e, s) change = (some e, s)
    write_form (ok raw, s) change = write (change raw) s

    -- `form` is the method WriteProxy of http.Request, which reads the body.
    unfoldable pub write_proxy_request : (Request → S → Result Text × S) → Request → S → Err × S
    unfolding proxy_text
    write_proxy_request form req s =
        write_form (form req s) (λ raw. proxy_text req.proxy_authorization raw)

    -- `form` is the method Write of http.Request.
    unfoldable pub write_origin_request : (Request → S → Result Text × S) → Request → S → Err × S
    write_origin_request form req s = write_form (form req s) (λ raw. raw)

    module _ (read_response : S → Result Response × S) (set_deadline clear_deadline : S → S) where
      abbrev pub answered : Result Response × S → Err × S
      answered (err e, s) = (some e, s)
      answered (ok resp, s) =
          let t = clear_deadline s in
          if not (resp.status_code / 100 == 2)
          then (some (message (lit "upstream connect failed: " ++ resp.status)), t)
          else (none, t)

      abbrev pub asked : Err × S → Err × S
      asked (some e, s) = (some e, s)
      asked (none, s) = answered (read_response s)

      unfoldable pub establish_tunnel :
          (Text → Result Text) → (Text → Text) → ProxyNode → Text → S → Err × S
      unfolding proxy_authorization connect_text
      establish_tunnel decrypt encode node target s =
          asked
            (write (connect_text target (proxy_authorization decrypt encode node)) (set_deadline s))
