-- ===== src/Tests/Gateway.antt =====
-- The theorems on the gateway at a request that is served through a SOCKS proxy.
use proxydeck.Prelude.{◌≡◌, refl, true, Option, none, some, [], ◌++◌, arith, ◌>>◌, ◌>>=◌, skip_if}
use proxydeck.Prelude.Int.{pos, negsuc, ◌+ℤ◌}
use proxydeck.Errors.{Result, ok, quota_exceeded, foreign}
use proxydeck.Strings.{Text, lit, is_empty}
use proxydeck.Strings.Space.{trim_space}
use proxydeck.Strings.Split.{has_prefix, cut, trim_prefix, contains, split}
use proxydeck.Model.{User, ProxyNode}
use proxydeck.Redis.{Err, conn_key}
use proxydeck.Redis.Reference.{Counters, reference, update}
use proxydeck.Quota.{acquire, over_limit}
use proxydeck.Selector.Username.{Filters, no_filters, parse_username}
use proxydeck.Gateway.Wire.{write_proxy_request}
use proxydeck.Gateway.Wire.Credentials.{Carries, write_proxy_request-Carries}
use proxydeck.Gateway.{
  Request, TrafficRecord, authenticate, parse_basic_auth, is_auth_failure, write_proxy_access_error,
}
use proxydeck.Gateway.Http.{HttpPeers, handle_http}
use proxydeck.Gateway.Forward.{Clean, handle_http-Clean}
use proxydeck.Gateway.Connect.{TunnelPeers, handle}
use proxydeck.Gateway.Balance.{Settled, handle-Settled}
use proxydeck.Gateway.Slots.{handle_restores}
use proxydeck.Gateway.Access.{Answered, access_error-challenge}
use proxydeck.Tests.{alice, idle, node}

abbrev request : Request
request = record {
  method = lit "GET";
  host = lit "example.org";
  url_host = lit "example.org";
  proxy_authorization = lit "Basic alice:secret";
  content_length = negsuc 0;
}

abbrev http : HttpPeers
http = record {
  dial_target = λ n t. none;
  dial_upstream = λ n. none;
  proxy_authorization = λ n. ok [];
  write_origin = λ q. none;
  write_proxy = λ q. none;
  read_response = λ q. ok (200, pos 512);
}

abbrev tunnels : TunnelPeers
tunnels = record {
  hijack = none;
  dial_target = λ n t. none;
  dial_upstream = λ n. none;
  establish_tunnel = λ n t. some (foreign (lit "upstream connect failed"));
  copied_up = pos 3;
  copied_down = pos 4;
}

abbrev record_in : TrafficRecord → Counters → Counters
record_in e s = s

abbrev decode : Text → Option Text
decode t = some t

abbrev check : Text → Text → Counters → Result User
check uid password s = ok alice

abbrev pick : Text → Filters → Counters → Result ProxyNode × Counters
pick uid f s = (ok node, s)

abbrev key : Text
key = conn_key alice.uid

handle-Settled_example :
    Settled
      (authenticate reference decode check request idle).0
      (handle reference true tunnels record_in http decode check pick request idle).0
handle-Settled_example =
    handle-Settled reference true http tunnels record_in decode check pick request idle

handle_restores_example :
    (handle reference true tunnels record_in http decode check pick request idle).1 key ≡ pos 0
unfolding ◌>>◌ skip_if has_prefix cut trim_prefix contains is_empty trim_space split ◌>>=◌
handle_restores_example =
    handle_restores reference true http tunnels record_in decode check pick request alice no_filters
      idle (update idle key (pos 1))
      (unfold authenticate parse_basic_auth acquire over_limit ◌+ℤ◌ parse_username in refl)
      (λ e u. refl) (λ u. refl) (omega arith) (λ j u. refl) (λ j u. refl) (λ j u. refl)

access_error-challenge_example :
    Answered quota_exceeded
      (write_proxy_access_error quota_exceeded)
      (is_auth_failure quota_exceeded)
access_error-challenge_example = access_error-challenge quota_exceeded

handle_http-Clean_example :
    Clean http request (handle_http reference true http record_in decode check pick request idle).0
handle_http-Clean_example =
    handle_http-Clean reference true http record_in decode check pick request idle

abbrev send : Text → Text → Err × Text
send text sent = (none, sent ++ text)

abbrev get_form : Request → Text → Result Text × Text
get_form req sent = (ok (lit "GET http://example.org/ HTTP/1.1\r\n\r\n"), sent)

write_proxy_request-Carries_example :
    (text : Text) × ((write_proxy_request send get_form request [] ≡ send text [])
      × Carries (lit "Basic alice:secret") (lit "GET http://example.org/ HTTP/1.1\r\n\r\n") text)
write_proxy_request-Carries_example =
    write_proxy_request-Carries send get_form request [] [] _ refl (unfold is_empty in refl)
      (unfold contains in refl)
