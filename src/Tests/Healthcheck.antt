-- ===== src/Tests/Healthcheck.antt =====
-- The theorems on healthcheck/service.go at concrete nodes and probes.
use proxydeck.Prelude.{◌≡◌, refl, [], none, arith}
use proxydeck.Prelude.Int.{pos, ltb_ℤ}
use proxydeck.Strings.{lit}
use proxydeck.Healthcheck.{mark_success}
use proxydeck.Healthcheck.Probe.{ProbeInfo}
use proxydeck.Healthcheck.Streak.{failures, failures_after_success}
use proxydeck.Errors.{Result, ok}
use proxydeck.Strings.{Text}
use proxydeck.Upstream.Url.{Url}
use proxydeck.Subscription.Protocol.{is_supported_outbound_protocol}
use proxydeck.Healthcheck.Transport.{transport_for_node}
use proxydeck.Healthcheck.Transport.Supported.{succeeds, transport-supported}
use proxydeck.Tests.{node}

abbrev first : ProbeInfo
first = record { ip = lit "1.2.3.4"; country = []; region = []; city = []; org = lit "AS1 Isp" }

failures_after_success_example :
    let end = failures (pos 3) (λ i. pos i) 3 (mark_success first (pos 20) (pos 0) node) in
    (end.fail_count ≡ pos 3) × (end.healthy ≡ ltb_ℤ (pos 3) (pos 3))
failures_after_success_example =
    failures_after_success (pos 3) (pos 20) (pos 0) first node (λ i. pos i) 2 (omega arith)

-- Reads every text as a host.
abbrev as_host : Text → Result Url
as_host text = ok (record { scheme = []; host = text; user = none })

abbrev as_plain : Text → Result Text
as_plain text = ok text

transport-supported_example :
    succeeds (transport_for_node as_host as_plain node)
    ≡ is_supported_outbound_protocol (lit "socks5")
transport-supported_example = transport-supported as_host as_plain node (λ scheme. refl) refl refl
