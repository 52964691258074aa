-- ===== src/Healthcheck/Sources.antt =====
-- `fetchFromSource`, `fetchExitIP`, `enrichIPInfo` and the two lists of sources of
-- healthcheck/service.go. The HTTP client and the decoders are parameters; a request takes the value
-- of its header `Proxy-Authorization`, which is empty for none (`probe_header` of Transport), and its
-- URL.
use proxydeck.Prelude.{Bool, not, ◌==◌, List, [], ◌∷◌, ◌++◌, Option, none, some, leb, if◌then◌else◌}
use proxydeck.Errors.{Error, Result, ok, err, message}
use proxydeck.Strings.{Text, lit, is_empty}
use proxydeck.Strings.Space.{trim_space}
use proxydeck.Strings.Split.{join}
use proxydeck.Redis.{Err}
use proxydeck.Fetch.{Response}
use proxydeck.Retry.{Failure, stop, plain, Context, Config, do_retry}
use proxydeck.Healthcheck.Probe.{
  ProbeInfo, IpWhoPayload, IpApiPayload, has_profile_info, parse_ip_info_probe, parse_ipify_probe,
  parse_plain_text_ip_probe, parse_ip_who_probe, parse_ip_api_probe,
}

pub record Source : Type 0 where
  pub name : Text
  pub url : Text
  pub parse : Text → Result ProbeInfo

-- encoding/json, for the payloads of the sources
pub record Payloads : Type 0 where
  pub ip_info : Text → Result ProbeInfo
  pub ipify : Text → Result Text
  pub ip_who : Text → Result IpWhoPayload
  pub ip_api : Text → Result IpApiPayload

unfoldable pub probe_sources : Payloads → List Source
probe_sources p =
    record {
      name = lit "ipify";
      url = lit "https://api.ipify.org?format=json";
      parse = λ b. parse_ipify_probe (p.ipify b);
    }
    ∷ record {
      name = lit "ifconfig";
      url = lit "https://ifconfig.me/ip";
      parse = parse_plain_text_ip_probe;
    }
    ∷ record {
      name = lit "ipinfo";
      url = lit "https://ipinfo.io/json";
      parse = λ b. parse_ip_info_probe (p.ip_info b);
    }
    ∷ []

-- The sources for an address.
unfoldable pub enrich_sources : Payloads → Text → List Source
enrich_sources p ip =
    record {
      name = lit "ipinfo";
      url = lit "https://ipinfo.io/" ++ (ip ++ lit "/json");
      parse = λ b. parse_ip_info_probe (p.ip_info b);
    }
    ∷ record {
      name = lit "ipwho";
      url = lit "https://ipwho.is/" ++ ip;
      parse = λ b. parse_ip_who_probe (p.ip_who b);
    }
    ∷ record {
      name = lit "ipapi";
      url = lit "https://ipapi.co/" ++ (ip ++ lit "/json/");
      parse = λ b. parse_ip_api_probe (p.ip_api b);
    }
    ∷ []

abbrev pub no_info : ProbeInfo
no_info = record { ip = []; city = []; country = []; region = []; org = [] }

module _ {S : Type 0} (request : Text → Text → S → Result Response × S)
    (render : Error → Text) where
  abbrev pub parsed : S → ProbeInfo → Result ProbeInfo → Option Failure × (S × ProbeInfo)
  parsed s info (err e) = (some (stop (some e)), (s, info))
  parsed s info (ok found) = (none, (s, found))

  abbrev pub read : Source → Response → S → ProbeInfo → Err → Option Failure × (S × ProbeInfo)
  read source resp s info (some e) = (some (plain e), (s, info))
  read source resp s info none = parsed s info (source.parse resp.body)

  -- One call of the function that is retried; `info` is the variable that it sets.
  abbrev pub fetched : Source → ProbeInfo → Result Response × S → Option Failure × (S × ProbeInfo)
  fetched source info (err e, s) = (some (plain e), (s, info))
  fetched source info (ok resp, s) =
      if leb 500 resp.status_code
      then (some (plain (message resp.status)), (s, info))
      else if not (resp.status_code == 200)
      then (some (stop (some (message resp.status))), (s, info))
      else read source resp s info resp.read_error

  abbrev pub fetch_result : Option Error × (S × ProbeInfo) → Result ProbeInfo × S
  fetch_result (none, (s, info)) = (ok info, s)
  fetch_result (some e, (s, info)) = (err e, s)

  module _ (c : Context (S × ProbeInfo)) (cfg : Config) where
    unfoldable pub fetch_from_source : Text → Source → S → Result ProbeInfo × S
    unfolding do_retry
    fetch_from_source header source s =
        fetch_result
          (do_retry c cfg (λ p. fetched source p.1 (request header source.url p.0)) (s, no_info))

    -- What a source gave, if it will do, and its error otherwise.
    abbrev pub judged : (ProbeInfo → Bool) → Error → Result ProbeInfo → Result ProbeInfo
    judged good why (err e) = err e
    judged good why (ok info) = if good info then ok info else err why

    abbrev pub or_next :
        Text
        → List Text
        → Result ProbeInfo
        → S
        → (List Text → S → Result ProbeInfo × S)
        → Result ProbeInfo × S
    or_next name errs (ok info) s k = (ok info, s)
    or_next name errs (err e) s k = k (errs ++ ((name ++ (lit ": " ++ render e)) ∷ [])) s

    -- The first source that will do; the errors of all of them, if none will.
    unfoldable pub first_good :
        Text → (ProbeInfo → Bool) → Error → List Source → List Text → S → Result ProbeInfo × S
    unfolding fetch_from_source
    first_good header good why [] errs s = (err (message (join errs (lit "; "))), s)
    first_good header good why (source ∷ sources) errs s =
        let p = fetch_from_source header source s in
        or_next source.name errs (judged good why p.0) p.1
          (λ es t. first_good header good why sources es t)

    abbrev pub has_ip : ProbeInfo → Bool
    has_ip info = not (is_empty (trim_space info.ip))

    unfoldable pub fetch_exit_ip : Text → List Source → S → Result ProbeInfo × S
    unfolding first_good
    fetch_exit_ip header sources s =
        first_good header has_ip (message (lit "missing ip")) sources [] s

    unfoldable pub enrich_ip_info : List Source → S → Result ProbeInfo × S
    unfolding first_good
    enrich_ip_info sources s =
        first_good [] has_profile_info (message (lit "missing profile data")) sources [] s
