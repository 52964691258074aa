-- ===== src/Healthcheck/Probe.antt =====
-- `probeInfo`, the parsers of the probes behind the decoding of JSON, `mergeProbeInfo`,
-- `hasProfileInfo`, `parseASN` and `parseISP`.
pub mod Merge
use proxydeck.Prelude.{
  Bool, true, false, not, ◌&&◌, ◌||◌, List, [], ◌∷◌, ◌++◌, Option, none, some, if◌then◌else◌,
}
use proxydeck.Errors.{Result, ok, err, message}
use proxydeck.Strings.{Text, lit, is_empty, to_upper}
use proxydeck.Strings.Space.{trim_space, is_space}
use proxydeck.Strings.Split.{has_prefix, trim_prefix, fields, join}

pub record ProbeInfo : Type 0 where
  pub ip : Text
  pub city : Text
  pub country : Text
  pub region : Text
  pub org : Text

asn_of : List Text → Text
asn_of [] = []
asn_of (part ∷ parts) = if has_prefix (to_upper part) (lit "AS") then to_upper part else []

unfoldable pub parse_asn : Text → Text
unfolding asn_of
parse_asn org = asn_of (fields is_space org)

isp_of : Text → List Text → Text
isp_of org [] = org
isp_of org (part ∷ []) = org
isp_of org (part ∷ next ∷ parts) = join (next ∷ parts) (lit " ")

unfoldable pub parse_isp : Text → Text
unfolding isp_of
parse_isp org = isp_of org (fields is_space org)

abbrev pub first_text : Text → Text → Text
first_text a b = if is_empty a then b else a

unfoldable pub merge_probe_info : ProbeInfo → ProbeInfo → ProbeInfo
merge_probe_info base extra = record {
  ip = first_text base.ip extra.ip;
  city = first_text base.city extra.city;
  country = first_text base.country extra.country;
  region = first_text base.region extra.region;
  org = first_text base.org extra.org;
}

unfoldable pub has_profile_info : ProbeInfo → Bool
has_profile_info info =
    not (is_empty (trim_space info.city))
    || not (is_empty (trim_space info.country))
    || not (is_empty (trim_space info.region))
    || not (is_empty (trim_space info.org))

-- `parseIPInfoProbe`: the payload has the fields of the result.
unfoldable pub parse_ip_info_probe : Result ProbeInfo → Result ProbeInfo
parse_ip_info_probe (err e) = err e
parse_ip_info_probe (ok p) = ok (record {
  ip = trim_space p.ip;
  city = trim_space p.city;
  country = trim_space p.country;
  region = trim_space p.region;
  org = trim_space p.org;
})

abbrev only_ip : Text → ProbeInfo
only_ip ip = record { ip = ip; city = []; country = []; region = []; org = [] }

-- `parseIPifyProbe`, for the field `ip` of the payload
unfoldable pub parse_ipify_probe : Result Text → Result ProbeInfo
parse_ipify_probe (err e) = err e
parse_ipify_probe (ok ip) = ok (only_ip (trim_space ip))

unfoldable pub parse_plain_text_ip_probe : Text → Result ProbeInfo
parse_plain_text_ip_probe body =
    if is_empty (trim_space body)
    then err (message (lit "plain text probe missing ip"))
    else ok (only_ip (trim_space body))

pub record IpWhoPayload : Type 0 where
  pub ip : Text
  pub city : Text
  pub country : Text
  pub region : Text
  pub success : Option Bool
  pub isp : Text
  pub org : Text
  pub asn : Text

-- whether the number of the autonomous system is put before the name
lacks_asn : Text → Text → Bool
lacks_asn asn org =
    not (is_empty asn) && not (is_empty org) && not (has_prefix (to_upper org) (lit "AS"))

unfoldable pub ip_who_org : IpWhoPayload → Text
unfolding lacks_asn
ip_who_org p =
    let org = first_text (trim_space p.org) (trim_space p.isp) in
    let asn = trim_space p.asn in
    if lacks_asn asn org
    then lit "AS" ++ (trim_prefix (to_upper asn) (lit "AS") ++ (lit " " ++ org))
    else org

abbrev unless_refused : Option Bool → ProbeInfo → Result ProbeInfo
unless_refused (some false) info = err (message (lit "ipwho unsuccessful response"))
unless_refused (some true) info = ok info
unless_refused none info = ok info

unfoldable pub parse_ip_who_probe : Result IpWhoPayload → Result ProbeInfo
unfolding ip_who_org
parse_ip_who_probe (err e) = err e
parse_ip_who_probe (ok p) = unless_refused p.success (record {
  ip = trim_space p.ip;
  city = trim_space p.city;
  country = trim_space p.country;
  region = trim_space p.region;
  org = trim_space (ip_who_org p);
})

pub record IpApiPayload : Type 0 where
  pub ip : Text
  pub city : Text
  pub country : Text
  pub region : Text
  pub asn : Text
  pub org : Text
  pub error : Bool
  pub reason : Text

unfoldable pub parse_ip_api_probe : Result IpApiPayload → Result ProbeInfo
unfolding lacks_asn
parse_ip_api_probe (err e) = err e
parse_ip_api_probe (ok p) =
    let org = trim_space p.org in
    let asn = trim_space p.asn in
    if p.error
    then err (message (first_text p.reason (lit "ipapi error")))
    else ok (record {
      ip = trim_space p.ip;
      city = trim_space p.city;
      country = trim_space p.country;
      region = trim_space p.region;
      org = trim_space (if lacks_asn asn org then asn ++ (lit " " ++ org) else org);
    })
