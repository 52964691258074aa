-- ===== src/Healthcheck.antt =====
-- backend/internal/healthcheck/service.go: one check of a node. What the probes and the database
-- answer is an argument; what the check does to the database, the cache and the metrics is a list of
-- effects in order.
pub mod Probe
pub mod Streak
pub mod Sources
pub mod Transport
pub mod Rounds
use proxydeck.Prelude.{ℕ, Bool, true, false, ◌&&◌, List, [], ◌∷◌, Option, none, some, if◌then◌else◌}
use proxydeck.Prelude.Int.{ℤ, pos, ◌+ℤ◌, ltb_ℤ, wrap64}
use proxydeck.Errors.{Error, Result, ok, err, message}
use proxydeck.Strings.{Text, lit, is_empty}
use proxydeck.Strings.Space.{trim_space}
use proxydeck.Model.{ProxyNode}
use Probe.{ProbeInfo, merge_probe_info, parse_asn, parse_isp}

-- `markFailure`, on the node
unfoldable pub mark_failure : ℤ → ℤ → ProxyNode → ProxyNode
mark_failure max_fail_count now node =
    let count = wrap64 (node.fail_count +ℤ pos 1) in
    record node {
      fail_count = count;
      healthy = node.healthy && ltb_ℤ count max_fail_count;
      last_check_at = some now;
    }

-- what `CheckOne` writes into the node behind a successful probe
unfoldable pub mark_success : ProbeInfo → ℤ → ℤ → ProxyNode → ProxyNode
mark_success info latency now node = record node {
  exit_ip = info.ip;
  city = trim_space info.city;
  country = trim_space info.country;
  detected_region = trim_space info.region;
  asn = parse_asn info.org;
  org = trim_space info.org;
  isp = parse_isp info.org;
  fail_count = pos 0;
  healthy = true;
  latency_ms = latency;
  last_check_at = some now;
}

-- `Save` and `CacheNode` are attempts; the metrics are counted.
pub data Effect : Type 0 where
  save_node cache_node : ProxyNode → Effect
  count_success count_failure : Effect

pub record Outcome : Type 0 where
  pub effects : List Effect
  pub error : Option Error

-- What the surroundings answer in one check.
pub record Answers : Type 0 where
  pub transport : Option Error
  pub probe : Result ProbeInfo
  pub enrich : Text → Result ProbeInfo
  pub save : Option Error
  pub cache : Option Error
  pub latency : ℤ
  pub now : ℤ

failed : ℤ → Answers → ProxyNode → Error → Outcome
failed max_fail_count a node e = record {
  effects =
      count_failure
      ∷ save_node (mark_failure max_fail_count a.now node)
      ∷ cache_node (mark_failure max_fail_count a.now node)
      ∷ [];
  error = some e;
}

abbrev enriched : ProbeInfo → Result ProbeInfo → ProbeInfo
enriched info (err e) = info
enriched info (ok extra) = merge_probe_info info extra

abbrev saved : Option Error → Option Error → ProxyNode → Outcome
saved (some e) cache node = record { effects = save_node node ∷ []; error = some e }
saved none cache node = record {
  effects = save_node node ∷ count_success ∷ cache_node node ∷ [];
  error = cache;
}

abbrev probed : ℤ → Answers → ProxyNode → Result ProbeInfo → Outcome
probed max_fail_count a node (err e) = failed max_fail_count a node e
probed max_fail_count a node (ok info) =
    if is_empty (trim_space info.ip)
    then failed max_fail_count a node (message (lit "probe response missing ip"))
    else saved a.save a.cache (mark_success (enriched info (a.enrich info.ip)) a.latency a.now node)

abbrev with_transport : Option Error → Outcome → Outcome
with_transport (some e) rest = record { effects = []; error = some e }
with_transport none rest = rest

-- `CheckOne` behind the lookup of the node
unfoldable pub check_one : ℤ → Answers → ProxyNode → Outcome
unfolding failed mark_success
check_one max_fail_count a node = with_transport a.transport (probed max_fail_count a node a.probe)
