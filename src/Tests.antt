-- ===== src/Tests.antt =====
-- The theorems at concrete inputs.
mod Quota
mod Gateway
mod Subscription
mod Selector
mod Retry
mod Stats
mod Healthcheck
mod Config
mod Nodes
mod Links
mod Admin
mod Dial
use proxydeck.Prelude.{ℕ, true, false, Option, none, some, List, [], ◌∷◌}
use proxydeck.Prelude.Int.{ℤ, pos}
use proxydeck.Strings.{Text, lit}
use proxydeck.Model.{User, ProxyNode}
use proxydeck.Redis.Reference.{Counters}

-- a user with a quota and a limit of two connections
abbrev pub alice : User
alice = record {
  id = 1;
  uid = lit "alice";
  password_hash = lit "hash";
  enabled = true;
  quota_bytes = pos 1000;
  used_bytes = pos 100;
  total_requests = pos 0;
  max_concurrency = pos 2;
  expired_at = none;
  remark = [];
}

abbrev pub idle : Counters
idle = λ k. pos 0

abbrev pub node : ProxyNode
node = record {
  id = 7;
  node_key = lit "socks5://10.0.0.1:1080";
  protocol = lit "socks5";
  host = lit "10.0.0.1";
  port = pos 1080;
  upstream_username_enc = [];
  upstream_password_enc = [];
  tls_enabled = false;
  tls_skip_verify = false;
  server_name = [];
  tag = lit "first";
  expected_region = lit "US";
  detected_region = [];
  city = [];
  country = [];
  asn = [];
  org = [];
  isp = [];
  exit_ip = [];
  latency_ms = pos 0;
  healthy = true;
  disabled = false;
  fail_count = pos 0;
  last_check_at = none;
  subscription_id = 1;
  raw_json = [];
  upload_bytes = pos 0;
  download_bytes = pos 0;
  total_requests = pos 0;
}
