-- ===== src/Stats.antt =====
-- backend/internal/stats/service.go: `TrafficRecord` and `RecordTraffic`. The hour of the clock is an
-- argument.
pub mod Keys
pub mod Traffic
pub mod Flush
pub mod Nodes
use proxydeck.Prelude.{ℕ, zero, suc, List, [], ◌∷◌, ◌++◌, Bool, ltb, if◌then◌else◌}
use proxydeck.Prelude.Int.{ℤ, pos, ◌+ℤ◌, leb_ℤ, wrap64}
use proxydeck.Strings.{Text, lit}
use proxydeck.Redis.{
  Redis, Err, usage_key, requests_key, node_usage_key, node_requests_key, region_usage_key,
  region_member, hourly_usage_key,
}
use proxydeck.Redis.Pipeline.{Pipeline, Command, incr_by, z_incr_by}

pub record TrafficRecord : Type 0 where
  pub uid : Text
  pub node_id : ℕ
  pub region : Text
  pub upload : ℤ
  pub download : ℤ
  pub requests : ℤ

-- `maxInt64`
unfoldable pub max_int64 : ℤ → ℤ → ℤ
max_int64 value fallback = if leb_ℤ value (pos 0) then fallback else value

unfoldable pub user_commands : TrafficRecord → List Command
unfolding max_int64
user_commands e =
    incr_by (usage_key e.uid (lit "upload")) e.upload
    ∷ incr_by (usage_key e.uid (lit "download")) e.download
    ∷ incr_by (requests_key e.uid) (max_int64 e.requests (pos 1))
    ∷ []

-- `if record.NodeID > 0`
unfoldable pub node_commands : TrafficRecord → List Command
unfolding max_int64
node_commands e =
    if ltb 0 e.node_id
    then incr_by (node_usage_key e.node_id (lit "upload")) e.upload
      ∷ incr_by (node_usage_key e.node_id (lit "download")) e.download
      ∷ incr_by (node_requests_key e.node_id) (max_int64 e.requests (pos 1))
      ∷ []
    else []

unfoldable pub total_commands : TrafficRecord → Text → List Command
total_commands e hour =
    z_incr_by (region_usage_key e.region) (wrap64 (e.upload +ℤ e.download)) (region_member e.region)
    ∷ incr_by (hourly_usage_key hour) (wrap64 (e.upload +ℤ e.download))
    ∷ []

unfoldable pub record_traffic :
    (r : Redis) → Pipeline r → Text → TrafficRecord → r.State → Err × r.State
unfolding user_commands node_commands total_commands
record_traffic r pipe hour e s =
    pipe.exec (user_commands e ++ (node_commands e ++ total_commands e hour)) s
