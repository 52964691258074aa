-- ===== src/Model.antt =====
-- backend/internal/model/models.go and admin.go, without the columns `created_at` and `updated_at`,
-- which the program never reads. Instants and durations are integers, in nanoseconds.
use proxydeck.Prelude.{Bool, Option}
use proxydeck.Prelude.Int.{ℤ}
use proxydeck.Prelude.{ℕ}
use proxydeck.Strings.{Text, lit}

pub record User : Type 0 where
  pub id : ℕ
  pub uid : Text
  pub password_hash : Text
  pub enabled : Bool
  pub quota_bytes : ℤ
  pub used_bytes : ℤ
  pub total_requests : ℤ
  pub max_concurrency : ℤ
  pub expired_at : Option ℤ
  pub remark : Text

pub record Subscription : Type 0 where
  pub id : ℕ
  pub name : Text
  pub type : Text
  pub url : Text
  pub enabled : Bool
  pub sync_interval_seconds : ℤ
  pub last_sync_at : Option ℤ
  pub remark : Text

pub record ProxyNode : Type 0 where
  pub id : ℕ
  pub node_key : Text
  pub protocol : Text
  pub host : Text
  pub port : ℤ
  pub upstream_username_enc : Text
  pub upstream_password_enc : Text
  pub tls_enabled : Bool
  pub tls_skip_verify : Bool
  pub server_name : Text
  pub tag : Text
  pub expected_region : Text
  pub detected_region : Text
  pub city : Text
  pub country : Text
  pub asn : Text
  pub org : Text
  pub isp : Text
  pub exit_ip : Text
  pub latency_ms : ℤ
  pub healthy : Bool
  pub disabled : Bool
  pub fail_count : ℤ
  pub last_check_at : Option ℤ
  pub subscription_id : ℕ
  pub raw_json : Text
  pub upload_bytes : ℤ
  pub download_bytes : ℤ
  pub total_requests : ℤ

-- `AdminUIDPrefix`
abbrev pub admin_uid_prefix : Text
admin_uid_prefix = lit "__admin__:"
