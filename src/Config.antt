-- ===== src/Config.antt =====
-- backend/internal/config/config.go: the configuration, its defaults, the environment and `Validate`.
-- The file system, the YAML decoder and the environment are parameters.
pub mod Load
use proxydeck.Prelude.{
  ℕ, ◌+◌, ◌*◌, Bool, true, false, List, [], ◌∷◌, ◌++◌, Option, none, some, not, ◌||◌, if◌then◌else◌,
}
use proxydeck.Prelude.Int.{ℤ, pos, negsuc, wrap64}
use proxydeck.Errors.{Error, Result, ok, err, message}
use proxydeck.Strings.{Text, lit, text_eq, is_empty}
use proxydeck.Strings.Space.{trim_space}
use proxydeck.Strings.Number.{atoi}
use proxydeck.Redis.{Err}
use proxydeck.Subscription.Protocol.{one_of}

pub record ServerConfig : Type 0 where
  pub proxy_listen : Text
  pub admin_listen : Text
  pub proxy_dial_timeout_sec : ℤ
  pub proxy_idle_timeout_sec : ℤ
  pub proxy_resp_timeout_sec : ℤ
  pub proxy_connect_timeout_s : ℤ

pub record RedisConfig : Type 0 where
  pub addr : Text
  pub password : Text
  pub db : ℤ

pub record HealthcheckConfig : Type 0 where
  pub interval_seconds : ℤ
  pub timeout_seconds : ℤ
  pub max_fail_count : ℤ

pub record RetryConfig : Type 0 where
  pub max_attempts : ℤ
  pub base_backoff_ms : ℤ

pub record SecurityConfig : Type 0 where
  pub encryption_key : Text
  pub session_ttl : ℤ

pub record AdminConfig : Type 0 where
  pub username : Text
  pub password : Text

pub record Config : Type 0 where
  pub server : ServerConfig
  pub sqlite_path : Text
  pub redis : RedisConfig
  pub healthcheck : HealthcheckConfig
  pub retry : RetryConfig
  pub sticky_ttl_seconds : ℤ
  pub security : SecurityConfig
  pub admin : AdminConfig

abbrev pub default_config : Config
default_config = record {
  server = record {
    proxy_listen = lit "0.0.0.0:20000";
    admin_listen = lit "0.0.0.0:8080";
    proxy_dial_timeout_sec = pos 10;
    proxy_idle_timeout_sec = pos 90;
    proxy_resp_timeout_sec = pos 15;
    proxy_connect_timeout_s = pos 15;
  };
  sqlite_path = lit "./data/app.db";
  redis = record { addr = lit "127.0.0.1:6379"; password = []; db = pos 0 };
  healthcheck = record {
    interval_seconds = pos 300;
    timeout_seconds = pos 10;
    max_fail_count = pos 3;
  };
  retry = record { max_attempts = pos 3; base_backoff_ms = pos 500 };
  sticky_ttl_seconds = pos 3600;
  security = record {
    encryption_key = lit "change-this-with-a-strong-random-secret";
    session_ttl = pos 86400;
  };
  admin = record { username = lit "admin"; password = lit "change-this-before-first-run" };
}

abbrev pub sample_keys : List Text
sample_keys =
    lit "change-this-with-a-strong-random-secret"
    ∷ lit "replace-this-with-a-strong-32-byte-key"
    ∷ lit "change-me-32-bytes-secret-key!!"
    ∷ []

unfoldable pub insecure_encryption_key : Text → Bool
insecure_encryption_key value = one_of (trim_space value) sample_keys

abbrev pub sample_passwords : List Text
sample_passwords = lit "admin123456" ∷ lit "change-this-before-first-run" ∷ []

unfoldable pub insecure_admin_password : Text → Bool
insecure_admin_password value = one_of (trim_space value) sample_passwords

unfoldable pub validate : Config → Err
unfolding insecure_encryption_key insecure_admin_password
validate c =
    if text_eq (trim_space c.security.encryption_key) []
    then some (message (lit "security.encryption_key is required"))
    else if insecure_encryption_key c.security.encryption_key
    then some (
        message (
          lit
            "security.encryption_key uses a sample placeholder; set PROXYDECK_SECURITY_ENCRYPTION_KEY or update the config file"))
    else if text_eq (trim_space c.admin.username) []
    then some (message (lit "admin.username is required"))
    else if text_eq (trim_space c.admin.password) []
    then some (message (lit "admin.password is required"))
    else if insecure_admin_password c.admin.password
    then some (
        message (
          lit
            "admin.password uses a sample placeholder; set PROXYDECK_ADMIN_PASSWORD or update the config file"))
    else none

-- What `applyString` and `applyInt` leave in the target, by the value of the variable.
unfoldable pub apply_string : Text → Text → Text
apply_string target value = if not (text_eq value []) then value else target

abbrev pub or_kept : ℤ → Option ℤ → ℤ
or_kept target none = target
or_kept target (some parsed) = parsed

unfoldable pub apply_int : ℤ → Text → ℤ
apply_int target value = if text_eq value [] then target else or_kept target (atoi value)

-- `env` is os.Getenv.
unfoldable pub apply_env_overrides : (Text → Text) → Config → Config
unfolding apply_string apply_int
apply_env_overrides env c = record {
  server = record {
    proxy_listen = apply_string c.server.proxy_listen (env (lit "PROXYDECK_PROXY_LISTEN"));
    admin_listen = apply_string c.server.admin_listen (env (lit "PROXYDECK_ADMIN_LISTEN"));
    proxy_dial_timeout_sec =
        apply_int c.server.proxy_dial_timeout_sec
          (env (lit "PROXYDECK_PROXY_DIAL_TIMEOUT_SECONDS"));
    proxy_idle_timeout_sec =
        apply_int c.server.proxy_idle_timeout_sec
          (env (lit "PROXYDECK_PROXY_IDLE_TIMEOUT_SECONDS"));
    proxy_resp_timeout_sec =
        apply_int c.server.proxy_resp_timeout_sec
          (env (lit "PROXYDECK_PROXY_RESPONSE_HEADER_TIMEOUT_SECONDS"));
    proxy_connect_timeout_s =
        apply_int c.server.proxy_connect_timeout_s
          (env (lit "PROXYDECK_PROXY_CONNECT_TIMEOUT_SECONDS"));
  };
  sqlite_path = apply_string c.sqlite_path (env (lit "PROXYDECK_SQLITE_PATH"));
  redis = record {
    addr = apply_string c.redis.addr (env (lit "PROXYDECK_REDIS_ADDR"));
    password = apply_string c.redis.password (env (lit "PROXYDECK_REDIS_PASSWORD"));
    db = apply_int c.redis.db (env (lit "PROXYDECK_REDIS_DB"));
  };
  healthcheck = record {
    interval_seconds =
        apply_int c.healthcheck.interval_seconds
          (env (lit "PROXYDECK_HEALTHCHECK_INTERVAL_SECONDS"));
    timeout_seconds =
        apply_int c.healthcheck.timeout_seconds (env (lit "PROXYDECK_HEALTHCHECK_TIMEOUT_SECONDS"));
    max_fail_count =
        apply_int c.healthcheck.max_fail_count (env (lit "PROXYDECK_HEALTHCHECK_MAX_FAIL_COUNT"));
  };
  retry = record {
    max_attempts = apply_int c.retry.max_attempts (env (lit "PROXYDECK_RETRY_MAX_ATTEMPTS"));
    base_backoff_ms =
        apply_int c.retry.base_backoff_ms (env (lit "PROXYDECK_RETRY_BASE_BACKOFF_MS"));
  };
  sticky_ttl_seconds = apply_int c.sticky_ttl_seconds (env (lit "PROXYDECK_STICKY_TTL_SECONDS"));
  security = record {
    encryption_key =
        apply_string c.security.encryption_key (env (lit "PROXYDECK_SECURITY_ENCRYPTION_KEY"));
    session_ttl = apply_int c.security.session_ttl (env (lit "PROXYDECK_SESSION_TTL_SECONDS"));
  };
  admin = record {
    username = apply_string c.admin.username (env (lit "PROXYDECK_ADMIN_USERNAME"));
    password = apply_string c.admin.password (env (lit "PROXYDECK_ADMIN_PASSWORD"));
  };
}

abbrev pub decoded : (Text → Text) → Config × Err → Config × Err
decoded env (c, some e) = (c, some e)
decoded env (c, none) =
    let overridden = apply_env_overrides env c in (overridden, validate overridden)

abbrev pub read : (Text → Config → Config × Err) → (Text → Text) → Result Text → Config × Err
read unmarshal env (err e) = (default_config, some e)
read unmarshal env (ok raw) = decoded env (unmarshal raw default_config)

-- `read_file` is os.ReadFile; `unmarshal` is yaml.Unmarshal, into a configuration.
unfoldable pub load :
    (Text → Result Text) → (Text → Config → Config × Err) → (Text → Text) → Text → Config × Err
unfolding apply_env_overrides validate
load read_file unmarshal env path = read unmarshal env (read_file path)
