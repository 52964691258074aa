-- ===== src/Config/Load.antt =====
-- What a configuration that `Load` returns without an error is known to be, and what the environment
-- does to it.
use mathlib.Core.Path.{subst}
use proxydeck.Prelude.{◌≡◌, ◌↔◌, ◌⊎◌, refl, ap, false, inl, inr, [], ◌∷◌, Option, none, some, arith}
use proxydeck.Prelude.Int.{ℤ}
use proxydeck.Errors.{Result, ok, err}
use proxydeck.Strings.{Text, lit, text_eq}
use proxydeck.Strings.Space.{trim_space}
use proxydeck.Strings.Number.{atoi}
use proxydeck.Redis.{Err}
use proxydeck.Subscription.Protocol.{one_of}
use proxydeck.Config.{
  Config, insecure_encryption_key, insecure_admin_password, validate, apply_string, apply_int,
  or_kept, sample_keys, sample_passwords, apply_env_overrides, load, decoded, read, default_config,
}

-- A key, a user name and a password that are not blank, the key and the password not among the samples.
abbrev pub IsSecure : Config → Type 0
IsSecure c =
    (text_eq (trim_space c.security.encryption_key) [] ≡ false)
    × (one_of (trim_space c.security.encryption_key) sample_keys ≡ false)
    × (text_eq (trim_space c.admin.username) [] ≡ false)
    × (text_eq (trim_space c.admin.password) [] ≡ false)
    × (one_of (trim_space c.admin.password) sample_passwords ≡ false)

-- `Validate` accepts exactly the configurations with a key, a user name and a password that are not
-- blank, whose key and password are not among the samples.
pub validate_iff : (c : Config) → (validate c ≡ none) ↔ IsSecure c
unfolding validate insecure_encryption_key insecure_admin_password
validate_iff c = ground arith

-- The variable is not set, or is what the setting holds.
abbrev pub SetTo : Text → Text → Type 0
SetTo value setting = (value ≡ []) ⊎ (setting ≡ value)

-- The variable is no number, or the setting holds the number that it is.
abbrev pub NumberTo : Text → ℤ → Type 0
NumberTo value setting = (value ≡ []) ⊎ ((atoi value ≡ none) ⊎ (atoi value ≡ some setting))

-- Every setting that has a variable of the environment is what the variable says, if it is set.
pub record FollowsEnv (env : Text → Text) (c : Config) : Type 0 where
  pub server_proxy_listen : SetTo (env (lit "PROXYDECK_PROXY_LISTEN")) c.server.proxy_listen
  pub server_admin_listen : SetTo (env (lit "PROXYDECK_ADMIN_LISTEN")) c.server.admin_listen
  pub sqlite_path : SetTo (env (lit "PROXYDECK_SQLITE_PATH")) c.sqlite_path
  pub redis_addr : SetTo (env (lit "PROXYDECK_REDIS_ADDR")) c.redis.addr
  pub redis_password : SetTo (env (lit "PROXYDECK_REDIS_PASSWORD")) c.redis.password
  pub security_encryption_key :
      SetTo (env (lit "PROXYDECK_SECURITY_ENCRYPTION_KEY")) c.security.encryption_key
  pub admin_username : SetTo (env (lit "PROXYDECK_ADMIN_USERNAME")) c.admin.username
  pub admin_password : SetTo (env (lit "PROXYDECK_ADMIN_PASSWORD")) c.admin.password
  pub server_proxy_dial_timeout_sec :
      NumberTo (env (lit "PROXYDECK_PROXY_DIAL_TIMEOUT_SECONDS")) c.server.proxy_dial_timeout_sec
  pub server_proxy_idle_timeout_sec :
      NumberTo (env (lit "PROXYDECK_PROXY_IDLE_TIMEOUT_SECONDS")) c.server.proxy_idle_timeout_sec
  pub server_proxy_resp_timeout_sec :
      NumberTo
        (env (lit "PROXYDECK_PROXY_RESPONSE_HEADER_TIMEOUT_SECONDS"))
        c.server.proxy_resp_timeout_sec
  pub server_proxy_connect_timeout_s :
      NumberTo
        (env (lit "PROXYDECK_PROXY_CONNECT_TIMEOUT_SECONDS"))
        c.server.proxy_connect_timeout_s
  pub redis_db : NumberTo (env (lit "PROXYDECK_REDIS_DB")) c.redis.db
  pub healthcheck_interval_seconds :
      NumberTo (env (lit "PROXYDECK_HEALTHCHECK_INTERVAL_SECONDS")) c.healthcheck.interval_seconds
  pub healthcheck_timeout_seconds :
      NumberTo (env (lit "PROXYDECK_HEALTHCHECK_TIMEOUT_SECONDS")) c.healthcheck.timeout_seconds
  pub healthcheck_max_fail_count :
      NumberTo (env (lit "PROXYDECK_HEALTHCHECK_MAX_FAIL_COUNT")) c.healthcheck.max_fail_count
  pub retry_max_attempts : NumberTo (env (lit "PROXYDECK_RETRY_MAX_ATTEMPTS")) c.retry.max_attempts
  pub retry_base_backoff_ms :
      NumberTo (env (lit "PROXYDECK_RETRY_BASE_BACKOFF_MS")) c.retry.base_backoff_ms
  pub sticky_ttl_seconds : NumberTo (env (lit "PROXYDECK_STICKY_TTL_SECONDS")) c.sticky_ttl_seconds
  pub security_session_ttl :
      NumberTo (env (lit "PROXYDECK_SESSION_TTL_SECONDS")) c.security.session_ttl

apply_string-SetTo : (target value : Text) → SetTo value (apply_string target value)
unfolding apply_string text_eq
apply_string-SetTo target [] = inl refl
apply_string-SetTo target (a ∷ value) = inr refl

or_kept-some : (target : ℤ) (o : Option ℤ) → (o ≡ none) ⊎ (o ≡ some (or_kept target o))
or_kept-some target none = inl refl
or_kept-some target (some n) = inr refl

apply_int-NumberTo : (target : ℤ) (value : Text) → NumberTo value (apply_int target value)
unfolding apply_int text_eq atoi
apply_int-NumberTo target [] = inl refl
apply_int-NumberTo target (a ∷ value) = inr (or_kept-some target (atoi (a ∷ value)))

apply_env_overrides-FollowsEnv :
    (env : Text → Text) (c : Config) → FollowsEnv env (apply_env_overrides env c)
unfolding apply_env_overrides
apply_env_overrides-FollowsEnv env c = record {
  server_proxy_listen =
      apply_string-SetTo c.server.proxy_listen (env (lit "PROXYDECK_PROXY_LISTEN"));
  server_admin_listen =
      apply_string-SetTo c.server.admin_listen (env (lit "PROXYDECK_ADMIN_LISTEN"));
  sqlite_path = apply_string-SetTo c.sqlite_path (env (lit "PROXYDECK_SQLITE_PATH"));
  redis_addr = apply_string-SetTo c.redis.addr (env (lit "PROXYDECK_REDIS_ADDR"));
  redis_password = apply_string-SetTo c.redis.password (env (lit "PROXYDECK_REDIS_PASSWORD"));
  security_encryption_key =
      apply_string-SetTo c.security.encryption_key (env (lit "PROXYDECK_SECURITY_ENCRYPTION_KEY"));
  admin_username = apply_string-SetTo c.admin.username (env (lit "PROXYDECK_ADMIN_USERNAME"));
  admin_password = apply_string-SetTo c.admin.password (env (lit "PROXYDECK_ADMIN_PASSWORD"));
  server_proxy_dial_timeout_sec =
      apply_int-NumberTo c.server.proxy_dial_timeout_sec
        (env (lit "PROXYDECK_PROXY_DIAL_TIMEOUT_SECONDS"));
  server_proxy_idle_timeout_sec =
      apply_int-NumberTo c.server.proxy_idle_timeout_sec
        (env (lit "PROXYDECK_PROXY_IDLE_TIMEOUT_SECONDS"));
  server_proxy_resp_timeout_sec =
      apply_int-NumberTo c.server.proxy_resp_timeout_sec
        (env (lit "PROXYDECK_PROXY_RESPONSE_HEADER_TIMEOUT_SECONDS"));
  server_proxy_connect_timeout_s =
      apply_int-NumberTo c.server.proxy_connect_timeout_s
        (env (lit "PROXYDECK_PROXY_CONNECT_TIMEOUT_SECONDS"));
  redis_db = apply_int-NumberTo c.redis.db (env (lit "PROXYDECK_REDIS_DB"));
  healthcheck_interval_seconds =
      apply_int-NumberTo c.healthcheck.interval_seconds
        (env (lit "PROXYDECK_HEALTHCHECK_INTERVAL_SECONDS"));
  healthcheck_timeout_seconds =
      apply_int-NumberTo c.healthcheck.timeout_seconds
        (env (lit "PROXYDECK_HEALTHCHECK_TIMEOUT_SECONDS"));
  healthcheck_max_fail_count =
      apply_int-NumberTo c.healthcheck.max_fail_count
        (env (lit "PROXYDECK_HEALTHCHECK_MAX_FAIL_COUNT"));
  retry_max_attempts =
      apply_int-NumberTo c.retry.max_attempts (env (lit "PROXYDECK_RETRY_MAX_ATTEMPTS"));
  retry_base_backoff_ms =
      apply_int-NumberTo c.retry.base_backoff_ms (env (lit "PROXYDECK_RETRY_BASE_BACKOFF_MS"));
  sticky_ttl_seconds =
      apply_int-NumberTo c.sticky_ttl_seconds (env (lit "PROXYDECK_STICKY_TTL_SECONDS"));
  security_session_ttl =
      apply_int-NumberTo c.security.session_ttl (env (lit "PROXYDECK_SESSION_TTL_SECONDS"));
}

decoded-IsSecure :
    (env : Text → Text) (p : Config × Err) (c : Config)
    → decoded env p ≡ (c, none)
    → IsSecure c × FollowsEnv env c
decoded-IsSecure env (d, some e) c h = cc
decoded-IsSecure env (d, none) c h =
    let e : apply_env_overrides env d ≡ c = ap (λ (p : Config × Err). p.0) h in
    let v : validate (apply_env_overrides env d) ≡ none = ap (λ (p : Config × Err). p.1) h in
    (
      (validate_iff c).0 (subst (λ x. validate x ≡ none) e v),
      subst (FollowsEnv env) e (apply_env_overrides-FollowsEnv env d),
    )

read-IsSecure :
    (unmarshal : Text → Config → Config × Err) (env : Text → Text) (raw : Result Text) (c : Config)
    → read unmarshal env raw ≡ (c, none)
    → IsSecure c × FollowsEnv env c
read-IsSecure unmarshal env (err e) c h = cc
read-IsSecure unmarshal env (ok raw) c h = decoded-IsSecure env (unmarshal raw default_config) c h

-- A configuration that `Load` returns without an error is secure, whatever the file and the
-- environment hold; each of its settings that has a variable of the environment holds what the
-- variable says, if it is set, and for a number if it is one.
pub load-IsSecure :
    (read_file : Text → Result Text) (unmarshal : Text → Config → Config × Err) (env : Text → Text)
    (path : Text) (c : Config)
    → load read_file unmarshal env path ≡ (c, none)
    → IsSecure c × FollowsEnv env c
unfolding load
load-IsSecure read_file unmarshal env path c h = read-IsSecure unmarshal env (read_file path) c h
