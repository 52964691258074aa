-- ===== src/Tests/Config.antt =====
-- The theorems on config/config.go at a configuration whose secrets come from the environment.
use proxydeck.Prelude.{◌≡◌, refl, ◌↔◌, none, [], if◌then◌else◌}
use proxydeck.Errors.{Result, ok}
use proxydeck.Strings.{Text, lit, text_eq}
use proxydeck.Strings.Space.{trim_space}
use proxydeck.Subscription.Protocol.{one_of}
use proxydeck.Redis.{Err}
use proxydeck.Config.{Config, default_config, apply_env_overrides, validate, load}
use proxydeck.Config.Load.{IsSecure, FollowsEnv, validate_iff, load-IsSecure}

abbrev env : Text → Text
env key =
    if text_eq key (lit "PROXYDECK_SECURITY_ENCRYPTION_KEY")
    then lit "k3y"
    else if text_eq key (lit "PROXYDECK_ADMIN_PASSWORD")
    then lit "s3cret"
    else []

abbrev read_file : Text → Result Text
read_file path = ok (lit "file")

abbrev unmarshal : Text → Config → Config × Err
unmarshal raw c = (record c { sqlite_path = raw }, none)

abbrev loaded : Config
loaded = apply_env_overrides env (record default_config { sqlite_path = lit "file" })

load-IsSecure_example : IsSecure loaded × FollowsEnv env loaded
unfolding load text_eq trim_space one_of
load-IsSecure_example = load-IsSecure read_file unmarshal env (lit "config.yaml") loaded refl

validate_iff_example : (validate default_config ≡ none) ↔ IsSecure default_config
validate_iff_example = validate_iff default_config
