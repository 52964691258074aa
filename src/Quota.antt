-- ===== src/Quota.antt =====
-- backend/internal/quota/service.go: `Authenticate`, `Acquire`, `Release` and the other operations on
-- the runtime of a user. The database, the clock and the password check are arguments.
pub mod Counting
pub mod Effect
pub mod Admission
pub mod Schedule
pub mod Race
use proxydeck.Prelude.{
  ℕ, Bool, true, false, not, ◌&&◌, List, [], ◌∷◌, ◌++◌, Option, none, some, if◌then◌else◌,
}
use proxydeck.Prelude.Int.{ℤ, pos, ◌+ℤ◌, wrap64, ltb_ℤ, leb_ℤ}
use proxydeck.Errors.{
  Error, Result, ok, err, user_disabled, user_expired, quota_exceeded, concurrency_exceeded,
}
use proxydeck.Strings.{Text, lit}
use proxydeck.Model.{User}
use proxydeck.Redis.{Redis, Err, conn_key, usage_key, requests_key}

-- `v, _ := ….Int64()`
abbrev pub or_zero : Result ℤ → ℤ
or_zero (ok n) = n
or_zero (err e) = pos 0

-- `user.ExpiredAt != nil && time.Now().After(*user.ExpiredAt)`
unfoldable pub is_expired : Option ℤ → ℤ → Bool
is_expired none now = false
is_expired (some t) now = ltb_ℤ t now

-- `user.QuotaBytes > 0 && user.UsedBytes+pendingUsage >= user.QuotaBytes`, in `int64`
unfoldable pub over_quota : User → ℤ → Bool
over_quota user pending =
    ltb_ℤ (pos 0) user.quota_bytes && leb_ℤ user.quota_bytes (wrap64 (user.used_bytes +ℤ pending))

-- `current > int64(user.MaxConcurrency)`, where there is a limit
unfoldable pub over_limit : User → ℤ → Bool
over_limit user current = ltb_ℤ (pos 0) user.max_concurrency && ltb_ℤ user.max_concurrency current

-- `err != nil || current <= 1`
unfoldable pub drops_key : Result ℤ → Bool
drops_key (err e) = true
drops_key (ok current) = leb_ℤ current (pos 1)

module _ (r : Redis) where
  open r use {State}

  unfoldable pub user_pending_usage : Text → State → ℤ
  user_pending_usage uid s = wrap64 (
      or_zero (r.get (usage_key uid (lit "upload")) s)
      +ℤ or_zero (r.get (usage_key uid (lit "download")) s))

  abbrev check_quota : Err → User → State → Result User
  check_quota (some e) user s = err e
  check_quota none user s =
      if over_quota user (user_pending_usage user.uid s) then err quota_exceeded else ok user

  -- Behind the lookup of the user, whose id is the one looked up; `password` is the result of
  -- `auth.CheckPassword`.
  unfoldable pub check_user : User → ℤ → Err → State → Result User
  unfolding user_pending_usage is_expired over_quota
  check_user user now password s =
      if not user.enabled
      then err user_disabled
      else if is_expired user.expired_at now
      then err user_expired
      else check_quota password user s

  abbrev check_found : Result User → (Text → Text → Err) → Text → ℤ → State → Result User
  check_found (err e) check password now s = err e
  check_found (ok user) check password now s =
      check_user user now (check user.password_hash password) s

  -- `find` is the lookup by user id, `check` is `auth.CheckPassword`.
  unfoldable pub authenticate :
      (Text → Result User) → (Text → Text → Err) → Text → Text → ℤ → State → Result User
  unfolding check_user
  authenticate find check uid password now s = check_found (find uid) check password now s

  abbrev after_incr : User → Result ℤ × State → Err × State
  after_incr user (err e, s) = (some e, s)
  after_incr user (ok current, s) =
      if over_limit user current
      then (some concurrency_exceeded, (r.decr (conn_key user.uid) s).1)
      else (none, s)

  unfoldable pub acquire : User → State → Err × State
  unfolding over_limit
  acquire user s = after_incr user (r.incr (conn_key user.uid) s)

  unfoldable pub release : Text → State → State
  unfolding drops_key
  release uid s =
      if drops_key (r.get (conn_key uid) s)
      then (r.del (conn_key uid ∷ []) s).1
      else (r.decr (conn_key uid) s).1

  unfoldable pub current_concurrency : Text → State → ℤ
  current_concurrency uid s = or_zero (r.get (conn_key uid) s)

  abbrev delete_found : List Text → Result (List Text) → State → Err × State
  delete_found ks (err e) s = (some e, s)
  delete_found ks (ok sticky) s = r.del (ks ++ sticky) s

  unfoldable pub cleanup_user_runtime : Text → State → Err × State
  cleanup_user_runtime uid s =
      delete_found
        (conn_key uid
          ∷ usage_key uid (lit "upload")
          ∷ usage_key uid (lit "download")
          ∷ requests_key uid
          ∷ [])
        (r.keys (lit "sticky:" ++ (uid ++ lit ":*")) s) s
