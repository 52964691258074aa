-- ===== src/Quota/Admission.antt =====
-- Whom `Authenticate` lets in.
use mathlib.Core.Path.{subst}
use proxydeck.Prelude.{◌≡◌, refl, ap, ◌↔◌, ◌⊎◌, true, false, Option, none, some, arith}
use proxydeck.Prelude.Int.{ℤ, pos, ◌+ℤ◌, ◌≤ℤ◌, ◌<ℤ◌, wrap64}
use proxydeck.Errors.{Result, ok, err}
use proxydeck.Strings.{Text}
use proxydeck.Model.{User}
use proxydeck.Redis.{Redis, Err}
use proxydeck.Quota.{
  is_expired, over_quota, user_pending_usage, check_user, check_found, authenticate,
}

-- The instant of the expiry, if there is one, is not over.
abbrev pub Current : Option ℤ → ℤ → Type 0
Current none now = Unit
Current (some expiry) now = now ≤ℤ expiry

-- There is no quota, or the recorded and the pending bytes are below it, as `int64` adds them.
abbrev pub Funded : User → ℤ → Type 0
Funded user pending =
    (user.quota_bytes ≤ℤ pos 0) ⊎ (wrap64 (user.used_bytes +ℤ pending) <ℤ user.quota_bytes)

-- Whom the service means to admit: the account is enabled and not expired, the password fits, and the
-- quota is not used up by the recorded and the pending bytes.
pub record IsAdmitted (user : User) (now : ℤ) (password : Err) (pending : ℤ) : Type 0 where
  pub enabled : user.enabled ≡ true
  pub current : Current user.expired_at now
  pub known : password ≡ none
  pub funded : Funded user pending

is_expired_iff :
    (expiry : Option ℤ) (now : ℤ) → (is_expired expiry now ≡ false) ↔ Current expiry now
unfolding is_expired
is_expired_iff none now = (λ h. tt, λ h. refl)
is_expired_iff (some expiry) now = ground arith

over_quota_iff :
    (user : User) (pending : ℤ) → (over_quota user pending ≡ false) ↔ Funded user pending
unfolding over_quota
over_quota_iff user pending = ground arith

-- The same with the code's own tests.
record PassesTests (user : User) (now : ℤ) (password : Err) (pending : ℤ) : Type 0 where
  enabled : user.enabled ≡ true
  current : is_expired user.expired_at now ≡ false
  known : password ≡ none
  funded : over_quota user pending ≡ false

PassesTests-IsAdmitted :
    (user : User) (now : ℤ) (password : Err) (pending : ℤ)
    → PassesTests user now password pending
    → IsAdmitted user now password pending
PassesTests-IsAdmitted user now password pending t = record {
  enabled = t.enabled;
  current = (is_expired_iff user.expired_at now).0 t.current;
  known = t.known;
  funded = (over_quota_iff user pending).0 t.funded;
}

module _ (r : Redis) where
  open r use {State}

  check_user-PassesTests :
      (user u : User) (now : ℤ) (password : Err) (s : State)
      → check_user r user now password s ≡ ok u
      → (user ≡ u) × PassesTests user now password (user_pending_usage r user.uid s)
  unfolding check_user
  check_user-PassesTests user u now none s h = ground arith
  check_user-PassesTests user u now (some e) s h = ground arith

  check_user-IsAdmitted :
      (user u : User) (now : ℤ) (password : Err) (s : State)
      → check_user r user now password s ≡ ok u
      → (user ≡ u) × IsAdmitted user now password (user_pending_usage r user.uid s)
  check_user-IsAdmitted user u now password s h =
      let (e, t) = check_user-PassesTests user u now password s h in
      (e, PassesTests-IsAdmitted user now password _ t)

  IsAdmitted-check_user :
      (user : User) (now : ℤ) (password : Err) (s : State)
      → IsAdmitted user now password (user_pending_usage r user.uid s)
      → check_user r user now password s ≡ ok user
  unfolding check_user
  IsAdmitted-check_user user now password s a = rw (
    a.enabled,
    (is_expired_iff user.expired_at now).1 a.current,
    a.known,
    (over_quota_iff user (user_pending_usage r user.uid s)).1 a.funded,
  )

  -- `Authenticate` returns a user exactly if that is the user found under the id, it is enabled, its
  -- expiry is not over, its password fits, and it has no quota or its recorded and pending bytes, as
  -- int64 adds them, are below it.
  pub authenticate_iff :
      (find : Text → Result User) (check : Text → Text → Err) (uid password : Text) (now : ℤ)
      (s : State) (user : User)
      → (authenticate r find check uid password now s ≡ ok user) ↔ (
          (find uid ≡ ok user)
          × IsAdmitted user now
              (check user.password_hash password)
              (user_pending_usage r user.uid s))
  unfolding authenticate
  authenticate_iff find check uid password now s user = (there (find uid), back)
    where
      there :
          (f : Result User)
          → check_found r f check password now s ≡ ok user
          → (f ≡ ok user)
            × IsAdmitted user now
                (check user.password_hash password)
                (user_pending_usage r user.uid s)
      there (err e) h = cc
      there (ok u) h =
          let got = check_user-IsAdmitted u user now (check u.password_hash password) s h in
          (
            ap ok got.0,
            subst
                (λ v.
                  IsAdmitted v now (check v.password_hash password) (user_pending_usage r v.uid s))
                got.0 got.1,
          )

      back :
          (find uid ≡ ok user)
            × IsAdmitted user now
                (check user.password_hash password)
                (user_pending_usage r user.uid s)
          → check_found r (find uid) check password now s ≡ ok user
      back (found, a) = rw found (IsAdmitted-check_user user now _ s a)
