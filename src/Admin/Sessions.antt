-- ===== src/Admin/Sessions.antt =====
-- `requireAdmin`, `login`, `logout`, `me` and `sessionCookieMaxAge` of adminapi/server.go, and
-- `AdminSessionManager` of auth/auth.go. Redis, the table of users, bcrypt and the source of the
-- tokens are an interface. Redis drops a session when its time is over, which is no step of the model.
pub mod Guard
use proxydeck.Prelude.{
  ℕ, ◌≡◌, ◌≢◌, ◌⊎◌, refl, sym, ap, ◌∙◌, Bool, true, false, not, ◌++◌, [], ◌∷◌, Option, none, some,
  Bool-cases, inl, inr, if◌then◌else◌,
}
use proxydeck.Prelude.Int.{ℤ, pos, negsuc, leb_ℤ}
use proxydeck.Errors.{Error, Result, ok, err, message}
use proxydeck.Strings.{Text, lit, is_empty}
use proxydeck.Model.{User, admin_uid_prefix}
use proxydeck.Redis.{Err}
use proxydeck.Admin.{Reply, reply, fail, empty, done, username}

pub record SessionStore : Type 1 where
  pub State : Type 0
  -- what the sessions hold
  pub value : State → Text → Option Text
  -- the time that a session lasts, a time.Duration
  pub ttl : ℤ
  pub get : Text → State → Result Text
  -- SET of a key to a value, for a time
  pub set : Text → Text → ℤ → State → Err × State
  pub del : Text → State → Err × State
  -- uuid.NewString
  pub new_token : State → Text × State
  -- the first row of the users with a uid; bcrypt's comparison of a hash and a password
  pub find_user : Text → State → Result User
  pub check_password : Text → Text → Err
  pub count_login : State → State
  pub get_ok : (k : Text) (s : State) (v : Text) → get k s ≡ ok v → value s k ≡ some v
  pub set_ok : (k v : Text) (d : ℤ) (s t : State) → set k v d s ≡ (none, t) → value t k ≡ some v
  pub del_ok : (k : Text) (s t : State) → del k s ≡ (none, t) → value t k ≡ none
  pub count_login_ok : (s : State) → value (count_login s) ≡ value s

-- `admin:sess:` and the token
unfoldable pub session_key : Text → Text
session_key token = lit "admin:sess:" ++ token

unfoldable pub session_cookie_max_age : ℤ → ℤ
session_cookie_max_age ttl = if leb_ℤ ttl (pos 0) then pos 86400 else ttl

-- `none` where the guard ends the request with 401.
abbrev pub unless_blank : Result Text → Option Text
unless_blank (err e) = none
unless_blank (ok name) = if is_empty name then none else some name

module _ (x : SessionStore) where
  open x use {State}

  -- `requireAdmin`, on the cookie: the name of the administrator
  unfoldable pub require_admin : Result Text → State → Option Text
  unfolding session_key
  require_admin (err e) s = none
  require_admin (ok token) s =
      if is_empty token then none else unless_blank (x.get (session_key token) s)

  -- A route behind the guard.
  abbrev pub guarded : Option Text → (Text → State → Reply × State) → State → Reply × State
  guarded none handler s = (reply 401 empty, s)
  guarded (some name) handler s = handler name s

  -- `me`, behind the guard
  unfoldable pub me : Result Text → State → Reply × State
  unfolding require_admin
  me cookie s = guarded (require_admin cookie s) (λ name t. (reply 200 (username name), t)) s

  -- `Create`
  abbrev pub created : Text → Err × State → Result Text × State
  created token (some e, s) = (err e, s)
  created token (none, s) = (ok token, s)

  unfoldable pub create_session : Text → State → Result Text × State
  unfolding session_key
  create_session name s =
      let t = x.new_token s in created t.0 (x.set (session_key t.0) name x.ttl t.1)

  abbrev pub logged_in : ℤ → Text → Result Text × State → Reply × State
  logged_in ttl name (err e, s) = (fail 500 e, s)
  logged_in ttl name (ok token, s) = (
    record {
      status = 200;
      cookie = some (token, session_cookie_max_age ttl);
      body = username name;
    },
    x.count_login s,
  )

  abbrev pub checked : ℤ → Text → Err → State → Reply × State
  checked ttl name (some e) s = (fail 401 (message (lit "invalid credentials")), s)
  checked ttl name none s = logged_in ttl name (create_session name s)

  abbrev pub with_admin : ℤ → Text → Text → Result User → State → Reply × State
  with_admin ttl name password (err e) s = (fail 401 (message (lit "invalid credentials")), s)
  with_admin ttl name password (ok admin) s =
      checked ttl name (x.check_password admin.password_hash password) s

  -- `login`; the request is the user name and the password.
  unfoldable pub login : ℤ → Result (Text × Text) → State → Reply × State
  unfolding create_session session_cookie_max_age
  login ttl (err e) s = (fail 400 e, s)
  login ttl (ok (name, password)) s =
      with_admin ttl name password (x.find_user (admin_uid_prefix ++ name) s) s

  abbrev pub delete_session : Result Text → State → State
  delete_session (err e) s = s
  delete_session (ok token) s = if is_empty token then s else (x.del (session_key token) s).1

  unfoldable pub logout : Result Text → State → Reply × State
  logout cookie s =
      (record { status = 200; cookie = some ([], negsuc 0); body = done }, delete_session cookie s)
