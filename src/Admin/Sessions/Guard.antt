-- ===== src/Admin/Sessions/Guard.antt =====
-- The sessions of adminapi/server.go, from the login to the logout.
use mathlib.Core.Path.{subst}
use proxydeck.Prelude.{◌≡◌, refl, sym, ◌∙◌, ◌==◌, true, false, ◌++◌, Option, none, some}
use proxydeck.Prelude.Int.{ℤ}
use proxydeck.Errors.{Result, ok, err}
use proxydeck.Strings.{Text, is_empty}
use proxydeck.Model.{User, admin_uid_prefix}
use proxydeck.Redis.{Err}
use proxydeck.Admin.{Reply}
use proxydeck.Admin.Sessions.{
  SessionStore, session_key, session_cookie_max_age, unless_blank, require_admin, login, logout,
  with_admin, checked, logged_in, create_session, created,
}

module _ (x : SessionStore)
    (reads : (s : x.State) (k v : Text) → x.value s k ≡ some v → x.get k s ≡ ok v)
    (deletes : (s : x.State) (k : Text) → (x.del k s).0 ≡ none)
    (tokens : (s : x.State) → is_empty (x.new_token s).0 ≡ false) where
  open x use {State}

  -- The session that an answer opens.
  record Opened (ttl : ℤ) (name : Text) (p : Reply × State) : Type 0 where
    token : Text
    cookie : p.0.cookie ≡ some (token, session_cookie_max_age ttl)
    token_given : is_empty token ≡ false
    stored : x.value p.1 (session_key token) ≡ some name

  opens :
      (ttl : ℤ) (name token : Text) (s : State) (p : Err × State)
      → is_empty token ≡ false
      → x.set (session_key token) name x.ttl s ≡ p
      → ((logged_in x ttl name (created x token p)).0.status == 200) ≡ true
      → Opened ttl name (logged_in x ttl name (created x token p))
  opens ttl name token s (some e, t) g q h = cc
  opens ttl name token s (none, t) g q h = record {
    token = token;
    cookie = refl;
    token_given = g;
    stored = rw (x.count_login_ok t) (x.set_ok (session_key token) name x.ttl s t q);
  }

  checked-opens :
      (ttl : ℤ) (name : Text) (s : State) (e : Err)
      → ((checked x ttl name e s).0.status == 200) ≡ true
      → (e ≡ none) × Opened ttl name (checked x ttl name e s)
  unfolding create_session
  checked-opens ttl name s (some e) h = cc
  checked-opens ttl name s none h = (refl, opens ttl name _ _ _ (tokens s) refl h)

  -- The row that lets an administrator in.
  record Admitted (name password : Text) (s : State) : Type 0 where
    row : User
    found : x.find_user (admin_uid_prefix ++ name) s ≡ ok row
    known : x.check_password row.password_hash password ≡ none

  row-opens :
      (ttl : ℤ) (name password : Text) (s : State) (res : Result User)
      → x.find_user (admin_uid_prefix ++ name) s ≡ res
      → ((with_admin x ttl name password res s).0.status == 200) ≡ true
      → Admitted name password s × Opened ttl name (with_admin x ttl name password res s)
  row-opens ttl name password s (err e) q h = cc
  row-opens ttl name password s (ok row) q h =
      let (a, b) = checked-opens ttl name s (x.check_password row.password_hash password) h in
      (record { row = row; found = q; known = a }, b)

  refuses :
      (token : Text) (t : State) (res : Result Text)
      → x.value t (session_key token) ≡ none
      → x.get (session_key token) t ≡ res
      → unless_blank res ≡ none
  refuses token t (err e) v g = refl
  refuses token t (ok name) v g =
      let q : x.value t (session_key token) ≡ some name = x.get_ok (session_key token) t name g in
      cc

  admits :
      (name token : Text) (t : State)
      → is_empty name ≡ false
      → is_empty token ≡ false
      → x.value t (session_key token) ≡ some name
      → require_admin x (ok token) t ≡ some name
  unfolding require_admin
  admits name token t n g v = rw (g, reads t (session_key token) name v, n) refl

  revoked :
      (token : Text) (t : State)
      → is_empty token ≡ false
      → require_admin x (ok token) (logout x (ok token) t).1 ≡ none
  unfolding require_admin logout
  revoked token t g =
      let u = (x.del (session_key token) t).1 in
      let v : x.value u (session_key token) ≡ none =
        x.del_ok (session_key token) t u (paired _ (deletes t (session_key token))) in
      rw g (refuses token u _ v refl)
    where
      paired : (p : Err × State) → p.0 ≡ none → p ≡ (none, p.1)
      paired (a, b) e = rw e refl

  same_token :
      (a b : Text) (m : ℤ) → ◌≡◌ {A = Option (Text × ℤ)} (some (a, m)) (some (b, m)) → a ≡ b
  same_token a b m h = cc

  -- Where login answers 200 with a cookie, the table has a row under the reserved name whose hash is
  -- that of the password; in every state that holds the session as login left it, the cookie passes
  -- the guard as that administrator, and in none that logout leaves behind; if the name is not empty,
  -- sessions can be read and deleted, and tokens are not empty.
  pub login-guard :
      (ttl : ℤ) (name password token : Text) (s t u : State)
      → is_empty name ≡ false
      → ((login x ttl (ok (name, password)) s).0.status == 200) ≡ true
      → (login x ttl (ok (name, password)) s).0.cookie ≡ some (token, session_cookie_max_age ttl)
      → x.value t (session_key token)
        ≡ x.value (login x ttl (ok (name, password)) s).1 (session_key token)
      → (row : User) × (x.find_user (admin_uid_prefix ++ name) s ≡ ok row)
        × (x.check_password row.password_hash password ≡ none)
        × (require_admin x (ok token) t ≡ some name)
        × (require_admin x (ok token) (logout x (ok token) u).1 ≡ none)
  unfolding login
  login-guard ttl name password token s t u n h c v =
      let (a, o) = row-opens ttl name password s _ refl h in
      let e : o.token ≡ token =
        same_token o.token token (session_cookie_max_age ttl) (sym o.cookie ∙ c) in
      let g : is_empty token ≡ false = subst (λ k. is_empty k ≡ false) e o.token_given in
      let w =
        subst (λ k. x.value (login x ttl (ok (name, password)) s).1 (session_key k) ≡ some name) e
          o.stored in
      (a.row, a.found, a.known, admits name token t n g (v ∙ w), revoked token u g)
