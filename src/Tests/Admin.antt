-- ===== src/Tests/Admin.antt =====
-- The theorems on adminapi/server.go at concrete requests.
use proxydeck.Strings.Space.{trim_right, is_space}
use mathlib.Core.Path.{sym}
use proxydeck.Prelude.{
  ◌≡◌, refl, ap, List, [], ◌∷◌, ◌++◌, Option, true, none, some, All, if◌then◌else◌, ◌∙◌,
}
use proxydeck.Prelude.Int.{pos}
use proxydeck.Errors.{Error, Result, ok, err, record_not_found}
use proxydeck.Strings.{is_empty, Text, lit, text_eq, text_eq_refl}
use proxydeck.Model.{User, admin_uid_prefix}
use proxydeck.Redis.{Err}
use proxydeck.Subscription.Value.{Fields, end, field, text, get}
use proxydeck.Admin.Sessions.{SessionStore, session_key, login, logout, require_admin}
use proxydeck.Admin.Sessions.Guard.{login-guard}
use proxydeck.Admin.Users.{UserTable, CreateUser, create_user}
use proxydeck.Admin.Users.Valid.{IsValid, create_user-IsValid}
use proxydeck.Nodes.Reference.{as_result, as_result-ok}
use proxydeck.Tests.{alice}

abbrev Sessions : Type 0
Sessions = Text → Option Text

abbrev assign : Sessions → Text → Option Text → Sessions
assign s k v j = if text_eq j k then v else s j

assigned :
    (s t : Sessions) (k : Text) (v : Option Text)
    → ◌≡◌ {A = Err × Sessions} (none, assign s k v) (none, t)
    → t k ≡ v
assigned s t k v h = sym (ap (λ (p : Err × Sessions). p.1 k) h) ∙ rw (text_eq_refl k) refl

-- Sessions on which every command succeeds; one token, one administrator.
abbrev sessions : SessionStore
sessions = record {
  State = Sessions;
  value = λ s. s;
  ttl = pos 0;
  get = λ k s. as_result (s k);
  set = λ k v d s. (none, assign s k (some v));
  del = λ k s. (none, assign s k none);
  new_token = λ s. (lit "token", s);
  find_user = λ uid s. ok alice;
  check_password = λ hash password. none;
  count_login = λ s. s;
  get_ok = λ k s v h. as_result-ok (s k) v h;
  set_ok = λ k v d s t h. assigned s t k (some v) h;
  del_ok = λ k s t h. assigned s t k none h;
  count_login_ok = λ s. refl;
}

reads : (s : Sessions) (k v : Text) → s k ≡ some v → as_result (s k) ≡ ok v
reads s k v h = rw h refl

abbrev logged : Sessions
logged = (login sessions (pos 0) (ok (lit "root", lit "secret")) (λ k. none)).1

-- another session
abbrev later : Sessions
later = assign logged (lit "other") none

login-guard_example :
    (row : User) × (sessions.find_user (admin_uid_prefix ++ lit "root") (λ k. none) ≡ ok row)
    × (sessions.check_password row.password_hash (lit "secret") ≡ none)
    × (require_admin sessions (ok (lit "token")) later ≡ some (lit "root"))
    × (require_admin sessions (ok (lit "token")) (logout sessions (ok (lit "token")) later).1
        ≡ none)
unfolding is_empty login session_key text_eq
login-guard_example =
    login-guard sessions reads (λ s k. refl) (λ s. refl) (pos 0) (lit "root") (lit "secret")
      (lit "token") (λ k. none) later later refl refl refl refl

created :
    (u v : User) (s t : List User)
    → ◌≡◌ {A = Result User × List User}
        (ok (record u { id = 9; enabled = true }), s ++ (record u { id = 9; enabled = true } ∷ []))
        (ok v, t)
    → (v ≡ record u { id = v.id; enabled = true }) × (t ≡ s ++ (v ∷ []))
created u v s t h =
    let e : v ≡ record u { id = 9; enabled = true } =
      ok-user _ v (ap (λ (p : Result User × List User). p.0) h) in
    let g : t ≡ s ++ (record u { id = 9; enabled = true } ∷ []) =
      sym (ap (λ (p : Result User × List User). p.1) h) in
    rw (e, g) (refl, refl)
  where
    ok-user : (a b : User) → ◌≡◌ {A = Result User} (ok a) (ok b) → b ≡ a
    ok-user a b k = cc

not_refused :
    (u : User) (e : Error) (s t : List User)
    → ◌≡◌ {A = Result User × List User}
        (ok (record u { id = 9; enabled = true }), s ++ (record u { id = 9; enabled = true } ∷ []))
        (err e, t)
    → t ≡ s
not_refused u e s t h =
    let q : ◌≡◌ {A = Result User} (ok (record u { id = 9; enabled = true })) (err e) =
      ap (λ (p : Result User × List User). p.0) h in
    cc

-- A table that takes every user.
abbrev users : UserTable
users = record {
  State = List User;
  rows = λ s. s;
  first = λ id s. err record_not_found;
  create = λ u s.
      (ok (record u { id = 9; enabled = true }), s ++ (record u { id = 9; enabled = true } ∷ []));
  updates = λ u fs s. (none, s);
  delete = λ u s. (none, s);
  audit = λ a i d s. s;
  cleanup = λ uid s. s;
  concurrency = λ uid s. pos 0;
  hash_password = λ p. ok (lit "hash");
  create_ok = created;
  create_err = not_refused;
  audit_ok = λ a i d s. refl;
}

abbrev bob : CreateUser
bob = record {
  uid = lit " bob ";
  password = lit "secret";
  enabled = none;
  quota_bytes = pos 10;
  max_concurrency = pos 1;
  expired_at = none;
  remark = [];
}

alice-IsValid : IsValid alice
unfolding is_empty is_space trim_right
alice-IsValid = record { named = refl; trimmed = (refl, refl); quota = refl; limit = refl }

abbrev with_bob : List User
with_bob = (create_user users (ok bob) (alice ∷ [])).1

create_user-IsValid_example : All IsValid with_bob
create_user-IsValid_example = create_user-IsValid users (ok bob) (alice ∷ []) (alice-IsValid, tt)

abbrev change : Fields
change = field (lit "password") (text (lit "secret")) (field (lit "uid") (text (lit " bob ")) end)

abbrev stored : Fields
stored = field (lit "password_hash") (text (lit "hash")) (field (lit "uid") (text (lit "bob")) end)
