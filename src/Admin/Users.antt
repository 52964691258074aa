-- ===== src/Admin/Users.antt =====
-- `createUser`, `getUser`, `updateUser`, `deleteUser`, `listUsers`, `managedUserByID` and
-- `userPayload` of adminapi/server.go. The table of users, bcrypt and the quota service are an
-- interface.
pub mod Valid
pub mod Updates
use proxydeck.Prelude.{
  ℕ, ◌≡◌, Bool, true, false, not, ◌&&◌, List, [], ◌∷◌, ◌++◌, map, Option, none, some, ltb,
  if◌then◌else◌, filter,
}
use proxydeck.Prelude.Int.{ℤ, pos, ltb_ℤ}
use proxydeck.Errors.{Error, Result, ok, err, message, record_not_found}
use proxydeck.Strings.{Text, lit, text_eq, is_empty}
use proxydeck.Strings.Space.{trim_space}
use proxydeck.Strings.Split.{has_prefix}
use proxydeck.Strings.Number.{format_uint}
use proxydeck.Model.{User, admin_uid_prefix}
use proxydeck.Redis.{Err}
use proxydeck.Subscription.Value.{Value, Fields, text, get}
use proxydeck.Admin.{Reply, reply, fail, done, user_row, user_view}
use proxydeck.Admin.Columns.{put, without, as_text, read_int64, byte_length}

pub record UserTable : Type 1 where
  pub State : Type 0
  pub rows : State → List User
  -- First by the path's id; Create; Updates with a map; Delete
  pub first : Text → State → Result User
  pub create : User → State → Result User × State
  pub updates : User → Fields → State → Err × State
  pub delete : User → State → Err × State
  -- the audit log; CleanupUserRuntime and CurrentConcurrency of the quota service; bcrypt
  pub audit : Text → Text → Text → State → State
  pub cleanup : Text → State → State
  pub concurrency : Text → State → ℤ
  pub hash_password : Text → Result Text
  -- `enabled` has the default true, which GORM stores in place of a false
  pub create_ok :
      (u v : User) (s t : State)
      → create u s ≡ (ok v, t)
      → (v ≡ record u { id = v.id; enabled = true }) × (rows t ≡ rows s ++ (v ∷ []))
  pub create_err : (u : User) (e : Error) (s t : State) → create u s ≡ (err e, t) → rows t ≡ rows s
  pub audit_ok : (a i d : Text) (s : State) → rows (audit a i d s) ≡ rows s

pub record CreateUser : Type 0 where
  pub uid : Text
  pub password : Text
  pub enabled : Option Bool
  pub quota_bytes : ℤ
  pub max_concurrency : ℤ
  pub expired_at : Option ℤ
  pub remark : Text

abbrev pub or_true : Option Bool → Bool
or_true none = true
or_true (some b) = b

unfoldable pub new_user : CreateUser → Text → User
new_user req hash = record {
  id = 0;
  uid = trim_space req.uid;
  password_hash = hash;
  enabled = or_true req.enabled;
  quota_bytes = req.quota_bytes;
  used_bytes = pos 0;
  total_requests = pos 0;
  max_concurrency = req.max_concurrency;
  expired_at = req.expired_at;
  remark = req.remark;
}

unfoldable pub is_reserved : Text → Bool
is_reserved uid = has_prefix uid admin_uid_prefix

abbrev pub reserved_uid : Error
reserved_uid = message (lit "uid uses reserved admin prefix")

abbrev pub negative : ℤ → Bool
negative n = ltb_ℤ n (pos 0)

-- The guards of `updateUser`, on `req["uid"]`, the two numbers and `req["password"]`.
abbrev pub update_uid : Option Text → Fields → Result Fields
update_uid none fs = ok fs
update_uid (some uid) fs =
    if is_reserved uid
    then err reserved_uid
    else if is_empty (trim_space uid)
    then err (message (lit "uid is required"))
    else ok (put (lit "uid") (text (trim_space uid)) fs)

abbrev pub refuse_negative : Option ℤ → Text → Result Fields → Result Fields
refuse_negative n why (err e) = err e
refuse_negative none why (ok fs) = ok fs
refuse_negative (some n) why (ok fs) = if negative n then err (message why) else ok fs

-- `hash, _ := auth.HashPassword(password)`
abbrev pub or_blank : Result Text → Text
or_blank (err e) = []
or_blank (ok hash) = hash

abbrev pub replace_password : (Text → Result Text) → Option Text → Result Fields → Result Fields
replace_password hash p (err e) = err e
replace_password hash none (ok fs) = ok fs
replace_password hash (some password) (ok fs) =
    if is_empty password
    then ok fs
    else if ltb (byte_length password) 6
    then err (message (lit "password must be at least 6 characters"))
    else ok
        (without (lit "password") (put (lit "password_hash") (text (or_blank (hash password))) fs))

unfoldable pub check_update : (Text → Result Text) → Fields → Result Fields
unfolding is_reserved
check_update hash fs = replace_password hash (as_text (get fs (lit "password"))) (
    refuse_negative (read_int64 (get fs (lit "max_concurrency")))
      (lit "max_concurrency must be >= 0")
      (refuse_negative (read_int64 (get fs (lit "quota_bytes"))) (lit "quota_bytes must be >= 0")
        (update_uid (as_text (get fs (lit "uid"))) fs)))

module _ (x : UserTable) where
  open x use {State}

  abbrev pub managed : Result User → Result User
  managed (err e) = err e
  managed (ok u) = if is_reserved u.uid then err record_not_found else ok u

  unfoldable pub managed_user_by_id : Text → State → Result User
  unfolding is_reserved
  managed_user_by_id id s = managed (x.first id s)

  abbrev pub created : Result User × State → Reply × State
  created (err e, s) = (fail 400 e, s)
  created (ok u, s) =
      (reply 200 (user_row u), x.audit (lit "create_user") (format_uint u.id) u.uid s)

  abbrev pub create_hashed : CreateUser → Result Text → State → Reply × State
  create_hashed req (err e) s = (fail 500 e, s)
  create_hashed req (ok hash) s = created (x.create (new_user req hash) s)

  unfoldable pub create_user : Result CreateUser → State → Reply × State
  unfolding new_user is_reserved
  create_user (err e) s = (fail 400 e, s)
  create_user (ok req) s =
      if is_reserved req.uid
      then (fail 400 reserved_uid, s)
      else if is_empty (trim_space req.uid)
      then (fail 400 (message (lit "uid is required")), s)
      else if negative req.quota_bytes
      then (fail 400 (message (lit "quota_bytes must be >= 0")), s)
      else if negative req.max_concurrency
      then (fail 400 (message (lit "max_concurrency must be >= 0")), s)
      else create_hashed req (x.hash_password req.password) s

  -- `userPayload`, with the quota service
  abbrev pub user_payload : User → State → Reply
  user_payload u s = reply 200 (user_view u (x.concurrency u.uid s))

  abbrev pub with_user : Result User → (User → State → Reply × State) → State → Reply × State
  with_user (err e) k s = (fail 404 e, s)
  with_user (ok u) k s = k u s

  unfoldable pub get_user : Text → State → Reply × State
  unfolding managed_user_by_id
  get_user id s = with_user (managed_user_by_id id s) (λ u t. (user_payload u t, t)) s

  abbrev pub updated : Text → User → Err × State → Reply × State
  updated id u (some e, s) = (fail 400 e, s)
  updated id u (none, s) = (reply 200 done, x.audit (lit "update_user") id u.uid s)

  abbrev pub update_checked : Text → User → Result Fields → State → Reply × State
  update_checked id u (err e) s = (fail 400 e, s)
  update_checked id u (ok fs) s = updated id u (x.updates u fs s)

  abbrev pub update_bound : Text → User → Result Fields → State → Reply × State
  update_bound id u (err e) s = (fail 400 e, s)
  update_bound id u (ok fs) s = update_checked id u (check_update x.hash_password fs) s

  unfoldable pub update_user : Text → Result Fields → State → Reply × State
  unfolding managed_user_by_id check_update
  update_user id req s = with_user (managed_user_by_id id s) (λ u t. update_bound id u req t) s

  abbrev pub deleted : Text → User → Err × State → Reply × State
  deleted id u (some e, s) = (fail 400 e, s)
  deleted id u (none, s) = (reply 200 done, x.audit (lit "delete_user") id [] (x.cleanup u.uid s))

  unfoldable pub delete_user : Text → State → Reply × State
  unfolding managed_user_by_id
  delete_user id s = with_user (managed_user_by_id id s) (λ u t. deleted id u (x.delete u t)) s
