-- ===== src/Auth.antt =====
-- backend/internal/auth/auth.go: `Encrypt`, `Decrypt` and `EnsureDefaultAdmin`. AES-GCM, base64, bcrypt
-- and the table of users are parameters; a text is its bytes here.
pub mod RoundTrip
use proxydeck.Prelude.{
  ℕ, ◌≡◌, ◌≢◌, refl, sym, ap, ◌∙◌, ◌<◌, ltb, Bool, true, false, List, [], ◌∷◌, ◌++◌, Option, none,
  some, length, drop, drop_append, length-append, arith, if◌then◌else◌,
}
use proxydeck.Prelude.Int.{ℤ, pos}
use proxydeck.Errors.{Error, Result, ok, err, message}
use proxydeck.Strings.{Text, lit, is_empty}
use proxydeck.Redis.{Err}
use proxydeck.Model.{User, admin_uid_prefix}
use proxydeck.Stats.Flush.{take}

pub record Aead : Type 0 where
  pub nonce_size : ℕ
  pub seal : Text → Text → Text
  pub open_sealed : Text → Text → Result Text
  pub encode : Text → Text
  pub decode : Text → Result Text

abbrev pub opened : Aead → Text → Result Text
opened a raw =
    if ltb (length raw) a.nonce_size
    then err (message (lit "invalid ciphertext"))
    else a.open_sealed (take a.nonce_size raw) (drop a.nonce_size raw)

abbrev pub decoded : Aead → Result Text → Result Text
decoded a (err e) = err e
decoded a (ok raw) = opened a raw

-- `Encrypt`, with the nonce that the random source gives
abbrev pub sealed : Aead → Text → Result Text → Result Text
sealed a raw (err e) = err e
sealed a raw (ok nonce) = ok (a.encode (nonce ++ a.seal nonce raw))

unfoldable pub encrypt : Aead → Result Text → Text → Result Text
encrypt a nonce raw = if is_empty raw then ok [] else sealed a raw nonce

unfoldable pub decrypt : Aead → Text → Result Text
decrypt a enc = if is_empty enc then ok [] else decoded a (a.decode enc)

-- The table of users of `EnsureDefaultAdmin`: how many have a uid, and the insertion of one.
pub record Admins : Type 1 where
  pub State : Type 0
  pub count : Text → State → Result ℕ
  pub create : User → State → Err × State
  pub hash_password : Text → Result Text

unfoldable pub admin_user : Text → Text → User
admin_user username hash = record {
  id = 0;
  uid = admin_uid_prefix ++ username;
  password_hash = hash;
  enabled = true;
  quota_bytes = pos 0;
  used_bytes = pos 0;
  total_requests = pos 0;
  max_concurrency = pos 0;
  expired_at = none;
  remark = lit "bootstrap admin " ++ username;
}

module _ (x : Admins) where
  open x use {State}

  abbrev pub create_hashed : Text → Result Text → State → Err × State
  create_hashed username (err e) s = (some e, s)
  create_hashed username (ok hash) s = x.create (admin_user username hash) s

  abbrev pub create_unless : Text → Text → Result ℕ → State → Err × State
  create_unless username password (err e) s = (some e, s)
  create_unless username password (ok count) s =
      if ltb 0 count then (none, s) else create_hashed username (x.hash_password password) s

  unfoldable pub ensure_default_admin : Text → Text → State → Err × State
  unfolding admin_user
  ensure_default_admin username password s =
      create_unless username password (x.count (admin_uid_prefix ++ username) s) s
