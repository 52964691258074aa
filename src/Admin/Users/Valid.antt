-- ===== src/Admin/Users/Valid.antt =====
-- The users that `createUser` of adminapi/server.go stores.
use mathlib.Core.Path.{subst}
use proxydeck.Prelude.{
  ℕ, ◌≡◌, refl, sym, true, false, [], ◌∷◌, All, All-append, Bool-cases, inl, inr,
}
use proxydeck.Errors.{Result, ok, err}
use proxydeck.Strings.{Text, is_empty}
use proxydeck.Strings.Space.{trim_space, IsTrimmed, trim_space-IsTrimmed}
use proxydeck.Model.{User}
use proxydeck.Admin.Users.{
  UserTable, CreateUser, new_user, negative, create_user, create_hashed, created, is_reserved,
}

-- A user with a trimmed id that is not empty, and with a quota and a limit that are not negative.
pub record IsValid (u : User) : Type 0 where
  pub named : is_empty u.uid ≡ false
  pub trimmed : IsTrimmed u.uid
  pub quota : negative u.quota_bytes ≡ false
  pub limit : negative u.max_concurrency ≡ false

module _ (x : UserTable) where
  open x use {State}

  new_user-IsValid :
      (req : CreateUser) (hash : Text) (id : ℕ)
      → is_empty (trim_space req.uid) ≡ false
      → negative req.quota_bytes ≡ false
      → negative req.max_concurrency ≡ false
      → IsValid (record (new_user req hash) { id = id; enabled = true })
  unfolding new_user
  new_user-IsValid req hash id a b c = record {
    named = a;
    trimmed = trim_space-IsTrimmed req.uid;
    quota = b;
    limit = c;
  }

  created-IsValid :
      (u : User) (s : State) (p : Result User × State)
      → ((id : ℕ) → IsValid (record u { id = id; enabled = true }))
      → x.create u s ≡ p
      → All IsValid (x.rows s)
      → All IsValid (x.rows (created x p).1)
  created-IsValid u s (err e, t) v q h = rw (x.create_err u e s t q) h
  created-IsValid u s (ok w, t) v q h =
      let (a, b) = x.create_ok u w s t q in
      rw (x.audit_ok _ _ _ t, b)
        (All-append IsValid (x.rows s) (w ∷ []) h (subst IsValid (sym a) (v w.id), tt))

  hashed-IsValid :
      (req : CreateUser) (res : Result Text) (s : State)
      → ((hash : Text) (id : ℕ) → IsValid (record (new_user req hash) { id = id; enabled = true }))
      → All IsValid (x.rows s)
      → All IsValid (x.rows (create_hashed x req res s).1)
  hashed-IsValid req (err e) s v h = h
  hashed-IsValid req (ok hash) s v h = created-IsValid (new_user req hash) s _ (v hash) refl h

  -- Whatever the request, and whether it succeeds or not, createUser leaves a table in which every
  -- user has a trimmed id that is not empty, and a quota and a limit that are not negative, if every
  -- user had before.
  pub create_user-IsValid :
      (req : Result CreateUser) (s : State)
      → All IsValid (x.rows s)
      → All IsValid (x.rows (create_user x req s).1)
  unfolding create_user
  create_user-IsValid (err e) s h = h
  create_user-IsValid (ok req) s h = elim (Bool-cases (is_reserved req.uid)) [
    | inl a ↦ rw a h
    | inr a ↦ elim (Bool-cases (is_empty (trim_space req.uid))) [
      | inl b ↦ rw (a, b) h
      | inr b ↦ elim (Bool-cases (negative req.quota_bytes)) [
        | inl c ↦ rw (a, b, c) h
        | inr c ↦ elim (Bool-cases (negative req.max_concurrency)) [
          | inl e ↦ rw (a, b, c, e) h
          | inr e ↦
              rw (a, b, c, e)
                (hashed-IsValid req _ s (λ hash id. new_user-IsValid req hash id b c e) h)
        ]
      ]
    ]
  ]
