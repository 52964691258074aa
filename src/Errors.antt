-- ===== src/Errors.antt =====
-- The errors that the backend's packages return, and results that may be errors.
-- `message` is an error that the source makes from a text; `foreign` is one that a library returns.
use proxydeck.Strings.{Text}

pub data Error : Type 0 where
  user_disabled user_expired quota_exceeded concurrency_exceeded : Error
  no_healthy_node record_not_found missing_auth : Error
  message : Text → Error
  foreign : Text → Error

pub data Result {ℓ} (A : Type ℓ) : Type ℓ where
  ok : A → Result A
  err : Error → Result A
