-- ===== src/Fetch.antt =====
-- What the client of net/http answers to a request, as subscription/service.go and
-- healthcheck/service.go read it.
use proxydeck.Prelude.{ℕ}
use proxydeck.Strings.{Text}
use proxydeck.Redis.{Err}

pub record Response : Type 0 where
  pub status_code : ℕ
  pub status : Text
  -- what io.ReadAll returns
  pub body : Text
  pub read_error : Err
