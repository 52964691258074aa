-- ===== src/Gateway/Access.antt =====
-- `writeProxyAccessError` and `isAuthFailure` of proxy/gateway.go, against each other.
use proxydeck.Prelude.{◌≡◌, ◌≢◌, refl, ◌⊎◌, inl, inr, Bool, true, false, arith}
use proxydeck.Errors.{
  Error, user_disabled, user_expired, quota_exceeded, concurrency_exceeded, no_healthy_node,
  record_not_found, missing_auth, message, foreign,
}
use proxydeck.Gateway.{Action, http_error, challenge, is_auth_failure, write_proxy_access_error}

-- The errors of the quota that forbid the access.
abbrev pub Forbids : Error → Type 0
Forbids e = (e ≡ quota_exceeded) ⊎ ((e ≡ user_disabled) ⊎ (e ≡ user_expired))

-- Which answer an error gets, and whether it counts as a failure of authentication.
abbrev pub Answered : Error → Action → Bool → Type 0
Answered e answer failure =
    (Forbids e × ((answer ≡ http_error 403 e) × (failure ≡ false)))
    ⊎ (((e ≡ concurrency_exceeded) × ((answer ≡ http_error 429 e) × (failure ≡ false)))
        ⊎ ((¬ Forbids e)
            × ((e ≢ concurrency_exceeded) × ((answer ≡ challenge 407 e) × (failure ≡ true)))))

-- An exceeded quota, a disabled user and an expired one are answered with 403, an exceeded number of
-- connections with 429, and neither counts as a failure of authentication; every other error asks for
-- credentials with 407 and counts as such a failure.
pub access_error-challenge :
    (e : Error) → Answered e (write_proxy_access_error e) (is_auth_failure e)
unfolding is_auth_failure write_proxy_access_error
access_error-challenge quota_exceeded = inl (inl refl, (refl, refl))
access_error-challenge user_disabled = inl (inr (inl refl), (refl, refl))
access_error-challenge user_expired = inl (inr (inr refl), (refl, refl))
access_error-challenge concurrency_exceeded = inr (inl (refl, (refl, refl)))
access_error-challenge no_healthy_node = inr (inr (ground arith, (λ h. cc, (refl, refl))))
access_error-challenge record_not_found = inr (inr (ground arith, (λ h. cc, (refl, refl))))
access_error-challenge missing_auth = inr (inr (ground arith, (λ h. cc, (refl, refl))))
access_error-challenge (message t) = inr (inr (ground arith, (λ h. cc, (refl, refl))))
access_error-challenge (foreign t) = inr (inr (ground arith, (λ h. cc, (refl, refl))))
