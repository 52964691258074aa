-- ===== src/Subscription/Due.antt =====
-- `subscriptionDue` of subscription/service.go. Instants and durations are in nanoseconds.
use proxydeck.Prelude.{
  ℕ, ◌≡◌, ◌↔◌, ◌+◌, ◌-◌, ◌*◌, ◌^◌, ◌<◌, ◌≤◌, Bool, true, false, not, ◌||◌, Option, none, some,
  arith, Bool-cases, inl, inr, if◌then◌else◌,
}
use proxydeck.Prelude.Int.{ℤ, pos, negsuc, ◌-ℤ◌, leb_ℤ, wrap64, wrap64_id}
use proxydeck.Model.{Subscription}

-- now.Sub, which stops at the bounds of `int64`
unfoldable pub time_sub : ℤ → ℤ → ℤ
time_sub a b =
    let c = a -ℤ b in
    if leb_ℤ (pos (2 ^ 63)) c
    then pos (2 ^ 63 - 1)
    else if leb_ℤ c (negsuc (2 ^ 63 - 1))
    then negsuc (2 ^ 63 - 1)
    else c

-- `time.Duration(seconds) * time.Second`
unfoldable pub seconds : ℤ → ℤ
seconds (pos n) = wrap64 (pos (n * 1000000000))
seconds (negsuc n) = wrap64 (negsuc (n * 1000000000 + 999999999))

abbrev pub due_since : Option ℤ → ℤ → ℤ → Bool
due_since none interval now = true
due_since (some last) interval now = leb_ℤ interval (time_sub now last)

unfoldable pub subscription_due : Subscription → ℤ → Bool
unfolding seconds time_sub
subscription_due sub now =
    if not sub.enabled || leb_ℤ sub.sync_interval_seconds (pos 0)
    then false
    else due_since sub.last_sync_at (seconds sub.sync_interval_seconds) now

seconds_fit : (n : ℕ) → n * 1000000000 < 2 ^ 63 → seconds (pos n) ≡ pos (n * 1000000000)
unfolding seconds
seconds_fit n h = wrap64_id (pos (n * 1000000000)) h (omega arith)

-- An interval has passed since `last`.
passed :
    (interval now last : ℕ)
    → interval < 2 ^ 63
    → now < 2 ^ 63
    → last < 2 ^ 63
    → 0 < interval
    → (leb_ℤ (pos interval) (time_sub (pos now) (pos last)) ≡ true) ↔ (last + interval ≤ now)
unfolding time_sub ◌-ℤ◌
passed interval now last h k l p = ground arith

-- Where the interval and the instants fit in the nanoseconds of `int64`, a subscription that was
-- synced is due exactly if it is enabled, has a positive interval, and was synced at least the
-- interval ago.
pub subscription_due_iff :
    (sub : Subscription) (n now last : ℕ)
    → sub.sync_interval_seconds ≡ pos n
    → sub.last_sync_at ≡ some (pos last)
    → n * 1000000000 < 2 ^ 63
    → now < 2 ^ 63
    → last < 2 ^ 63
    → (subscription_due sub (pos now) ≡ true)
      ↔ ((sub.enabled ≡ true) × (0 < n) × (last + n * 1000000000 ≤ now))
unfolding subscription_due
subscription_due_iff sub n now last e l h k j =
    rw (e, l, seconds_fit n h)
      (elim (Bool-cases (leb_ℤ (pos n) (pos 0))) [
        | inl z ↦ let m : n ≡ 0 = ground arith in rw m (ground arith)
        | inr z ↦
            let q = passed (n * 1000000000) now last h k j (ground arith) in
            rw z (ground (arith, q.0, q.1))
      ])
