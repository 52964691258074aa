-- ===== src/Quota/Effect.antt =====
-- What `Acquire` and `Release` do to every counter at once.
use proxydeck.Prelude.{◌≡◌, ap, ◌∙◌, false, ◌⊎◌, inl, inr, [], ◌∷◌, none, Bool-cases, if◌then◌else◌}
use proxydeck.Prelude.Int.{ℤ, pos, ◌+ℤ◌, ◌-ℤ◌, ◌≤ℤ◌, leb_ℤ}
use proxydeck.Errors.{ok}
use proxydeck.Strings.{Text, text_eq, text_eq-eq}
use proxydeck.Model.{User}
use proxydeck.Redis.{Redis, conn_key}
use proxydeck.Quota.{acquire, release}
use proxydeck.Quota.Counting.{bounded, acquire_granted, release_counts}

module _ (r : Redis) where
  open r use {State, counter}

  written :
      (s t : State) (k : Text) (n : ℤ)
      → counter t k ≡ n
      → ((j : Text) → text_eq j k ≡ false → counter t j ≡ counter s j)
      → (j : Text) → counter t j ≡ (if text_eq j k then n else counter s j)
  written s t k n h others j = elim (Bool-cases (text_eq j k)) [
    | inl same ↦ rw same (ap (counter t) (text_eq-eq j k same) ∙ h)
    | inr other ↦ rw other (others j other)
  ]

  -- Where `Acquire` grants a connection, the user's counter has gone up by one and no other counter
  -- has changed; the user has no limit, or the count is within it.
  pub acquire_effect :
      (user : User) (s t : State)
      → acquire r user s ≡ (none, t)
      → ((j : Text)
          → counter t j ≡ (
              if text_eq j (conn_key user.uid)
              then counter s (conn_key user.uid) +ℤ pos 1
              else counter s j))
        × ((user.max_concurrency ≤ℤ pos 0)
            ⊎ (counter t (conn_key user.uid) ≤ℤ user.max_concurrency))
  acquire_effect user s t h =
      let granted = acquire_granted r user s t h in
      (
        written s t (conn_key user.uid) _ granted.0 granted.1,
        bounded user.max_concurrency (counter t (conn_key user.uid)) granted.2,
      )

  -- Where its commands succeed, `Release` takes one from the user's counter, but leaves zero of a
  -- count of one or less, and changes no other counter.
  pub release_effect :
      (uid : Text) (s : State) (n : ℤ)
      → r.get (conn_key uid) s ≡ ok n
      → ((k : Text) (u : State) → (r.del (k ∷ []) u).0 ≡ none)
      → ((k : Text) (u : State) → (r.decr k u).0 ≡ none)
      → (j : Text)
      → counter (release r uid s) j ≡ (
          if text_eq j (conn_key uid)
          then (if leb_ℤ n (pos 1) then pos 0 else n -ℤ pos 1)
          else counter s j)
  release_effect uid s n g del_works decr_works =
      let left = release_counts r uid s n g del_works decr_works in
      written s (release r uid s) (conn_key uid) _ left.0 left.1
