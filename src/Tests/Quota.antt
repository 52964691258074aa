-- ===== src/Tests/Quota.antt =====
-- The theorems on quota/service.go at concrete inputs.
use proxydeck.Prelude.{◌≡◌, refl, ◌↔◌, ◌⊎◌, inr, none, some, arith, if◌then◌else◌}
use proxydeck.Prelude.Int.{ℤ, pos, ◌+ℤ◌, ◌-ℤ◌, ◌≤ℤ◌, ◌<ℤ◌}
use proxydeck.Errors.{Result, ok, concurrency_exceeded}
use proxydeck.Strings.{Text, text_eq, lit}
use proxydeck.Model.{User}
use proxydeck.Redis.{Err, conn_key}
use proxydeck.Redis.Reference.{Counters, reference, update}
use proxydeck.Quota.{acquire, over_limit, release, authenticate, user_pending_usage}
use proxydeck.Quota.Counting.{acquire_decides}
use proxydeck.Quota.Effect.{acquire_effect, release_effect}
use proxydeck.Quota.Admission.{IsAdmitted, authenticate_iff}
use proxydeck.Quota.Schedule.{
  Requests, Reach, WholeReach, WholeStep, IsCounted, WholeReach-IsCounted,
}
use proxydeck.Quota.Race.{empty, release_race}
use proxydeck.Tests.{alice, idle}

abbrev key : Text
key = conn_key alice.uid

-- The store with a count of connections of the user.
abbrev busy : ℤ → Counters
busy n = update idle key n

release_race_example :
    (v : Requests reference alice) × Reach reference alice (empty alice 1 refl) v
    × (v.admitted ≡ 4)
    × (pos 2 <ℤ pos v.admitted)
release_race_example = release_race alice 1 refl

acquire_effect_example :
    ((j : Text)
      → update (busy (pos 1)) key (pos 2) j ≡ (if text_eq j key then pos 2 else busy (pos 1) j))
    × ((pos 2 ≤ℤ pos 0) ⊎ (update (busy (pos 1)) key (pos 2) key ≤ℤ pos 2))
unfolding acquire over_limit ◌+ℤ◌ text_eq conn_key
acquire_effect_example =
    acquire_effect reference alice (busy (pos 1)) (update (busy (pos 1)) key (pos 2)) refl

-- The user has both connections already: the third is counted, refused and taken back.
acquire_decides_example :
    ((pos 0 <ℤ pos 2)
      × (pos 2 ≤ℤ busy (pos 2) key)
      × (acquire reference alice (busy (pos 2))
          ≡ (some concurrency_exceeded, update (update (busy (pos 2)) key (pos 3)) key (pos 2)))
      × ((j : Text) → update (update (busy (pos 2)) key (pos 3)) key (pos 2) j ≡ busy (pos 2) j))
    ⊎ (((pos 2 ≤ℤ pos 0) ⊎ (busy (pos 2) key <ℤ pos 2))
        × (acquire reference alice (busy (pos 2)) ≡ (none, update (busy (pos 2)) key (pos 3))))
unfolding ◌+ℤ◌ ◌-ℤ◌ text_eq conn_key
acquire_decides_example =
    acquire_decides reference alice (busy (pos 2)) (pos 3) (update (busy (pos 2)) key (pos 3))
      (update (update (busy (pos 2)) key (pos 3)) key (pos 2)) refl refl

release_effect_example : release reference alice.uid (busy (pos 2)) key ≡ pos 1
unfolding ◌-ℤ◌ text_eq conn_key
release_effect_example =
    release_effect reference alice.uid (busy (pos 2)) (pos 2) refl (λ k u. refl) (λ k u. refl) key

abbrev nobody : Requests reference alice
nobody = record { store = idle; admitted = 0; refused = 0; deleting = 0; decreasing = 0 }

abbrev somebody : Requests reference alice
somebody = record nobody { store = busy (pos 1); admitted = 1 }

nobody-IsCounted : IsCounted reference alice nobody
nobody-IsCounted = record { counted = refl; within = inr (omega arith) }

somebody-WholeReach : WholeReach reference alice nobody somebody
unfolding over_limit ◌+ℤ◌
somebody-WholeReach =
    WholeReach.next WholeReach.here (WholeStep.admit (pos 1) (busy (pos 1)) refl refl refl)

WholeReach-IsCounted_example : IsCounted reference alice somebody
WholeReach-IsCounted_example =
    WholeReach-IsCounted reference alice (λ s h. (s key, refl)) (λ s. (_, _, refl)) (λ k s. refl)
      (λ k s. refl) nobody-IsCounted somebody-WholeReach

abbrev find : Text → Result User
find uid = ok alice

abbrev check : Text → Text → Err
check hash password = none

authenticate_iff_example :
    (authenticate reference find check (lit "alice") (lit "secret") (pos 5) idle ≡ ok alice) ↔ (
      (find (lit "alice") ≡ ok alice)
      × IsAdmitted alice
          (pos 5)
          (check alice.password_hash (lit "secret"))
          (user_pending_usage reference alice.uid idle))
authenticate_iff_example =
    authenticate_iff reference find check (lit "alice") (lit "secret") (pos 5) idle alice
