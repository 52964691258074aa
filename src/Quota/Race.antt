-- ===== src/Quota/Race.antt =====
-- `Release` reads the counter and then deletes the key or decrements it. A command that comes between
-- the two is lost with the key, and the limit is passed.
use proxydeck.Prelude.{ℕ, zero, suc, ◌+◌, ◌*◌, ◌≤◌, ◌<◌, ◌≡◌, refl, ◌∙◌, ap, true, false, arith}
use proxydeck.Prelude.Int.{ℤ, pos, ◌+ℤ◌, ◌-ℤ◌, ◌<ℤ◌}
use proxydeck.Strings.{Text, text_eq_refl}
use proxydeck.Model.{User}
use proxydeck.Redis.{conn_key}
use proxydeck.Redis.Reference.{Counters, update, reference}
use proxydeck.Quota.{over_limit, drops_key}
use proxydeck.Quota.Schedule.{Requests, Step, Reach}

past_limit : (m a : ℕ) (limit : ℤ) → limit ≡ pos (suc m) → a ≡ 2 * suc m → limit <ℤ pos a
past_limit m a limit e h = ground arith

module _ (user : User) (m : ℕ) (limited : user.max_concurrency ≡ pos (suc m)) where
  abbrev k : Text
  k = conn_key user.uid

  abbrev Q : Type 0
  Q = Requests reference user

  abbrev R : Q → Q → Type 0
  R = Reach reference user

  fits : (n : ℕ) → n < suc m → over_limit user (pos n +ℤ pos 1) ≡ false
  unfolding over_limit ◌+ℤ◌
  fits n h = ground arith

  Reach-trans : {p q v : Q} → R p q → R q v → R p v
  Reach-trans a Reach.here = a
  Reach-trans a (Reach.next b st) = Reach.next (Reach-trans a b) st

  updated : (s : Counters) (n : ℤ) → update s k n k ≡ n
  updated s n = rw (text_eq_refl k)

  plus_one : (a : ℕ) → pos a +ℤ pos 1 ≡ pos (a + 1)
  unfolding ◌+ℤ◌
  plus_one a = ground arith

  -- The state after `n` more admissions, from a counter that shows `c`.
  record Admitted (n c : ℕ) (q v : Q) : Type 0 where
    steps : R q v
    count : v.store k ≡ pos (c + n)
    admitted : v.admitted ≡ q.admitted + n
    deleting : v.deleting ≡ q.deleting
    refused : v.refused ≡ q.refused

  admit_one : Q → Q
  admit_one q = record q {
    store = update q.store k (q.store k +ℤ pos 1);
    admitted = q.admitted + 1;
  }

  admit_one-Step :
      (c : ℕ) (q : Q) → q.store k ≡ pos c → c < suc m → Step reference user q (admit_one q)
  unfolding admit_one
  admit_one-Step c q e h =
      Step.admit (q.store k +ℤ pos 1) (update q.store k (q.store k +ℤ pos 1)) refl (rw e (fits c h))
        refl

  admit_one-count : (c : ℕ) (q : Q) → q.store k ≡ pos c → (admit_one q).store k ≡ pos (c + 1)
  unfolding admit_one
  admit_one-count c q e = updated q.store _ ∙ (ap (λ (n : ℤ). n +ℤ pos 1) e ∙ plus_one c)

  admit_many : ℕ → Q → Q
  admit_many zero q = q
  admit_many (suc n) q = admit_many n (admit_one q)

  -- A counter that shows `c` lets in as many requests as are missing to the limit.
  admit_many-Admitted :
      (n c : ℕ) (q : Q) → q.store k ≡ pos c → c + n ≤ suc m → Admitted n c q (admit_many n q)
  unfolding admit_many admit_one
  admit_many-Admitted zero c q e h = record {
    steps = Reach.here;
    count = e ∙ ap pos (omega arith);
    admitted = omega arith;
    deleting = refl;
    refused = refl;
  }
  admit_many-Admitted (suc n) c q e h =
      let rest =
        admit_many-Admitted n (c + 1) (admit_one q) (admit_one-count c q e) (omega arith) in
      record {
        steps = Reach-trans (Reach.next Reach.here (admit_one-Step c q e (omega arith))) rest.steps;
        count = rest.count ∙ ap pos (omega arith);
        admitted = omega (arith, rest.admitted);
        deleting = rest.deleting;
        refused = rest.refused;
      }

  abbrev pub empty : Q
  empty = record { store = λ j. pos 0; admitted = 0; refused = 0; deleting = 0; decreasing = 0 }

  -- one request comes, and begins its `Release`
  abbrev leaving : Q
  leaving = record (admit_one empty) { admitted = 0; deleting = 1 }

  leaving-count : leaving.store k ≡ pos 1
  leaving-count = admit_one-count 0 empty refl

  Reach-leaving : R empty leaving
  unfolding admit_one
  Reach-leaving = Reach.next (Reach.next Reach.here (admit_one-Step 0 empty refl (omega arith))) (
      Step.read_last 0 (leaving.store k) refl refl (rw leaving-count (unfold drops_key in refl))
        refl)

  -- as many others come as there is room for
  abbrev full : Q
  full = admit_many m leaving

  full-Admitted : Admitted m 1 leaving full
  full-Admitted = admit_many-Admitted m 1 leaving leaving-count (omega arith)

  -- one more is refused, and then the first deletes the key
  abbrev crossed : Q
  crossed = record full {
    store = update full.store k (full.store k +ℤ pos 1);
    refused = full.refused + 1;
  }

  abbrev deleted : Q
  deleted = record crossed { store = update crossed.store k (pos 0); deleting = 0 }

  over : over_limit user (full.store k +ℤ pos 1) ≡ true
  over = rw full-Admitted.count (unfold over_limit ◌+ℤ◌ in ground arith)

  Reach-deleted : R empty deleted
  Reach-deleted =
      Reach.next
        (Reach.next (Reach-trans Reach-leaving full-Admitted.steps)
          (Step.refuse (full.store k +ℤ pos 1) crossed.store refl over refl))
        (Step.delete 0 deleted.store full-Admitted.deleting refl refl)

  -- the limit is free again; then the refused request takes its increment back
  abbrev refilled : Q
  refilled = admit_many (suc m) deleted

  refilled-Admitted : Admitted (suc m) 0 deleted refilled
  refilled-Admitted =
      admit_many-Admitted (suc m) 0 deleted (updated crossed.store (pos 0)) (omega arith)

  abbrev lowered : Q
  lowered = record refilled {
    store = update refilled.store k (refilled.store k -ℤ pos 1);
    refused = 0;
  }

  refilled-refused : refilled.refused ≡ 1
  unfolding admit_one
  refilled-refused =
      omega (arith, refilled-Admitted.refused, full-Admitted.refused, leaving_refused)
    where
      leaving_refused : leaving.refused ≡ 0
      leaving_refused = refl

  lowered-count : lowered.store k ≡ pos m
  lowered-count =
      updated refilled.store _
      ∙ (ap (λ (n : ℤ). n -ℤ pos 1) refilled-Admitted.count ∙ unfold ◌-ℤ◌ in ground arith)

  Reach-lowered : R empty lowered
  Reach-lowered =
      Reach.next (Reach-trans Reach-deleted refilled-Admitted.steps)
        (Step.take_back 0 lowered.store refilled-refused refl refl)

  last-Admitted : Admitted 1 m lowered (admit_many 1 lowered)
  last-Admitted = admit_many-Admitted 1 m lowered lowered-count (omega arith)

  twice_limit : (admit_many 1 lowered).admitted ≡ 2 * suc m
  twice_limit =
      omega (arith, last-Admitted.admitted, refilled-Admitted.admitted, full-Admitted.admitted)

  -- For every user with a limit, commands of single requests, interleaved, lead from a store in which
  -- the user has no connection to a state in which twice as many requests as the limit allows hold a
  -- connection.
  pub release_race :
      (v : Requests reference user) × Reach reference user empty v
      × (v.admitted ≡ 2 * suc m)
      × (user.max_concurrency <ℤ pos v.admitted)
  release_race = (
    admit_many 1 lowered,
    Reach-trans Reach-lowered last-Admitted.steps,
    twice_limit,
    past_limit m _ _ limited twice_limit,
  )
