-- ===== src/Quota/Counting.antt =====
-- What `Acquire` and `Release` do to the counters of connections.
use mathlib.Core.Path.{subst}
use proxydeck.Prelude.{
  ◌≡◌, refl, sym, ap, ◌∙◌, true, false, ◌⊎◌, inl, inr, [], ◌∷◌, none, some, arith, Bool-cases,
  if◌then◌else◌,
}
use proxydeck.Prelude.Int.{ℤ, pos, ◌+ℤ◌, ◌-ℤ◌, ◌≤ℤ◌, ◌<ℤ◌, leb_ℤ}
use proxydeck.Errors.{Result, ok, err, concurrency_exceeded}
use proxydeck.Strings.{Text, text_eq, text_eq-eq, text_eq_refl}
use proxydeck.Model.{User}
use proxydeck.Redis.{Redis, Err, conn_key}
use proxydeck.Quota.{acquire, after_incr, over_limit, release, drops_key}

below :
    (user : User) (a : ℤ)
    → over_limit user (a +ℤ pos 1) ≡ false
    → (user.max_concurrency ≤ℤ pos 0) ⊎ (a <ℤ user.max_concurrency)
unfolding over_limit ◌+ℤ◌
below user a h = ground arith

pub bounded : (limit n : ℤ) → (pos 0 <ℤ limit → n ≤ℤ limit) → (limit ≤ℤ pos 0) ⊎ (n ≤ℤ limit)
bounded limit n h = ground arith

module _ (r : Redis) where
  open r use {State, counter}

  pub within_limit :
      (user : User) (n : ℤ)
      → over_limit user n ≡ false
      → pos 0 <ℤ user.max_concurrency
      → n ≤ℤ user.max_concurrency
  unfolding over_limit
  within_limit user n h k = ground arith

  room :
      (user : User) (s : State) (n : ℤ)
      → n ≡ counter s (conn_key user.uid) +ℤ pos 1
      → over_limit user n ≡ false
      → (user.max_concurrency ≤ℤ pos 0) ⊎ (counter s (conn_key user.uid) <ℤ user.max_concurrency)
  room user s n e fits = below _ _ (subst (λ m. over_limit user m ≡ false) e fits)

  Granted : User → State → State → Type 0
  Granted user s t =
      (counter t (conn_key user.uid) ≡ counter s (conn_key user.uid) +ℤ pos 1)
      × ((j : Text) → text_eq j (conn_key user.uid) ≡ false → counter t j ≡ counter s j)
      × (pos 0 <ℤ user.max_concurrency → counter t (conn_key user.uid) ≤ℤ user.max_concurrency)

  pub incr_counters :
      (k : Text) (s : State) (n : ℤ) (t : State)
      → r.incr k s ≡ (ok n, t)
      → (n ≡ counter t k)
        × (counter t k ≡ counter s k +ℤ pos 1)
        × ((j : Text) → text_eq j k ≡ false → counter t j ≡ counter s j)
  incr_counters k s n t h =
      let law = r.incr_ok k s n t h in
      let self : counter t k ≡ counter s k +ℤ pos 1 = law.1 k ∙ rw (text_eq_refl k) in
      (law.0 ∙ sym self, self, λ j ne. law.1 j ∙ rw ne)

  Granted-from :
      (user : User) (s : State) (n : ℤ) (u : State)
      → r.incr (conn_key user.uid) s ≡ (ok n, u)
      → over_limit user n ≡ false
      → Granted user s u
  unfolding Granted
  Granted-from user s n u h fits =
      let law = incr_counters _ s n u h in
      (
        law.1,
        law.2,
        λ limited. subst (λ m. m ≤ℤ user.max_concurrency) law.0 (within_limit user n fits limited),
      )

  after_incr-Granted :
      (user : User) (s t : State) (res : Result ℤ × State)
      → r.incr (conn_key user.uid) s ≡ res
      → after_incr r user res ≡ (none, t)
      → Granted user s t
  after_incr-Granted user s t (err e, u) i h = cc
  after_incr-Granted user s t (ok n, u) i h = elim (Bool-cases (over_limit user n)) [
    | inl over ↦
        let h' : ◌≡◌ {A = Err × State} (some concurrency_exceeded, (r.decr (conn_key user.uid) u).1)
            (none, t) =
          rw over at h in
        cc
    | inr fits ↦
        let h' : ◌≡◌ {A = Err × State} (none, u) (none, t) = rw fits at h in
        subst (Granted user s) (ap (λ (p : Err × State). p.1) h') (Granted-from user s n u i fits)
  ]

  -- Where `Acquire` grants a connection, the user's counter has gone up by one, no other counter has
  -- changed, and the count is within the user's limit if there is one.
  pub acquire_granted :
      (user : User) (s t : State)
      → acquire r user s ≡ (none, t)
      → (counter t (conn_key user.uid) ≡ counter s (conn_key user.uid) +ℤ pos 1)
        × ((j : Text) → text_eq j (conn_key user.uid) ≡ false → counter t j ≡ counter s j)
        × (pos 0 <ℤ user.max_concurrency → counter t (conn_key user.uid) ≤ℤ user.max_concurrency)
  unfolding acquire Granted
  acquire_granted user s t h = after_incr-Granted user s t _ refl h

  over_limit-lt :
      (user : User) (n : ℤ)
      → over_limit user n ≡ true
      → (pos 0 <ℤ user.max_concurrency) × (user.max_concurrency <ℤ n)
  unfolding over_limit
  over_limit-lt user n h = ground arith

  plus_one_minus_one : (a : ℤ) → a +ℤ pos 1 -ℤ pos 1 ≡ a
  unfolding ◌+ℤ◌ ◌-ℤ◌
  plus_one_minus_one a = ground arith

  le_of_lt_succ : (m a : ℤ) → m <ℤ (a +ℤ pos 1) → m ≤ℤ a
  unfolding ◌+ℤ◌
  le_of_lt_succ m a h = ground arith

  -- a decrement takes the increment back
  undone :
      (k : Text) (s : State) (n : ℤ) (u t : State)
      → r.incr k s ≡ (ok n, u)
      → r.decr k u ≡ (none, t)
      → (j : Text) → counter t j ≡ counter s j
  undone k s n u t i e j =
      let law = incr_counters k s n u i in
      elim (Bool-cases (text_eq j k)) [
        | inl same ↦ rw (text_eq-eq j k same) (
            r.decr_ok k u t e k ∙ rw (text_eq_refl k) (rw law.1 (plus_one_minus_one (counter s k))))
        | inr other ↦ r.decr_ok k u t e j ∙ rw other (law.2 j other)
      ]

  -- Where the commands succeed, `Acquire` refuses exactly a user who has a limit and as many
  -- connections already; a refusal leaves every counter as it was.
  pub acquire_decides :
      (user : User) (s : State) (n : ℤ) (u t : State)
      → r.incr (conn_key user.uid) s ≡ (ok n, u)
      → r.decr (conn_key user.uid) u ≡ (none, t)
      → ((pos 0 <ℤ user.max_concurrency)
          × (user.max_concurrency ≤ℤ counter s (conn_key user.uid))
          × (acquire r user s ≡ (some concurrency_exceeded, t))
          × ((j : Text) → counter t j ≡ counter s j))
        ⊎ (((user.max_concurrency ≤ℤ pos 0)
              ⊎ (counter s (conn_key user.uid) <ℤ user.max_concurrency))
            × (acquire r user s ≡ (none, u)))
  unfolding acquire
  acquire_decides user s n u t i e = elim (Bool-cases (over_limit user n)) [
    | inl over ↦
        let lt = over_limit-lt user n over in
        inl (
          lt.0,
          le_of_lt_succ _ _ (subst (λ m. user.max_concurrency <ℤ m) (r.incr_ok _ s n u i).0 lt.1),
          rw (i, over, e),
          undone _ s n u t i e,
        )
    | inr fits ↦ inr (room user s n (r.incr_ok _ s n u i).0 fits, rw (i, fits))
  ]

  -- What `Release` leaves of a count, where its commands succeed: one less, and never below zero.
  pub release_counts :
      (uid : Text) (s : State) (n : ℤ)
      → r.get (conn_key uid) s ≡ ok n
      → ((k : Text) (u : State) → (r.del (k ∷ []) u).0 ≡ none)
      → ((k : Text) (u : State) → (r.decr k u).0 ≡ none)
      → (counter (release r uid s) (conn_key uid) ≡ (if leb_ℤ n (pos 1) then pos 0 else n -ℤ pos 1))
        × ((j : Text)
            → text_eq j (conn_key uid) ≡ false
            → counter (release r uid s) j ≡ counter s j)
  unfolding release
  release_counts uid s n g del_works decr_works = elim (Bool-cases (leb_ℤ n (pos 1))) [
    | inl last ↦
        let law =
          r.del_ok _ s _ (λ i. (del_works (conn_key uid) s i, (r.del (conn_key uid ∷ []) s).1)) in
        rw (g, drops_key, last)
          (law (conn_key uid) ∙ rw (text_eq_refl (conn_key uid)), λ j ne. law j ∙ rw ne)
    | inr more ↦
        let law =
          r.decr_ok _ s _ (λ i. (decr_works (conn_key uid) s i, (r.decr (conn_key uid) s).1)) in
        rw (g, drops_key, more)
          (
            law (conn_key uid) ∙ rw (text_eq_refl (conn_key uid)) (rw (r.get_ok _ s n g)),
            λ j ne. law j ∙ rw ne,
          )
  ]
