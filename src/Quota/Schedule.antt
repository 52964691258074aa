-- ===== src/Quota/Schedule.antt =====
-- The requests of one user as interleavings of their commands to Redis. A request that `Acquire` has
-- admitted holds a connection until it begins `Release`; one that it has refused still owes the
-- decrement. `Release` is two commands, a read and then a deletion or a decrement.
use mathlib.Core.Path.{subst}
use proxydeck.Prelude.{
  ℕ, suc, ◌+◌, ◌≡◌, refl, sym, ◌∙◌, ap, true, false, [], ◌∷◌, none, arith, ◌⊎◌, inl, inr,
  if◌then◌else◌,
}
use proxydeck.Prelude.Int.{ℤ, pos, ◌+ℤ◌, ◌-ℤ◌, ◌≤ℤ◌, ◌<ℤ◌, leb_ℤ}
use proxydeck.Errors.{Error, Result, ok, err}
use proxydeck.Strings.{Text, text_eq_refl}
use proxydeck.Model.{User}
use proxydeck.Redis.{Redis, Err, conn_key}
use proxydeck.Quota.{over_limit, drops_key, release}
use proxydeck.Quota.Counting.{bounded, incr_counters, within_limit, release_counts}

plus_one : (a : ℕ) → pos a +ℤ pos 1 ≡ pos (a + 1)
unfolding ◌+ℤ◌
plus_one a = ground arith

minus_one : (a : ℕ) → pos (suc a) -ℤ pos 1 ≡ pos a
unfolding ◌-ℤ◌
minus_one a = ground arith

-- one less, and never below zero
lowered :
    (a : ℕ) (n : ℤ) → n ≡ pos (suc a) → (if leb_ℤ n (pos 1) then pos 0 else n -ℤ pos 1) ≡ pos a
unfolding ◌-ℤ◌
lowered a n e = ground arith

module _ (r : Redis) (user : User) where
  open r use {State, counter}

  pub record Requests : Type 0 where
    pub store : State
    pub admitted : ℕ
    pub refused : ℕ
    pub deleting : ℕ
    pub decreasing : ℕ

  abbrev key : Text
  key = conn_key user.uid

  -- One command of one request; a command that fails is no step.
  pub data Step (q v : Requests) : Type 0 where
    admit :
        (n : ℤ) (t : State)
        → r.incr key q.store ≡ (ok n, t)
        → over_limit user n ≡ false
        → v ≡ record q { store = t; admitted = q.admitted + 1 }
        → Step q v
    refuse :
        (n : ℤ) (t : State)
        → r.incr key q.store ≡ (ok n, t)
        → over_limit user n ≡ true
        → v ≡ record q { store = t; refused = q.refused + 1 }
        → Step q v
    take_back :
        (m : ℕ) (t : State)
        → q.refused ≡ suc m
        → r.decr key q.store ≡ (none, t)
        → v ≡ record q { store = t; refused = m }
        → Step q v
    read_last :
        (m : ℕ) (n : ℤ)
        → q.admitted ≡ suc m
        → r.get key q.store ≡ ok n
        → drops_key (ok n) ≡ true
        → v ≡ record q { admitted = m; deleting = q.deleting + 1 }
        → Step q v
    read_more :
        (m : ℕ) (n : ℤ)
        → q.admitted ≡ suc m
        → r.get key q.store ≡ ok n
        → drops_key (ok n) ≡ false
        → v ≡ record q { admitted = m; decreasing = q.decreasing + 1 }
        → Step q v
    delete :
        (m : ℕ) (t : State)
        → q.deleting ≡ suc m
        → r.del (key ∷ []) q.store ≡ (none, t)
        → v ≡ record q { store = t; deleting = m }
        → Step q v
    decrease :
        (m : ℕ) (t : State)
        → q.decreasing ≡ suc m
        → r.decr key q.store ≡ (none, t)
        → v ≡ record q { store = t; decreasing = m }
        → Step q v

  pub data Reach (q : Requests) : Requests → Type 0 where
    here : Reach q q
    next : {u v : Requests} → Reach q u → Step u v → Reach q v

  -- `Acquire` in its two commands and `Release` as a whole, whatever the commands answer: no other
  -- command comes between the two of a `Release`.
  pub data WholeStep (q v : Requests) : Type 0 where
    admit :
        (n : ℤ) (t : State)
        → r.incr key q.store ≡ (ok n, t)
        → over_limit user n ≡ false
        → v ≡ record q { store = t; admitted = q.admitted + 1 }
        → WholeStep q v
    refuse :
        (n : ℤ) (t : State)
        → r.incr key q.store ≡ (ok n, t)
        → over_limit user n ≡ true
        → v ≡ record q { store = t; refused = q.refused + 1 }
        → WholeStep q v
    fail :
        (e : Error) (t : State)
        → r.incr key q.store ≡ (err e, t)
        → v ≡ record q { store = t }
        → WholeStep q v
    take_back :
        (m : ℕ)
        → q.refused ≡ suc m
        → v ≡ record q { store = (r.decr key q.store).1; refused = m }
        → WholeStep q v
    give_back :
        (m : ℕ)
        → q.admitted ≡ suc m
        → v ≡ record q { store = release r user.uid q.store; admitted = m }
        → WholeStep q v

  pub data WholeReach (q : Requests) : Requests → Type 0 where
    here : WholeReach q q
    next : {u v : Requests} → WholeReach q u → WholeStep u v → WholeReach q v

  -- The counter counts the requests that hold or owe a connection, and those that hold one are within
  -- the limit.
  pub record IsCounted (q : Requests) : Type 0 where
    pub counted : counter q.store key ≡ pos (q.admitted + q.refused)
    pub within : (user.max_concurrency ≤ℤ pos 0) ⊎ (pos q.admitted ≤ℤ user.max_concurrency)

  admit-IsCounted :
      (q : Requests) (n : ℤ) (t : State)
      → r.incr key q.store ≡ (ok n, t)
      → over_limit user n ≡ false
      → IsCounted q
      → IsCounted (record q { store = t; admitted = q.admitted + 1 })
  admit-IsCounted q n t i fits c =
      let law = incr_counters r key q.store n t i in
      let count : counter t key ≡ pos (q.admitted + q.refused + 1) =
        law.1 ∙ rw c.counted (plus_one _) in
      record {
        counted = count ∙ ap pos (omega arith);
        within = bounded user.max_concurrency (pos (q.admitted + 1)) (λ limited.
            let bound : pos (q.admitted + q.refused + 1) ≤ℤ user.max_concurrency =
              subst (λ m. m ≤ℤ user.max_concurrency) (law.0 ∙ count)
                (within_limit r user n fits limited) in
            omega arith);
      }

  refuse-IsCounted :
      (q : Requests) (n : ℤ) (t : State)
      → r.incr key q.store ≡ (ok n, t)
      → IsCounted q
      → IsCounted (record q { store = t; refused = q.refused + 1 })
  refuse-IsCounted q n t i c =
      let law = incr_counters r key q.store n t i in
      record {
        counted = law.1 ∙ rw c.counted (plus_one _ ∙ ap pos (omega arith));
        within = c.within;
      }

  take_back-IsCounted :
      (q : Requests) (m : ℕ) (t : State)
      → q.refused ≡ suc m
      → r.decr key q.store ≡ (none, t)
      → IsCounted q
      → IsCounted (record q { store = t; refused = m })
  take_back-IsCounted q m t e d c = record {
    counted =
        r.decr_ok key q.store t d key
        ∙ rw (text_eq_refl key) (
            ap (λ (n : ℤ). n -ℤ pos 1) (c.counted ∙ ap pos (omega arith))
            ∙ minus_one (q.admitted + m));
    within = c.within;
  }

  -- The commands on the counter succeed, GET where it counts something: a key that is missing is an
  -- error.
  module _ (reads : (s : State) → pos 0 <ℤ counter s key → (n : ℤ) × (r.get key s ≡ ok n))
      (incrs : (s : State) → (n : ℤ) × (t : State) × (r.incr key s ≡ (ok n, t)))
      (decrs : (k : Text) (s : State) → (r.decr k s).0 ≡ none)
      (dels : (k : Text) (s : State) → (r.del (k ∷ []) s).0 ≡ none) where
    give_back-IsCounted :
        (q : Requests) (m : ℕ)
        → q.admitted ≡ suc m
        → IsCounted q
        → IsCounted (record q { store = release r user.uid q.store; admitted = m })
    give_back-IsCounted q m e c =
        let count : counter q.store key ≡ pos (suc (m + q.refused)) =
          c.counted ∙ ap pos (omega arith) in
        let (n, g) = reads q.store (rw count (omega arith)) in
        record {
          counted =
              (release_counts r user.uid q.store n g dels decrs).0
              ∙ lowered (m + q.refused) n (r.get_ok key q.store n g ∙ count);
          within = elim c.within [ inl u ↦ inl u | inr h ↦ inr (omega arith) ];
        }

    never_fails : (s : State) (e : Error) (t : State) → r.incr key s ≡ (err e, t) → ⊥
    never_fails s e t h =
        let (n, u, i) = incrs s in
        let g : ◌≡◌ {A = Result ℤ} (ok n) (err e) =
          ap (λ (p : Result ℤ × State). p.0) (sym i ∙ h) in
        cc

    WholeStep-IsCounted : {q v : Requests} → WholeStep q v → IsCounted q → IsCounted v
    WholeStep-IsCounted {q} (WholeStep.admit n t i fits e) c =
        subst IsCounted (sym e) (admit-IsCounted q n t i fits c)
    WholeStep-IsCounted {q} (WholeStep.refuse n t i over e) c =
        subst IsCounted (sym e) (refuse-IsCounted q n t i c)
    WholeStep-IsCounted {q} (WholeStep.fail x t i e) c = elim (never_fails q.store x t i) [ ]
    WholeStep-IsCounted {q} (WholeStep.take_back m f e) c =
        subst IsCounted (sym e)
          (take_back-IsCounted q m _ f (paired (r.decr key q.store) (decrs key q.store)) c)
      where
        paired : (p : Err × State) → p.0 ≡ none → p ≡ (none, p.1)
        paired (a, b) h = rw h refl
    WholeStep-IsCounted {q} (WholeStep.give_back m f e) c =
        subst IsCounted (sym e) (give_back-IsCounted q m f c)

    -- Where the commands on the counter succeed, and no other command comes between the two of a
    -- `Release`, any interleaving of acquires, refusals and releases of a user, from a state that is
    -- counted, stays counted: the counter is the number of requests that hold a connection or still owe
    -- their decrement, and with a limit no more requests hold a connection than it allows.
    pub WholeReach-IsCounted : {q v : Requests} → IsCounted q → WholeReach q v → IsCounted v
    WholeReach-IsCounted c WholeReach.here = c
    WholeReach-IsCounted c (WholeReach.next w st) =
        WholeStep-IsCounted st (WholeReach-IsCounted c w)
