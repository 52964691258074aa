-- ===== src/Retry/Attempts.antt =====
-- How often `Do` calls the function.
use proxydeck.Prelude.{
  ℕ, zero, suc, ◌+◌, ◌*◌, ◌≤◌, ◌≡◌, Option, none, some, Bool, true, false, arith, ◌==◌, ◌⊎◌,
  if◌then◌else◌,
}
use proxydeck.Prelude.Int.{ℤ, pos, pos_part, ◌-ℤ◌, ◌≤ℤ◌, wrap64}
use proxydeck.Errors.{Error}
use proxydeck.Retry.{
  Failure, stop, plain, Config, Context, attempts, backoff, unless_done, judge, attempt_loop,
  do_retry,
}

-- A count of calls in the state: the function adds one, the context and the timer nothing.
pub record IsCounting {S : Type 0} (c : Context S) (fn : S → Option Failure × S) (calls : S → ℕ)
    : Type 0 where
  pub poll_keeps : (s : S) → calls (c.poll s).1 ≡ calls s
  pub wait_keeps : (t : ℤ) (s : S) → calls (c.wait t s).1 ≡ calls s
  pub fn_adds : (s : S) → calls (fn s).1 ≡ calls s + 1

-- A bound by the attempts, in terms of the configuration.
attempts_le :
    (cfg : Config) (m n : ℕ)
    → m ≤ n + pos_part (attempts cfg)
    → ((pos m -ℤ pos n) ≤ℤ cfg.max_attempts)
      ⊎ ((cfg.max_attempts ≤ℤ pos 0) × ((pos m -ℤ pos n) ≤ℤ pos 1))
unfolding attempts ◌-ℤ◌
attempts_le cfg m n h = ground arith

module _ {S : Type 0} (c : Context S) (fn : S → Option Failure × S) (calls : S → ℕ)
    (k : IsCounting c fn calls) where
  unless_done-le :
      (n : ℕ) (p : Option Error × S) (f : S → Option Error × S)
      → calls p.1 ≤ n
      → ((s : S) → calls s ≤ calls p.1 → calls (f s).1 ≤ n)
      → calls (unless_done p f).1 ≤ n
  unless_done-le n (some e, s) f h g = h
  unless_done-le n (none, s) f h g = g s (omega arith)

  judge-le :
      (n : ℕ) (p : Option Failure × S) (f : Error → S → Option Error × S)
      → calls p.1 ≤ n
      → ((e : Error) (s : S) → calls s ≤ calls p.1 → calls (f e s).1 ≤ n)
      → calls (judge p f).1 ≤ n
  judge-le n (none, s) f h g = h
  judge-le n (some (stop e), s) f h g = h
  judge-le n (some (plain e), s) f h g = g e s (omega arith)

  if-le :
      (n : ℕ) (b : Bool) (x y : Option Error × S)
      → calls x.1 ≤ n
      → calls y.1 ≤ n
      → calls (if b then x else y).1 ≤ n
  if-le n true x y hx hy = hx
  if-le n false x y hx hy = hy

  attempt_loop-le :
      (base : ℤ) (left attempt : ℕ) (last : Option Error) (s : S)
      → calls (attempt_loop c fn base left attempt last s).1 ≤ calls s + left
  unfolding attempt_loop
  attempt_loop-le base zero attempt last s = omega arith
  attempt_loop-le base (suc left) attempt last s =
      let n = calls s + suc left in
      let pause = wrap64 (pos (pos_part base * attempt)) in
      let again = attempt_loop-le base left (attempt + 1) in
      unless_done-le n (c.poll s) _ (omega (arith, k.poll_keeps s)) λ s1 h1.
        judge-le n (fn s1) _ (omega (arith, k.fn_adds s1, k.poll_keeps s)) λ e s2 h2.
          let done : calls s2 ≤ calls s + 1 = omega (arith, k.fn_adds s1, k.poll_keeps s) in
          if-le n (left == 0) _ _ (omega arith) (
            unless_done-le n (c.wait pause s2) _ (omega (arith, k.wait_keeps pause s2))
              λ s3 h3. omega (arith, again (some e) s3, k.wait_keeps pause s2))

  -- `Do` calls the function at most `MaxAttempts` times, or at most once where that is not positive,
  -- whatever the function, the context and the timer do.
  pub do_retry_calls :
      (cfg : Config) (s : S)
      → ((pos (calls (do_retry c cfg fn s).1) -ℤ pos (calls s)) ≤ℤ cfg.max_attempts)
        ⊎ ((cfg.max_attempts ≤ℤ pos 0)
            × ((pos (calls (do_retry c cfg fn s).1) -ℤ pos (calls s)) ≤ℤ pos 1))
  unfolding do_retry
  do_retry_calls cfg s =
      attempts_le cfg _ _ (attempt_loop-le (backoff cfg) (pos_part (attempts cfg)) 1 none s)
