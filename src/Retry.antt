-- ===== src/Retry.antt =====
-- backend/internal/retry/retry.go. The state that the retried function, the context and the timer
-- work on is a parameter; a duration is in nanoseconds.
pub mod Attempts
pub mod Script
use proxydeck.Prelude.{ℕ, zero, suc, ◌+◌, ◌*◌, Option, none, some, ◌==◌, if◌then◌else◌}
use proxydeck.Prelude.Int.{ℤ, pos, pos_part, leb_ℤ, wrap64}
use proxydeck.Errors.{Error}

-- An error of the retried function: a `StopError`, with the error in it or `nil`, or another error.
pub data Failure : Type 0 where
  stop : Option Error → Failure
  plain : Error → Failure

pub record Config : Type 0 where
  pub max_attempts : ℤ
  pub base_backoff : ℤ

abbrev pub default_config : Config
default_config = record { max_attempts = pos 3; base_backoff = pos 500000000 }

-- `poll` is `ctx.Err()`; `wait` is the `select` on the context and a timer of the given duration,
-- `none` if the timer fired.
pub record Context (S : Type 0) : Type 0 where
  pub poll : S → Option Error × S
  pub wait : ℤ → S → Option Error × S

unfoldable pub attempts : Config → ℤ
attempts cfg = if leb_ℤ cfg.max_attempts (pos 0) then pos 1 else cfg.max_attempts

unfoldable pub backoff : Config → ℤ
backoff cfg = if leb_ℤ cfg.base_backoff (pos 0) then pos 100000000 else cfg.base_backoff

module _ {S : Type 0} where
  abbrev pub unless_done : Option Error × S → (S → Option Error × S) → Option Error × S
  unless_done (some e, s) k = (some e, s)
  unless_done (none, s) k = k s

  -- the branches behind the call of the function
  abbrev pub judge : Option Failure × S → (Error → S → Option Error × S) → Option Error × S
  judge (none, s) k = (none, s)
  judge (some (stop e), s) k = (e, s)
  judge (some (plain e), s) k = k e s

  module _ (c : Context S) (fn : S → Option Failure × S) (base : ℤ) where
    -- The loop, with `left` rounds left; the last round does not wait.
    unfoldable pub attempt_loop : ℕ → ℕ → Option Error → S → Option Error × S
    attempt_loop zero attempt last s = (last, s)
    attempt_loop (suc left) attempt last s = unless_done (c.poll s) λ s1. judge (fn s1) λ e s2.
        if left == 0
        then (some e, s2)
        else unless_done (c.wait (wrap64 (pos (pos_part base * attempt))) s2)
            λ s3. attempt_loop left (attempt + 1) (some e) s3

  unfoldable pub do_retry : Context S → Config → (S → Option Failure × S) → S → Option Error × S
  unfolding attempts backoff
  do_retry c cfg fn s = attempt_loop c fn (backoff cfg) (pos_part (attempts cfg)) 1 none s
