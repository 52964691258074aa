-- ===== src/Retry/Script.antt =====
-- `Do` on a function whose answers are given beforehand, with a context that is never cancelled.
use proxydeck.Prelude.{
  ℕ, zero, suc, ◌+◌, ◌*◌, ◌≡◌, refl, sym, ◌∙◌, List, [], ◌∷◌, ◌++◌, Option, none, some, arith, ◌==◌,
  false, append_assoc, append-nil,
}
use proxydeck.Prelude.Int.{ℤ, pos, pos_part, wrap64}
use proxydeck.Errors.{Error}
use proxydeck.Retry.{
  Failure, stop, plain, Config, Context, attempts, backoff, attempt_loop, do_retry,
}

-- The answers still to come, and the waits so far.
pub record Script : Type 0 where
  pub answers : List (Option Failure)
  pub waits : List ℤ

abbrev pub answer_of : List (Option Failure) → List ℤ → Option Failure × Script
answer_of [] ws = (none, record { answers = []; waits = ws })
answer_of (a ∷ rest) ws = (a, record { answers = rest; waits = ws })

-- Without an answer left the function succeeds.
abbrev pub play : Script → Option Failure × Script
play s = answer_of s.answers s.waits

abbrev pub unhurried : Context Script
unhurried = record {
  poll = λ s. (none, s);
  wait = λ t s. (none, record s { waits = s.waits ++ t ∷ [] });
}

-- The first answer that is a success or a `StopError` decides, or else the last of `n`.
pub decide : ℕ → Option Error → List (Option Failure) → Option Error
decide zero last answers = last
decide (suc n) last [] = none
decide (suc n) last (none ∷ rest) = none
decide (suc n) last (some (stop e) ∷ rest) = e
decide (suc n) last (some (plain e) ∷ rest) = decide n (some e) rest

-- The waits between the attempts, each the base times the number of the attempt before it.
pub pauses : ℕ → ℤ → ℕ → List (Option Failure) → List ℤ
pauses zero base attempt answers = []
pauses (suc zero) base attempt answers = []
pauses (suc (suc n)) base attempt (some (plain e) ∷ rest) =
    wrap64 (pos (pos_part base * attempt)) ∷ pauses (suc n) base (attempt + 1) rest
pauses (suc (suc n)) base attempt answers = []

attempt_loop-decide :
    (n : ℕ) (base : ℤ) (attempt : ℕ) (last : Option Error) (answers : List (Option Failure))
    (ws : List ℤ)
    → let end =
        attempt_loop unhurried play base n attempt last
          (record { answers = answers; waits = ws }) in
      (end.0 ≡ decide n last answers) × (end.1.waits ≡ ws ++ pauses n base attempt answers)
unfolding attempt_loop decide pauses
attempt_loop-decide zero base attempt last answers ws = (refl, sym (append-nil ws))
attempt_loop-decide (suc zero) base attempt last [] ws = (refl, sym (append-nil ws))
attempt_loop-decide (suc zero) base attempt last (none ∷ rest) ws = (refl, sym (append-nil ws))
attempt_loop-decide (suc zero) base attempt last (some (stop e) ∷ rest) ws =
    (refl, sym (append-nil ws))
attempt_loop-decide (suc zero) base attempt last (some (plain e) ∷ rest) ws =
    (refl, sym (append-nil ws))
attempt_loop-decide (suc (suc n)) base attempt last [] ws = (refl, sym (append-nil ws))
attempt_loop-decide (suc (suc n)) base attempt last (none ∷ rest) ws = (refl, sym (append-nil ws))
attempt_loop-decide (suc (suc n)) base attempt last (some (stop e) ∷ rest) ws =
    (refl, sym (append-nil ws))
attempt_loop-decide (suc (suc n)) base attempt last (some (plain e) ∷ rest) ws =
    let t = wrap64 (pos (pos_part base * attempt)) in
    let again = attempt_loop-decide (suc n) base (attempt + 1) (some e) rest (ws ++ t ∷ []) in
    let not_last : (suc n == 0) ≡ false = ground arith in
    rw not_last (again.0, again.1 ∙ append_assoc ws (t ∷ []) _)

-- On a function whose answers are given, and with a context that is never cancelled, `Do` returns what
-- the answers decide: `nil` at the first success, what is in the first `StopError`, or the error of
-- the last attempt; and it has waited between the attempts, and only there, for the base times the
-- number of the attempt.
pub do_retry-decide :
    (cfg : Config) (answers : List (Option Failure))
    → let end = do_retry unhurried cfg play (record { answers = answers; waits = [] }) in
      (end.0 ≡ decide (pos_part (attempts cfg)) none answers)
      × (end.1.waits ≡ pauses (pos_part (attempts cfg)) (backoff cfg) 1 answers)
unfolding do_retry
do_retry-decide cfg answers =
    attempt_loop-decide (pos_part (attempts cfg)) (backoff cfg) 1 none answers []
