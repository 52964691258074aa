-- ===== src/Redis/Pipeline.antt =====
-- The transactions that the backend sends to Redis, as an interface over the commands on counters. The
-- law states what a transaction does when it succeeds.
use proxydeck.Prelude.{◌≡◌, List, [], ◌∷◌, if◌then◌else◌}
use proxydeck.Prelude.Int.{ℤ, ◌+ℤ◌, ◌-ℤ◌}
use proxydeck.Strings.{Text, text_eq}
use proxydeck.Prelude.{none}
use proxydeck.Redis.{Redis, Err}

-- INCRBY and DECRBY of a counter, and ZINCRBY of a member of a sorted set.
pub data Command : Type 0 where
  incr_by decr_by : Text → ℤ → Command
  z_incr_by : Text → ℤ → Text → Command

-- What the commands, in turn, make of the number at a key.
abbrev pub applied : Text → List Command → ℤ → ℤ
applied j [] n = n
applied j (incr_by k d ∷ cs) n = applied j cs (if text_eq j k then n +ℤ d else n)
applied j (decr_by k d ∷ cs) n = applied j cs (if text_eq j k then n -ℤ d else n)
applied j (z_incr_by k d m ∷ cs) n = applied j cs n

pub record Pipeline (r : Redis) : Type 0 where
  pub exec : List Command → r.State → Err × r.State
  pub exec_ok :
      (cs : List Command) (s t : r.State)
      → exec cs s ≡ (none, t)
      → (j : Text) → r.counter t j ≡ applied j cs (r.counter s j)
