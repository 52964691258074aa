-- ===== src/Stats/Flush/Conserve.antt =====
-- No byte is lost or counted twice in a round of `FlushUsage`.
use proxydeck.Prelude.Int.{ℤ, ◌+ℤ◌}
use proxydeck.Strings.{Text, lit}
use proxydeck.Redis.{Redis, usage_key}
use proxydeck.Redis.Pipeline.{Pipeline}
use proxydeck.Stats.Flush.{Accounts}

module _ (r : Redis) (pipe : Pipeline r) (acc : Accounts) where
  open r use {State, counter}
  open acc use {Table, used, add_usage}

  -- The bytes of a user, recorded and pending.
  abbrev pub bytes : Text → Table → State → ℤ
  bytes uid d s =
      used d uid
      +ℤ (counter s (usage_key uid (lit "upload")) +ℤ counter s (usage_key uid (lit "download")))
