-- ===== src/Stats/Flush.antt =====
-- The loop of `FlushUsage` over the users, and its one round.
pub mod Conserve
use proxydeck.Prelude.{
  ℕ, zero, suc, ◌≡◌, ◌+◌, ◌-◌, List, [], ◌∷◌, Bool, true, false, none, some, length, drop,
  if◌then◌else◌,
}
use proxydeck.Prelude.Int.{ℤ, pos, ◌+ℤ◌, eqb_ℤ, wrap64}
use proxydeck.Errors.{Error, Result, ok, err}
use proxydeck.Strings.{Text, lit, text_eq}
use proxydeck.Strings.Split.{has_prefix}
use proxydeck.Redis.{Redis, Err, usage_key, requests_key}
use proxydeck.Redis.Pipeline.{Pipeline, decr_by}
use proxydeck.Quota.{or_zero}

-- The table of users: `add_usage` is the update of `used_bytes` and `total_requests` by two amounts.
pub record Accounts : Type 1 where
  pub Table : Type 0
  pub used : Table → Text → ℤ
  pub add_usage : Text → ℤ → ℤ → Table → Err × Table
  pub add_usage_ok :
      (uid : Text) (n m : ℤ) (d d' : Table)
      → add_usage uid n m d ≡ (none, d')
      → (j : Text) → used d' j ≡ (if text_eq j uid then used d j +ℤ n else used d j)

abbrev pub take : ℕ → Text → Text
take zero s = []
take (suc n) [] = []
take (suc n) (c ∷ s) = c ∷ take n s

-- `key[len("usage:") : len(key)-len(":upload")]`
unfoldable pub uid_of_key : Text → Text
uid_of_key key = drop 6 (take (length key - 7) key)

module _ (r : Redis) (pipe : Pipeline r) (acc : Accounts) where
  open r use {State}
  open acc use {Table, add_usage}

  unfoldable pub request_count : Text → State → ℤ
  request_count uid s = or_zero (r.get (requests_key uid) s)

  -- the two reads of a round
  unfoldable pub flush_read : Text → State → ℤ × ℤ
  flush_read uid s = (
    or_zero (r.get (usage_key uid (lit "upload")) s),
    or_zero (r.get (usage_key uid (lit "download")) s),
  )

  -- the transaction behind the update of the table
  abbrev pub flush_updated : Text → ℤ × ℤ → Err × Table → State → Err × (Table × State)
  flush_updated uid read (some e, d) s = (some e, (d, s))
  flush_updated uid (up, down) (none, d) s =
      let (e, t) =
        pipe.exec
          (decr_by (usage_key uid (lit "upload")) up
            ∷ decr_by (usage_key uid (lit "download")) down
            ∷ decr_by (requests_key uid) (request_count uid s)
            ∷ [])
          s in
      (e, (d, t))

  -- the rest of a round, with what its reads returned
  unfoldable pub flush_write : Text → ℤ × ℤ → Table → State → Err × (Table × State)
  unfolding request_count
  flush_write uid (up, down) d s =
      let total = wrap64 (up +ℤ down) in
      if eqb_ℤ total (pos 0)
      then (none, (d, s))
      else flush_updated uid (up, down) (add_usage uid total (request_count uid s) d) s

  abbrev pub flush_next :
      (Table → State → Err × (Table × State)) → Err × (Table × State) → Err × (Table × State)
  flush_next rest (some e, end) = (some e, end)
  flush_next rest (none, (d, s)) = rest d s

  unfoldable pub flush_users : List Text → Table → State → Err × (Table × State)
  unfolding flush_read flush_write uid_of_key
  flush_users [] d s = (none, (d, s))
  flush_users (key ∷ keys) d s =
      let rest = flush_users keys in
      let uid = uid_of_key key in
      if has_prefix key (lit "usage:node:")
      then rest d s
      else flush_next rest (flush_write uid (flush_read uid s) d s)
