-- ===== src/Redis.antt =====
-- The commands on counters that the backend sends to Redis, as an interface, and the keys of
-- redisstore/store.go. The laws state what the commands do when they succeed; nothing is assumed of
-- a command that fails.
pub mod Reference
pub mod Pipeline
use proxydeck.Prelude.{ℕ, ◌≡◌, ◌++◌, List, [], ◌∷◌, Bool, Option, none, some, All, if◌then◌else◌}
use proxydeck.Prelude.Int.{ℤ, pos, ◌+ℤ◌, ◌-ℤ◌, wrap64}
use proxydeck.Errors.{Error, Result, ok, err}
use proxydeck.Strings.{Text, lit, text_eq, is_empty}
use proxydeck.Strings.Number.{format_uint}

-- `sticky:%s:%s:%s`
unfoldable pub sticky_key : Text → Text → Text → Text
sticky_key uid filter_hash sid =
    lit "sticky:" ++ (uid ++ (lit ":" ++ (filter_hash ++ (lit ":" ++ sid))))

-- `usage:%s:%s`
unfoldable pub usage_key : Text → Text → Text
usage_key uid direction = lit "usage:" ++ (uid ++ (lit ":" ++ direction))

-- `conn:%s:current`
unfoldable pub conn_key : Text → Text
conn_key uid = lit "conn:" ++ (uid ++ lit ":current")

-- `usage:%s:requests`
unfoldable pub requests_key : Text → Text
requests_key uid = lit "usage:" ++ (uid ++ lit ":requests")

-- `usage:node:%d:%s`
unfoldable pub node_usage_key : ℕ → Text → Text
node_usage_key node_id direction =
    lit "usage:node:" ++ (format_uint node_id ++ (lit ":" ++ direction))

-- `usage:node:%d:requests`
unfoldable pub node_requests_key : ℕ → Text
node_requests_key node_id = lit "usage:node:" ++ (format_uint node_id ++ lit ":requests")

-- `traffic:region`, whatever the region
unfoldable pub region_usage_key : Text → Text
region_usage_key region = lit "traffic:region"

-- `traffic:hour:%s`
unfoldable pub hourly_usage_key : Text → Text
hourly_usage_key hour = lit "traffic:hour:" ++ hour

unfoldable pub region_member : Text → Text
region_member region = if is_empty region then lit "__unknown__" else region

-- A command's error; `none` is `nil`.
abbrev pub Err : Type 0
Err = Option Error

pub record Redis : Type 1 where
  pub State : Type 0
  -- what a key counts; zero if it is missing
  pub counter : State → Text → ℤ
  -- GET, read as `int64`
  pub get : Text → State → Result ℤ
  -- INCR and DECR
  pub incr : Text → State → Result ℤ × State
  pub decr : Text → State → Err × State
  -- DEL of some keys
  pub del : List Text → State → Err × State
  -- KEYS
  pub keys : Text → State → Result (List Text)
  pub get_ok : (k : Text) (s : State) (n : ℤ) → get k s ≡ ok n → n ≡ counter s k
  pub incr_ok :
      (k : Text) (s : State) (n : ℤ) (t : State)
      → incr k s ≡ (ok n, t)
      → (n ≡ counter s k +ℤ pos 1)
        × ((j : Text) → counter t j ≡ (if text_eq j k then counter s k +ℤ pos 1 else counter s j))
  pub decr_ok :
      (k : Text) (s t : State)
      → decr k s ≡ (none, t)
      → (j : Text) → counter t j ≡ (if text_eq j k then counter s k -ℤ pos 1 else counter s j)
  pub del_ok :
      (k : Text) (s t : State)
      → del (k ∷ []) s ≡ (none, t)
      → (j : Text) → counter t j ≡ (if text_eq j k then pos 0 else counter s j)
