-- ===== src/Admin/Users/Updates.antt =====
-- What `updateUser` of adminapi/server.go hands to the database.
use proxydeck.Prelude.{
  ◌≡◌, Bool, true, false, not, Option, none, some, ltb, if◌then◌else◌, ◌<◌, ◌^◌,
}
use proxydeck.Prelude.Int.{ℤ, pos, pos_part, ◌≤ℤ◌}
use proxydeck.Errors.{Result, ok, err, message}
use proxydeck.Strings.{Text, lit, is_empty}
use proxydeck.Strings.Space.{IsTrimmed}
use proxydeck.Subscription.Value.{Value, Fields, text, int, int64, float64, get}
use proxydeck.Admin.Columns.{put, without, as_text, byte_length}
use proxydeck.Admin.Users.{negative, or_blank}

abbrev in_range : Option ℤ → Bool
in_range none = true
in_range (some n) = not (negative n)

abbrev pub is_blank : Option Text → Bool
is_blank none = true
is_blank (some s) = is_empty s

-- The id is absent, or trimmed and not empty.
abbrev pub GoodUid : Option Text → Type 0
GoodUid none = Unit
GoodUid (some uid) = (is_empty uid ≡ false) × IsTrimmed uid

-- A number whose integer part is not negative, and fits in int64 if it was a float; -0.5 is one.
abbrev pub Unsigned : Value → Type 0
Unsigned (int n) = pos 0 ≤ℤ n
Unsigned (int64 n) = pos 0 ≤ℤ n
Unsigned (float64 x) = (pos 0 ≤ℤ x.whole) × (pos_part x.whole < 2 ^ 63)
Unsigned _ = Unit

-- The columns of the update: the id, if it is given, is trimmed and not empty, the two numbers, if
-- they are given, have no negative integer part, and there is no password but the empty one.
pub record SoundUpdate (fs : Fields) : Type 0 where
  pub uid : GoodUid (as_text (get fs (lit "uid")))
  pub quota : Unsigned (get fs (lit "quota_bytes"))
  pub limit : Unsigned (get fs (lit "max_concurrency"))
  pub password : is_blank (as_text (get fs (lit "password"))) ≡ true

abbrev replaced : (Text → Result Text) → Text → Fields → Result Fields
replaced hash p fs =
    if ltb (byte_length p) 6
    then err (message (lit "password must be at least 6 characters"))
    else ok (without (lit "password") (put (lit "password_hash") (text (or_blank (hash p))) fs))
