-- ===== src/Subscription/Value.antt =====
-- Decoded JSON and YAML values, Go's `map[string]any`, and `stringValue`, `boolValue` and
-- `parsePortValue`.
use proxydeck.Prelude.{
  ℕ, ◌-◌, ◌^◌, ltb, leb, Bool, true, false, ◌&&◌, [], Option, none, some, ◌==◌, if◌then◌else◌,
}
use proxydeck.Prelude.Int.{ℤ, pos, negsuc, pos_part, neg_part, eqb_ℤ, wrap64}
use proxydeck.Strings.{Text, text_eq}
use proxydeck.Strings.Space.{trim_space}
use proxydeck.Strings.Number.{atoi}

-- A finite `float64`, as far as the source looks at it: its integer part, rounded towards zero,
-- and a number that is zero exactly if there is no fraction.
pub record Float64 : Type 0 where
  pub whole : ℤ
  pub fraction : ℕ

unfoldable pub float_is_zero : Float64 → Bool
float_is_zero x = eqb_ℤ x.whole (pos 0) && x.fraction == 0

mutual
  pub data Value : Type 0 where
    null : Value
    text : Text → Value
    bool : Bool → Value
    int : ℤ → Value
    int64 : ℤ → Value
    uint64 : ℕ → Value
    float64 : Float64 → Value
    array : Items → Value
    object : Fields → Value

  pub data Items : Type 0 where
    nil : Items
    cons : Value → Items → Items

  pub data Fields : Type 0 where
    end : Fields
    field : Text → Value → Fields → Fields

-- A missing key gives the zero value of `any`.
unfoldable pub get : Fields → Text → Value
get end k = null
get (field j v fs) k = if text_eq j k then v else get fs k

unfoldable pub string_value : Value → Text
string_value (text s) = s
string_value _ = []

unfoldable pub bool_value : Value → Bool
bool_value (bool b) = b
bool_value _ = false

unfoldable pub is_null : Value → Bool
is_null null = true
is_null _ = false

-- `int64(x)` of a `float64`, for its integer part: what does not fit is the least number, as on amd64.
unfoldable pub int64_of : ℤ → ℤ
int64_of a =
    if ltb (pos_part a) (2 ^ 63) && leb (neg_part a) (2 ^ 63) then a else negsuc (2 ^ 63 - 1)

-- `int(typed)` of a `uint64` keeps the low 64 bits.
unfoldable pub parse_port_value : Value → Option ℤ
unfolding int64_of
parse_port_value (int n) = some n
parse_port_value (int64 n) = some n
parse_port_value (uint64 n) = some (wrap64 (pos n))
parse_port_value (float64 x) = some (int64_of x.whole)
parse_port_value (text s) = atoi (trim_space s)
parse_port_value _ = none

-- `value.(map[string]any)`
unfoldable pub as_object : Value → Option Fields
as_object (object fs) = some fs
as_object _ = none

-- `value.(float64)`, zero if it is none
unfoldable pub as_float : Value → Float64
as_float (float64 x) = x
as_float _ = record { whole = pos 0; fraction = 0 }
