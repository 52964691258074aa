-- ===== src/Admin/Columns.antt =====
-- `req map[string]any` in the updates of adminapi/server.go, and `readInt64`.
use proxydeck.Prelude.{
  ℕ, ◌≡◌, refl, ◌+◌, false, [], ◌∷◌, Option, none, some, Bool-cases, inl, inr, ltb, if◌then◌else◌,
}
use proxydeck.Prelude.Int.{ℤ}
use proxydeck.Strings.{Text, text_eq, text_eq_refl, text_eq-eq}
use proxydeck.Subscription.Value.{
  Value, Fields, text, null, int, int64, float64, end, field, get, int64_of,
}

unfoldable pub without : Text → Fields → Fields
without k end = end
without k (field j v fs) = let rest = without k fs in if text_eq j k then rest else field j v rest

-- `req[k] = v`
unfoldable pub put : Text → Value → Fields → Fields
unfolding without
put k v fs = field k v (without k fs)

-- `value.(string)`
unfoldable pub as_text : Value → Option Text
as_text (text s) = some s
as_text _ = none

-- What encoding/json decodes of a number is a `float64`.
unfoldable pub read_int64 : Value → Option ℤ
unfolding int64_of
read_int64 (int n) = some n
read_int64 (int64 n) = some n
read_int64 (float64 x) = some (int64_of x.whole)
read_int64 _ = none

-- len of a text, in bytes
abbrev pub width : ℕ → ℕ
width c = if ltb c 0x80 then 1 else if ltb c 0x800 then 2 else if ltb c 0x10000 then 3 else 4

unfoldable pub byte_length : Text → ℕ
byte_length [] = 0
byte_length (c ∷ s) = width c + byte_length s

pub get-without : (j k : Text) (fs : Fields) → text_eq k j ≡ false → get (without k fs) j ≡ get fs j
unfolding get without
get-without j k end h = refl
get-without j k (field i v fs) h = elim (Bool-cases (text_eq i k)) [
  | inl e ↦ let p : i ≡ k = text_eq-eq i k e in rw (e, get-without j k fs h) (rw (p, h) refl)
  | inr e ↦ rw (e, get-without j k fs h) refl
]

pub get-without_same : (k : Text) (fs : Fields) → get (without k fs) k ≡ null
unfolding get without
get-without_same k end = refl
get-without_same k (field j v fs) = elim (Bool-cases (text_eq j k)) [
  | inl e ↦ rw e (get-without_same k fs)
  | inr e ↦ rw (e, get-without_same k fs) (rw e refl)
]

pub get-put_same : (k : Text) (v : Value) (fs : Fields) → get (put k v fs) k ≡ v
unfolding get put
get-put_same k v fs = rw (text_eq_refl k) refl

pub get-put_other :
    (j k : Text) (v : Value) (fs : Fields) → text_eq k j ≡ false → get (put k v fs) j ≡ get fs j
unfolding get put
get-put_other j k v fs h = rw h (get-without j k fs h)
