-- ===== src/Prelude/Options.antt =====
-- A function that returns a value and `ok`, or that skips an item, returns an `Option`.
use mathlib.Core.Bool.{Bool, true, false}
use mathlib.Core.Option.{Option, none, some}

infixl 5 ◌>>=◌ ◌>>◌
unfoldable pub ◌>>=◌ {ℓ κ} : {A : Type ℓ} {B : Type κ} → Option A → (A → Option B) → Option B
none >>= f = none
some a >>= f = f a

unfoldable pub ◌>>◌ {ℓ} : {B : Type ℓ} → Option (Unit {0}) → Option B → Option B
unfolding ◌>>=◌
m >> k = m >>= λ _. k

-- `if b { return …, false }` or `if b { continue }`
unfoldable pub skip_if : Bool → Option (Unit {0})
skip_if true = none
skip_if false = some tt
