-- ===== src/Prelude/Yields.antt =====
-- What holds of every value that an optional computation can return, with a rule for each way to
-- build one.
use mathlib.Core.Path.{◌≡◌, refl, subst}
use mathlib.Core.Bool.{Bool, true, false}
use mathlib.Core.Option.{Option, none, some}
use proxydeck.Prelude.Tests.{if◌then◌else◌}
use proxydeck.Prelude.Options.{◌>>=◌, ◌>>◌, skip_if}

pub record Yields {ℓ} {A : Type ℓ} (P : A → Type 0) (o : Option A) : Type ℓ where
  pub at : (a : A) → o ≡ some a → P a

module _ {ℓ} {A : Type ℓ} {P : A → Type 0} where
  pub Yields-none : Yields P none
  Yields-none = record { at = λ a e. cc }

  pub Yields-some : (a : A) → P a → Yields P (some a)
  Yields-some a p = record { at = λ b e. let q : a ≡ b = cc in subst P q p }

  pub Yields-if :
      (b : Bool) (m n : Option A)
      → (b ≡ true → Yields P m)
      → (b ≡ false → Yields P n)
      → Yields P (if b then m else n)
  Yields-if true m n km kn = km refl
  Yields-if false m n km kn = kn refl

  pub Yields-skip : (b : Bool) (k : Option A) → (b ≡ false → Yields P k) → Yields P (skip_if b >> k)
  unfolding ◌>>◌ skip_if
  Yields-skip true k h = Yields-none
  Yields-skip false k h = h refl

  pub Yields-bind {κ} :
      {B : Type κ} (m : Option B) (f : B → Option A)
      → ((b : B) → m ≡ some b → Yields P (f b))
      → Yields P (m >>= f)
  unfolding ◌>>=◌
  Yields-bind none f h = Yields-none
  Yields-bind (some b) f h = h b refl
