-- ===== src/Strings/Space.antt =====
-- strings.TrimSpace.
use proxydeck.Prelude.{
  ℕ, ◌≡◌, refl, inl, inr, Bool, false, ◌&&◌, ◌||◌, [], ◌∷◌, leb, ◌==◌, Bool-cases, All,
  if◌then◌else◌,
}
use proxydeck.Strings.Basic.{Text}

-- unicode.IsSpace
unfoldable pub is_space : ℕ → Bool
is_space c =
    (leb 9 c && leb c 13)
    || (c == 0x20)
    || (c == 0x85)
    || (c == 0xa0)
    || (c == 0x1680)
    || (leb 0x2000 c && leb c 0x200a)
    || (c == 0x2028)
    || (c == 0x2029)
    || (c == 0x202f)
    || (c == 0x205f)
    || (c == 0x3000)

unfoldable pub trim_left : Text → Text
unfolding is_space
trim_left [] = []
trim_left (c ∷ s) = if is_space c then trim_left s else c ∷ s

abbrev keep_char : ℕ → Text → Text
keep_char c [] = if is_space c then [] else c ∷ []
keep_char c (d ∷ s) = c ∷ d ∷ s

unfoldable pub trim_right : Text → Text
unfolding is_space
trim_right [] = []
trim_right (c ∷ s) = keep_char c (trim_right s)

unfoldable pub trim_space : Text → Text
unfolding trim_left trim_right
trim_space s = trim_right (trim_left s)

-- A text with no space at either end.
abbrev pub StartsClean : Text → Type 0
StartsClean [] = Unit
StartsClean (c ∷ s) = is_space c ≡ false

abbrev pub EndsClean : Text → Type 0
EndsClean s = trim_right s ≡ s

abbrev pub IsTrimmed : Text → Type 0
IsTrimmed s = StartsClean s × EndsClean s

pub trim_right_idem : (s : Text) → trim_right (trim_right s) ≡ trim_right s
unfolding trim_right
trim_right_idem [] = refl
trim_right_idem (c ∷ s) = go c (trim_right s) (trim_right_idem s)
  where
    go : (c : ℕ) (r : Text) → trim_right r ≡ r → trim_right (keep_char c r) ≡ keep_char c r
    go c [] h = elim (Bool-cases (is_space c)) [ inl e ↦ rw e | inr e ↦ rw e (rw e) ]
    go c (d ∷ r) h = rw h

StartsClean-trim_left : (s : Text) → StartsClean (trim_left s)
unfolding trim_left
StartsClean-trim_left [] = tt
StartsClean-trim_left (c ∷ s) = elim (Bool-cases (is_space c)) [
  | inl e ↦ rw e (StartsClean-trim_left s)
  | inr e ↦ rw e e
]

trim_right-StartsClean : (s : Text) → StartsClean s → StartsClean (trim_right s)
unfolding trim_right
trim_right-StartsClean [] h = tt
trim_right-StartsClean (c ∷ s) h = go (trim_right s)
  where
    go : (r : Text) → StartsClean (keep_char c r)
    go [] = rw h h
    go (d ∷ r) = h

pub trim_space-IsTrimmed : (s : Text) → IsTrimmed (trim_space s)
unfolding trim_space
trim_space-IsTrimmed s =
    (trim_right-StartsClean _ (StartsClean-trim_left s), trim_right_idem (trim_left s))

trim_left_id : (s : Text) → StartsClean s → trim_left s ≡ s
unfolding trim_left
trim_left_id [] h = refl
trim_left_id (c ∷ s) h = rw h

-- A trimmed text is left alone.
pub trim_space_id : (s : Text) → IsTrimmed s → trim_space s ≡ s
unfolding trim_space
trim_space_id s h = rw (trim_left_id s h.0) h.1

pub trim_space_idem : (s : Text) → trim_space (trim_space s) ≡ trim_space s
trim_space_idem s = trim_space_id (trim_space s) (trim_space-IsTrimmed s)

EndsClean-cons : (c : ℕ) (s : Text) → is_space c ≡ false → EndsClean s → EndsClean (c ∷ s)
unfolding trim_right
EndsClean-cons c [] h e = rw h
EndsClean-cons c (d ∷ s) h e = rw e

-- A text of characters none of which is a space.
pub IsTrimmed-All : (s : Text) → All (λ c. is_space c ≡ false) s → IsTrimmed s
unfolding trim_right
IsTrimmed-All [] h = (tt, refl)
IsTrimmed-All (c ∷ s) h = (h.0, EndsClean-cons c s h.0 (IsTrimmed-All s h.1).1)
