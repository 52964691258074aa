-- ===== src/Strings/Basic.antt =====
-- Texts, literals, equality and case mapping.
use Prim.Native.Char.{code}
use proxydeck.Prelude.{
  ℕ, ◌+◌, ◌-◌, String, ◌≡◌, refl, ◌↔◌, ◌⊎◌, inl, inr, ◌≢◌, Bool, true, false, ◌&&◌, List, [], ◌∷◌,
  map, arith, leb, ◌==◌, if◌then◌else◌,
}

abbrev pub Text : Type 0
Text = List ℕ

-- The code points of a literal.
abbrev pub lit : String → Text
lit String.[] = []
lit (String.◌∷◌ c s) = code c ∷ lit s

unfoldable pub text_eq : Text → Text → Bool
text_eq [] [] = true
text_eq [] (d ∷ t) = false
text_eq (c ∷ s) [] = false
text_eq (c ∷ s) (d ∷ t) = c == d && text_eq s t

unfoldable pub is_empty : Text → Bool
is_empty [] = true
is_empty (c ∷ s) = false

pub Text-cases : (s : Text) → (s ≡ []) ⊎ (s ≢ [])
Text-cases [] = inl refl
Text-cases (c ∷ s) = inr (λ e. cc)

pub text_eq-eq : (s t : Text) → text_eq s t ≡ true → s ≡ t
unfolding text_eq
text_eq-eq [] [] h = refl
text_eq-eq [] (d ∷ t) h = cc
text_eq-eq (c ∷ s) [] h = cc
text_eq-eq (c ∷ s) (d ∷ t) h = ground (arith, text_eq-eq s t)

pub text_eq_refl : (s : Text) → text_eq s s ≡ true
unfolding text_eq
text_eq_refl [] = refl
text_eq_refl (c ∷ s) = ground (arith, text_eq_refl s)

pub text_eq_iff : (s t : Text) → (text_eq s t ≡ true) ↔ (s ≡ t)
text_eq_iff s t = (text_eq-eq s t, λ e. rw e (text_eq_refl t))

pub text_eq-ne : (s t : Text) → s ≢ t → text_eq s t ≡ false
text_eq-ne s t h = ground (arith, text_eq-eq s t)

-- unicode.ToLower and unicode.ToUpper: KELVIN SIGN and I WITH DOT ABOVE go to ASCII letters, and so
-- do LONG S and DOTLESS I the other way.
unfoldable pub lower_char : ℕ → ℕ
lower_char c =
    if leb b'A' c && leb c b'Z'
    then c + 32
    else if c == 0x212a
    then b'k'
    else if c == 0x130
    then b'i'
    else c

unfoldable pub upper_char : ℕ → ℕ
upper_char c =
    if leb b'a' c && leb c b'z'
    then c - 32
    else if c == 0x17f
    then b'S'
    else if c == 0x131
    then b'I'
    else c

unfoldable pub to_lower : Text → Text
unfolding lower_char
to_lower = map lower_char

unfoldable pub to_upper : Text → Text
unfolding upper_char
to_upper = map upper_char

-- Simple folding: KELVIN SIGN folds with `k`, and LONG S with `s`.
fold_char : ℕ → ℕ
fold_char c =
    if leb b'A' c && leb c b'Z'
    then c + 32
    else if c == 0x212a
    then b'k'
    else if c == 0x17f
    then b's'
    else c

unfoldable pub equal_fold : Text → Text → Bool
unfolding fold_char text_eq
equal_fold s t = text_eq (map fold_char s) (map fold_char t)
