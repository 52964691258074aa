-- ===== src/Strings/Split.antt =====
-- strings.HasPrefix, HasSuffix, TrimPrefix, Contains, Cut, SplitN with n = 2, Split, Join and
-- FieldsFunc.
use proxydeck.Prelude.{
  ℕ, zero, suc, ◌-◌, ◌≡◌, ◌≢◌, refl, Bool, true, false, ◌&&◌, ◌||◌, List, [], ◌∷◌, ◌++◌, Option,
  none, some, arith, ◌==◌, length, drop, All, if◌then◌else◌,
}
use proxydeck.Strings.Basic.{Text, text_eq}

unfoldable pub has_prefix : Text → Text → Bool
has_prefix s [] = true
has_prefix [] (d ∷ p) = false
has_prefix (c ∷ s) (d ∷ p) = c == d && has_prefix s p

unfoldable pub has_suffix : Text → Text → Bool
unfolding text_eq
has_suffix [] p = text_eq [] p
has_suffix (c ∷ s) p = text_eq (c ∷ s) p || has_suffix s p

unfoldable pub trim_prefix : Text → Text → Text
unfolding has_prefix
trim_prefix s p = if has_prefix s p then drop (length p) s else s

unfoldable pub contains : Text → Text → Bool
unfolding has_prefix
contains [] p = has_prefix [] p
contains (c ∷ s) p = has_prefix (c ∷ s) p || contains s p

abbrev later : ℕ → Option (Text × Text) → Option (Text × Text)
later c none = none
later c (some (a, b)) = some (c ∷ a, b)

-- strings.Cut: the texts before and after the first separator, or `none` if there is none.
unfoldable pub cut : Text → Text → Option (Text × Text)
unfolding has_prefix
cut [] sep = if has_prefix [] sep then some ([], []) else none
cut (c ∷ s) sep =
    if has_prefix (c ∷ s) sep then some ([], drop (length sep) (c ∷ s)) else later c (cut s sep)

-- strings.SplitN(s, sep, 2)
unfoldable pub split_two : Text → Text → List Text
unfolding cut
split_two s sep = elim (cut s sep) [ none ↦ s ∷ [] | some (a, b) ↦ a ∷ b ∷ [] ]

abbrev pub onto_head : ℕ → List Text → List Text
onto_head c [] = (c ∷ []) ∷ []
onto_head c (p ∷ ps) = (c ∷ p) ∷ ps

-- Splitting at a separator that is not empty; the number counts the characters of a separator that
-- are still to be skipped.
unfoldable pub split_skip : ℕ → Text → Text → List Text
unfolding has_prefix
split_skip k [] sep = [] ∷ []
split_skip (suc k) (c ∷ s) sep = split_skip k s sep
split_skip zero (c ∷ s) sep = elim (has_prefix (c ∷ s) sep) [
  | true ↦ [] ∷ split_skip (length sep - 1) s sep
  | false ↦ onto_head c (split_skip zero s sep)
]

-- strings.Split at a separator that is not empty.
unfoldable pub split : Text → Text → List Text
unfolding split_skip
split s sep = split_skip 0 s sep

-- strings.Join
unfoldable pub join : List Text → Text → Text
join [] sep = []
join (p ∷ []) sep = p
join (p ∷ q ∷ ps) sep = p ++ (sep ++ join (q ∷ ps) sep)

is_line_end : ℕ → Bool
is_line_end c = (c == b'\n') || (c == b'\r')

abbrev add_field : Text → List Text → List Text
add_field [] ps = ps
add_field (c ∷ s) ps = (c ∷ s) ∷ ps

fields_from : Text → (ℕ → Bool) → Text → List Text
fields_from [] stop acc = add_field acc []
fields_from (c ∷ s) stop acc = elim (stop c) [
  | true ↦ add_field acc (fields_from s stop [])
  | false ↦ fields_from s stop (acc ++ c ∷ [])
]

-- strings.FieldsFunc at the ends of lines.
unfoldable pub fields_lines : Text → List Text
unfolding fields_from is_line_end
fields_lines s = fields_from s is_line_end []

-- strings.Fields, for a given test of spaces.
unfoldable pub fields : (ℕ → Bool) → Text → List Text
unfolding fields_from
fields space s = fields_from s space []

-- No character of the text is `c`.
abbrev pub Lacks : ℕ → Text → Type 0
Lacks c = All (λ d. d ≢ c)

pub cut-append : (a b : Text) (c : ℕ) → Lacks c a → cut (a ++ c ∷ b) (c ∷ []) ≡ some (a, b)
unfolding cut has_prefix
cut-append [] b c h = ground arith
cut-append (d ∷ a) b c h = ground (arith, cut-append a b c h.1)

pub split-Lacks : (a : Text) (c : ℕ) → Lacks c a → split a (c ∷ []) ≡ a ∷ []
unfolding split has_prefix
split-Lacks [] c h = refl
split-Lacks (d ∷ a) c h = ground (arith, split-Lacks a c h.1)

pub split-append :
    (a b : Text) (c : ℕ) → Lacks c a → split (a ++ c ∷ b) (c ∷ []) ≡ a ∷ split b (c ∷ [])
unfolding split has_prefix
split-append [] b c h = ground arith
split-append (d ∷ a) b c h = ground (arith, split-append a b c h.1)
