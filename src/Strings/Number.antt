-- ===== src/Strings/Number.antt =====
-- strconv.Atoi, strconv.ParseUint at base 10, and the verb %d. `none` is an error of the parser.
use proxydeck.Prelude.{
  ℕ, zero, suc, ◌+◌, ◌-◌, ◌*◌, ◌/◌, ◌%◌, ◌^◌, ◌<◌, ◌≡◌, ◌≢◌, refl, ap, Bool, true, false, ◌&&◌, [],
  ◌∷◌, ◌++◌, Option, none, some, arith, ltb, leb, ◌==◌, Bool-cases, inl, inr, All, All-append,
  if◌then◌else◌,
}
use proxydeck.Prelude.Int.{ℤ, pos, negsuc}
use proxydeck.Strings.Basic.{Text, lit}

unfoldable pub is_digit : ℕ → Bool
is_digit c = leb b'0' c && leb c b'9'

-- The number that the digits spell behind `n`.
unfoldable pub scan : ℕ → Text → Option ℕ
unfolding is_digit
scan n [] = some n
scan n (c ∷ s) = if is_digit c then scan (n * 10 + (c - b'0')) s else none

abbrev limit_to : ℕ → Option ℕ → Option ℕ
limit_to m none = none
limit_to m (some n) = if leb n m then some n else none

-- strconv.ParseUint(s, 10, 64)
unfoldable pub parse_uint : Text → Option ℕ
unfolding scan
parse_uint [] = none
parse_uint (c ∷ s) = limit_to (2 ^ 64 - 1) (scan 0 (c ∷ s))

-- The digits behind a sign: at least one, and a value of at most `m`.
unfoldable pub magnitude : ℕ → Text → Option ℕ
unfolding scan
magnitude m [] = none
magnitude m (c ∷ s) = limit_to m (scan 0 (c ∷ s))

unfoldable pub negate : ℕ → ℤ
negate zero = pos zero
negate (suc n) = negsuc n

abbrev as_pos : Option ℕ → Option ℤ
as_pos none = none
as_pos (some n) = some (pos n)

abbrev as_neg : Option ℕ → Option ℤ
as_neg none = none
as_neg (some n) = some (negate n)

-- strconv.Atoi, at the width of `int64`.
unfoldable pub atoi : Text → Option ℤ
unfolding magnitude negate
atoi [] = none
atoi (c ∷ s) =
    if c == b'-'
    then as_neg (magnitude (2 ^ 63) s)
    else if c == b'+'
    then as_pos (magnitude (2 ^ 63 - 1) s)
    else as_pos (magnitude (2 ^ 63 - 1) (c ∷ s))

-- Decimal digits on fuel: more fuel than the value of `n` is enough.
unfoldable pub digits : ℕ → ℕ → Text
digits zero n = []
digits (suc f) n = elim (ltb n 10) [
  | true ↦ (b'0' + n) ∷ []
  | false ↦ digits f (n / 10) ++ (b'0' + n % 10) ∷ []
]

-- %d of an unsigned number
unfoldable pub format_uint : ℕ → Text
unfolding digits
format_uint n = digits (suc n) n

-- %d of a signed number
unfoldable pub format_int : ℤ → Text
unfolding format_uint
format_int (pos n) = format_uint n
format_int (negsuc n) = b'-' ∷ format_uint (suc n)

abbrev pub AllDigits : Text → Type 0
AllDigits = All (λ c. is_digit c ≡ true)

scan_last :
    (s : Text) (n d m : ℕ)
    → scan n s ≡ some m
    → d < 10
    → scan n (s ++ (b'0' + d) ∷ []) ≡ some (m * 10 + d)
unfolding scan
scan_last [] n d m h k = ground arith
scan_last (c ∷ s) n d m h k = ground (arith, scan_last s (n * 10 + (c - b'0')) d m)

scan-digits : (f n : ℕ) → n < f → scan 0 (digits f n) ≡ some n
unfolding digits
scan-digits zero n h = elim h [ ]
scan-digits (suc f) n h = elim (Bool-cases (ltb n 10)) [
  | inl e ↦ rw (e, digits) (unfold scan in ground arith)
  | inr e ↦
      rw (e, digits)
        (rw
          (scan_last (digits f (n / 10)) 0 (n % 10) (n / 10) (scan-digits f (n / 10) (ground arith))
            (ground arith))
          (ap some (omega arith)))
]

pub AllDigits-digits : (f n : ℕ) → AllDigits (digits f n)
unfolding digits is_digit
AllDigits-digits zero n = tt
AllDigits-digits (suc f) n = elim (Bool-cases (ltb n 10)) [
  | inl e ↦ rw (e, digits) (ground arith, tt)
  | inr e ↦
      rw (e, digits)
        (All-append (λ c. is_digit c ≡ true) _ _ (AllDigits-digits f (n / 10)) (ground arith, tt))
]

last-ne-nil : (c : ℕ) (s : Text) → s ++ c ∷ [] ≢ []
last-ne-nil c [] p = cc
last-ne-nil c (d ∷ s) p = cc

digits-ne-nil : (f n : ℕ) → digits (suc f) n ≢ []
unfolding digits
digits-ne-nil f n = elim (Bool-cases (ltb n 10)) [
  | inl e ↦ rw (e, digits) (λ p. cc)
  | inr e ↦ rw (e, digits) (last-ne-nil _ (digits f (n / 10)))
]

pub scan-format_uint : (n : ℕ) → scan 0 (format_uint n) ≡ some n
unfolding format_uint
scan-format_uint n = scan-digits (suc n) n (omega arith)

pub AllDigits-format_uint : (n : ℕ) → AllDigits (format_uint n)
unfolding format_uint
AllDigits-format_uint n = AllDigits-digits (suc n) n

pub format_uint-ne-nil : (n : ℕ) → format_uint n ≢ []
unfolding format_uint
format_uint-ne-nil n = digits-ne-nil n n

atoi_digits :
    (s : Text) (n : ℕ)
    → s ≢ []
    → AllDigits s
    → scan 0 s ≡ some n
    → n < 2 ^ 63
    → atoi s ≡ some (pos n)
atoi_digits [] n ne d h k = absurd (ne refl)
atoi_digits (c ∷ s) n ne d h k = unfold atoi is_digit in ground (arith, h, d.0)

-- A number that fits into `int64` is read back from its decimal print.
pub atoi-format_uint : (n : ℕ) → n < 2 ^ 63 → atoi (format_uint n) ≡ some (pos n)
atoi-format_uint n h =
    atoi_digits (format_uint n) n (format_uint-ne-nil n) (AllDigits-format_uint n)
      (scan-format_uint n) h

format_int_runs : format_int (negsuc 119) ≡ lit "-120"
unfolding format_int
format_int_runs = refl

atoi_runs :
    (atoi (lit "+8080") ≡ some (pos 8080)) × (atoi (lit "80a") ≡ none) × (atoi (lit "-") ≡ none)
unfolding atoi
atoi_runs = (refl, refl, refl)

atoi_range : (atoi (lit "9223372036854775808") ≡ none) × (atoi (lit "-5") ≡ some (negsuc 4))
unfolding atoi
atoi_range = (refl, refl)
