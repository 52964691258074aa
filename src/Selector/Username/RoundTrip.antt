-- ===== src/Selector/Username/RoundTrip.antt =====
-- A username written in one of the two formats is read back.
use proxydeck.Prelude.{
  ◌≡◌, ◌≢◌, refl, sym, ap, ◌∙◌, true, false, List, [], ◌∷◌, ◌++◌, arith, All, All-append,
  append-nil, append_assoc,
}
use proxydeck.Strings.{Text, lit, is_empty}
use proxydeck.Strings.Space.{IsTrimmed, trim_space_id}
use proxydeck.Strings.Split.{
  has_prefix, contains, split, split_skip, split_two, cut-append, split-append, split-Lacks, Lacks,
}
use proxydeck.Selector.Username.{
  Filters, no_filters, set_filter, legacy_field, legacy_fields, parse_username, dash_fields,
}

-- What a list of settings stands for: each one in turn, a later one of the same key winning.
unfoldable pub settle : List (Text × Text) → Filters → Filters
settle [] f = f
settle ((key, value) ∷ fields) f = settle fields (set_filter key value f)

-- `__key=value` for each field
unfoldable pub legacy_suffix : List (Text × Text) → Text
legacy_suffix [] = []
legacy_suffix ((key, value) ∷ fields) =
    b'_' ∷ b'_' ∷ (key ++ b'=' ∷ (value ++ legacy_suffix fields))

abbrev pub LegacyField : Text × Text → Type 0
LegacyField (key, value) = Lacks b'_' key × Lacks b'=' key × Lacks b'_' value

legacy_pieces : List (Text × Text) → List Text
legacy_pieces [] = []
legacy_pieces ((key, value) ∷ fields) = (key ++ b'=' ∷ value) ∷ legacy_pieces fields

-- a piece without an underscore is followed by the end or by the separator
split-Lacks_underscore : (a : Text) → Lacks b'_' a → split_skip 0 a (lit "__") ≡ a ∷ []
unfolding split_skip has_prefix
split-Lacks_underscore [] h = refl
split-Lacks_underscore (c ∷ a) h = ground (arith, split-Lacks_underscore a h.1)

split_at_underscores :
    (a b : Text)
    → Lacks b'_' a
    → split_skip 0 (a ++ b'_' ∷ b'_' ∷ b) (lit "__") ≡ a ∷ split_skip 0 b (lit "__")
unfolding split_skip has_prefix
split_at_underscores [] b h = refl
split_at_underscores (c ∷ a) b h = ground (arith, split_at_underscores a b h.1)

contains_underscores : (a b : Text) → contains (a ++ b'_' ∷ b'_' ∷ b) (lit "__") ≡ true
unfolding contains has_prefix
contains_underscores [] b = refl
contains_underscores (c ∷ a) b = ground (arith, contains_underscores a b)

piece-Lacks :
    (key value : Text) → Lacks b'_' key → Lacks b'_' value → Lacks b'_' (key ++ b'=' ∷ value)
piece-Lacks key value hk hv = All-append (λ d. d ≢ b'_') key (b'=' ∷ value) hk (omega arith, hv)

split-legacy_suffix :
    (a : Text) (fields : List (Text × Text))
    → Lacks b'_' a
    → All LegacyField fields
    → split_skip 0 (a ++ legacy_suffix fields) (lit "__") ≡ a ∷ legacy_pieces fields
unfolding legacy_suffix legacy_pieces
split-legacy_suffix a [] h _ = rw append-nil (split-Lacks_underscore a h)
split-legacy_suffix a ((key, value) ∷ fields) h (hf, hfs) =
    split_at_underscores a _ h
    ∙ ap (λ ps. a ∷ ps)
        (ap (λ s. split_skip 0 s (lit "__")) (sym (append_assoc key (b'=' ∷ value) _))
          ∙ split-legacy_suffix (key ++ b'=' ∷ value) fields (piece-Lacks key value hf.0 hf.2) hfs)

legacy_field_piece :
    (key value : Text) (f : Filters)
    → Lacks b'=' key
    → legacy_field (split_two (key ++ b'=' ∷ value) (lit "=")) f ≡ set_filter key value f
unfolding legacy_field split_two
legacy_field_piece key value f h = rw (cut-append key value b'=' h, split_two)

legacy_fields-pieces :
    (fields : List (Text × Text)) (f : Filters)
    → All LegacyField fields
    → legacy_fields (legacy_pieces fields) f ≡ settle fields f
unfolding legacy_fields legacy_pieces settle
legacy_fields-pieces [] f _ = refl
legacy_fields-pieces ((key, value) ∷ fields) f (hf, hfs) =
    ap (legacy_fields (legacy_pieces fields)) (legacy_field_piece key value f hf.1)
    ∙ legacy_fields-pieces fields (set_filter key value f) hfs

contains-legacy_suffix :
    (uid : Text) (field : Text × Text) (fields : List (Text × Text))
    → contains (uid ++ legacy_suffix (field ∷ fields)) (lit "__") ≡ true
unfolding legacy_suffix
contains-legacy_suffix uid field fields = contains_underscores uid _

-- A username `uid__key=value__…` with at least one field, in which the user id, the keys and the
-- values hold no underscore and the keys no `=`, is read as that user id and those settings, each
-- applied in turn.
pub parse_username-legacy :
    (uid : Text) (field : Text × Text) (fields : List (Text × Text))
    → Lacks b'_' uid
    → All LegacyField (field ∷ fields)
    → parse_username (uid ++ legacy_suffix (field ∷ fields))
      ≡ (uid, settle (field ∷ fields) no_filters)
unfolding parse_username split
parse_username-legacy uid field fields h hf = rw (contains-legacy_suffix uid field fields) (
    rw (split-legacy_suffix uid (field ∷ fields) h hf)
      (ap (λ (f : Filters). (uid, f)) (legacy_fields-pieces (field ∷ fields) no_filters hf)))

-- `-key-value` for each field
unfoldable pub dash_suffix : List (Text × Text) → Text
dash_suffix [] = []
dash_suffix ((key, value) ∷ fields) = b'-' ∷ (key ++ b'-' ∷ (value ++ dash_suffix fields))

abbrev pub IsDashToken : Text → Type 0
IsDashToken t = Lacks b'-' t × IsTrimmed t

abbrev pub DashField : Text × Text → Type 0
DashField (key, value) = IsDashToken key × IsDashToken value

dash_pieces : List (Text × Text) → List Text
dash_pieces [] = []
dash_pieces ((key, value) ∷ fields) = key ∷ value ∷ dash_pieces fields

split-dash_suffix :
    (a : Text) (fields : List (Text × Text))
    → Lacks b'-' a
    → All DashField fields
    → split (a ++ dash_suffix fields) (lit "-") ≡ a ∷ dash_pieces fields
unfolding dash_suffix dash_pieces
split-dash_suffix a [] h _ = rw append-nil (split-Lacks a b'-' h)
split-dash_suffix a ((key, value) ∷ fields) h (hf, hfs) =
    split-append a _ b'-' h
    ∙ ap (λ ps. a ∷ ps)
        (split-append key _ b'-' hf.0.0
          ∙ ap (λ ps. key ∷ ps) (split-dash_suffix value fields hf.1.0 hfs))

dash_fields-pieces :
    (fields : List (Text × Text)) (f : Filters)
    → All DashField fields
    → dash_fields (dash_pieces fields) f ≡ settle fields f
unfolding dash_fields dash_pieces settle
dash_fields-pieces [] f _ = refl
dash_fields-pieces ((key, value) ∷ fields) f (hf, hfs) =
    rw (trim_space_id key hf.0.1, trim_space_id value hf.1.1)
      (dash_fields-pieces fields (set_filter key value f) hfs)

-- A username `uid-key-value-…` that is trimmed as a whole, holds no `__`, and whose user id, keys and
-- values are trimmed and hold no `-`, is read as that user id and those settings, each applied in
-- turn; without a field, as the user id alone.
pub parse_username-dash :
    (uid : Text) (fields : List (Text × Text))
    → uid ≢ []
    → IsDashToken uid
    → All DashField fields
    → IsTrimmed (uid ++ dash_suffix fields)
    → contains (uid ++ dash_suffix fields) (lit "__") ≡ false
    → parse_username (uid ++ dash_suffix fields) ≡ (uid, settle fields no_filters)
unfolding parse_username is_empty
parse_username-dash [] fields ne hu hf ht hc = absurd (ne refl)
parse_username-dash (c ∷ uid) fields ne hu hf ht hc =
    rw (hc, trim_space_id _ ht, split-dash_suffix (c ∷ uid) fields hu.0 hf, trim_space_id _ hu.1)
      (ap (λ (f : Filters). (c ∷ uid, f)) (dash_fields-pieces fields no_filters hf))
