-- ===== src/Selector/Pick/Members.antt =====
-- The members of the sets that `matchNodeIDs` of selector/service.go reads, as ids of nodes.
use proxydeck.Prelude.{
  ℕ, ◌≡◌, ◌≢◌, ◌⊎◌, refl, ◌^◌, ◌-◌, true, ◌||◌, List, [], ◌∷◌, none, some, All, arith, leb,
  Bool-cases, inl, inr,
}
use proxydeck.Strings.{Text, text_eq, text_eq_refl, text_eq-eq, is_empty}
use proxydeck.Strings.Number.{format_uint, parse_uint, scan, scan-format_uint, format_uint-ne-nil}
use proxydeck.Model.{ProxyNode}
use proxydeck.Nodes.{parse_uint_members}
use proxydeck.Nodes.Keys.{node_region}
use proxydeck.Nodes.Kinds.{Kind, has_value, value_of}
use proxydeck.Selector.Pick.{add_set, unless_empty}

parse_limit :
    (s : Text) (n : ℕ)
    → s ≢ []
    → scan 0 s ≡ some n
    → (parse_uint s ≡ some n) ⊎ (parse_uint s ≡ none)
parse_limit [] n e h = absurd (e refl)
parse_limit (c ∷ s) n e h = elim (Bool-cases (leb n (2 ^ 64 - 1))) [
  | inl l ↦ inl (unfold parse_uint in rw (h, l) refl)
  | inr l ↦ inr (unfold parse_uint in rw (h, l) refl)
]

-- What holds of the ids that the members print holds of the ids that are read.
pub parse_uint_members-All {κ} :
    (P : ℕ → Type κ) (ms : List Text)
    → All (λ m. (id : ℕ) × (m ≡ format_uint id) × P id) ms
    → All P (parse_uint_members ms)
unfolding parse_uint_members
parse_uint_members-All P [] h = tt
parse_uint_members-All P (m ∷ ms) ((id, e, p), h) =
    elim (parse_limit (format_uint id) id (format_uint-ne-nil id) (scan-format_uint id)) [
      | inl q ↦ rw (e, q) (p, parse_uint_members-All P ms h)
      | inr q ↦ rw (e, q) (parse_uint_members-All P ms h)
    ]

pub add_set-All {κ} :
    (P : Text → Type κ) (v key : Text) (sets : List Text)
    → All P (add_set v key sets)
    → ((is_empty v ≡ true) ⊎ P key) × All P sets
unfolding is_empty
add_set-All P [] key sets h = (inl refl, h)
add_set-All P (c ∷ v) key sets h = (inr h.0, h.1)

-- A node whose value is that of the filter meets the filter.
pub value-meets :
    (kind : Kind) (v : Text) (n : ProxyNode)
    → (is_empty v ≡ true) ⊎ (has_value kind v (some n) ≡ true)
    → unless_empty v (text_eq (value_of kind n) v) ≡ true
value-meets kind v n (inl e) = rw e refl
value-meets kind v n (inr h) =
    let e : v ≡ value_of kind n = text_eq-eq v (value_of kind n) (ground arith) in
    rw (e, text_eq_refl (value_of kind n)) (ground arith)

pub region-meets :
    (v : Text) (n : ProxyNode)
    → unless_empty v (text_eq (node_region n) v) ≡ true
    → unless_empty v
        (text_eq n.country v || text_eq n.detected_region v || text_eq n.expected_region v)
      ≡ true
region-meets v n h = ground arith
