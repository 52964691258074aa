-- ===== src/Nodes/Keys.antt =====
-- The keys of the cached nodes and of their sets in redisstore/store.go, and which of them differ.
use proxydeck.Prelude.{
  ℕ, some, ◌≡◌, refl, ap, Bool, true, false, ◌||◌, List, [], ◌∷◌, ◌++◌, arith, ◌==◌, Bool-cases,
  inl, inr, if◌then◌else◌,
}
use proxydeck.Strings.{Text, lit, text_eq, text_eq-ne, text_eq_refl, is_empty}
use proxydeck.Strings.Number.{format_uint, scan, scan-format_uint}
use proxydeck.Strings.Split.{has_prefix}
use proxydeck.Stats.Keys.{text_eq_append}
use proxydeck.Subscription.Protocol.{one_of}
use proxydeck.Model.{ProxyNode}

-- `node:%d`
unfoldable pub node_key : ℕ → Text
node_key id = lit "node:" ++ format_uint id

abbrev pub healthy_nodes : Text
healthy_nodes = lit "healthy_nodes"

unfoldable pub region_key : Text → Text
region_key region = lit "region:" ++ region

unfoldable pub city_key : Text → Text
city_key city = lit "city:" ++ city

unfoldable pub asn_key : Text → Text
asn_key asn = lit "asn:" ++ asn

unfoldable pub isp_key : Text → Text
isp_key isp = lit "isp:" ++ isp

-- `region := node.DetectedRegion`, or `node.ExpectedRegion` where that is empty
abbrev pub node_region : ProxyNode → Text
node_region node =
    if is_empty node.detected_region then node.expected_region else node.detected_region

-- `if value != "" { keys = append(keys, …) }`
abbrev pub key_unless_empty : Text → Text → List Text → List Text
key_unless_empty value key keys = if is_empty value then keys else key ∷ keys

unfoldable pub node_index_keys : ProxyNode → List Text
node_index_keys node = key_unless_empty (node_region node) (region_key (node_region node)) (
    key_unless_empty node.city (city_key node.city) (
      key_unless_empty node.asn (asn_key node.asn)
        (key_unless_empty node.isp (isp_key node.isp) [])))

-- Whether a key is that of a set of nodes by region, city, ASN or ISP.
unfoldable pub is_index_key : Text → Bool
unfolding has_prefix
is_index_key k =
    has_prefix k (lit "region:")
    || has_prefix k (lit "city:")
    || has_prefix k (lit "asn:")
    || has_prefix k (lit "isp:")

-- Keys that differ in being the key of such a set are different.
pub index_key-ne :
    (k j : Text) → is_index_key k ≡ true → is_index_key j ≡ false → text_eq k j ≡ false
index_key-ne k j h e =
    text_eq-ne k j (λ p. let q : is_index_key k ≡ is_index_key j = ap is_index_key p in cc)

pub node_key-index : (id : ℕ) → is_index_key (node_key id) ≡ false
unfolding is_index_key node_key
node_key-index id = refl

abbrev pub is_sticky : Text → Bool
is_sticky k = has_prefix k (lit "sticky:")

pub index_key-sticky : (k : Text) → is_index_key k ≡ true → is_sticky k ≡ false
unfolding is_index_key has_prefix
index_key-sticky [] h = refl
index_key-sticky (c ∷ k) h = ground arith

pub node_key-sticky : (id : ℕ) → is_sticky (node_key id) ≡ false
unfolding has_prefix node_key
node_key-sticky id = refl

-- Different nodes have different keys.
pub node_key-ne : (i j : ℕ) → (i == j) ≡ false → text_eq (node_key i) (node_key j) ≡ false
unfolding node_key
node_key-ne i j h = rw (text_eq_append (lit "node:") (format_uint i) (format_uint j)) (
    text_eq-ne _ _ (λ p.
      let q : scan 0 (format_uint i) ≡ scan 0 (format_uint j) = ap (scan 0) p in
      let a : scan 0 (format_uint i) ≡ some i = scan-format_uint i in
      let b : scan 0 (format_uint j) ≡ some j = scan-format_uint j in
      let e : i ≡ j = cc in ground arith))

pub node_key-eq : (i j : ℕ) → text_eq (node_key i) (node_key j) ≡ (i == j)
node_key-eq i j = elim (Bool-cases (i == j)) [
  | inl e ↦ let p : i ≡ j = ground arith in rw (p, text_eq_refl (node_key j)) (ground arith)
  | inr e ↦ rw (e, node_key-ne i j e) refl
]

-- The set of the healthy nodes is not among the sets that index a node.
pub healthy_nodes-index : (n : ProxyNode) → one_of healthy_nodes (node_index_keys n) ≡ false
unfolding node_index_keys region_key city_key asn_key isp_key one_of text_eq
healthy_nodes-index n = ground arith
