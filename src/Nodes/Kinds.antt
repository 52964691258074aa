-- ===== src/Nodes/Kinds.antt =====
-- The sets of redisstore/store.go that index the cached nodes by region, city, ASN and ISP.
use proxydeck.Prelude.{
  ◌≡◌, refl, ◌∙◌, Bool, true, false, not, ◌&&◌, List, [], ◌∷◌, Option, none, some, arith,
}
use proxydeck.Strings.{Text, lit, text_eq, is_empty}
use proxydeck.Subscription.Protocol.{one_of}
use proxydeck.Stats.Keys.{text_eq_append}
use proxydeck.Model.{ProxyNode}
use proxydeck.Nodes.{usable, index_of}
use proxydeck.Nodes.Keys.{
  region_key, city_key, asn_key, isp_key, key_unless_empty, node_region, node_index_keys,
  is_index_key,
}

-- What a set is kept by.
pub data Kind : Type 0 where
  by_region by_city by_asn by_isp : Kind

abbrev pub index_key : Kind → Text → Text
index_key by_region v = region_key v
index_key by_city v = city_key v
index_key by_asn v = asn_key v
index_key by_isp v = isp_key v

abbrev pub value_of : Kind → ProxyNode → Text
value_of by_region n = node_region n
value_of by_city n = n.city
value_of by_asn n = n.asn
value_of by_isp n = n.isp

-- Whether the cached node, if there is one, has the value.
abbrev pub has_value : Kind → Text → Option ProxyNode → Bool
has_value kind v none = false
has_value kind v (some n) = not (is_empty v) && text_eq v (value_of kind n)

abbrev pub is_usable : Option ProxyNode → Bool
is_usable none = false
is_usable (some n) = usable n

pub index_key-index : (kind : Kind) (v : Text) → is_index_key (index_key kind v) ≡ true
unfolding is_index_key region_key city_key asn_key isp_key
index_key-index by_region v = refl
index_key-index by_city v = refl
index_key-index by_asn v = refl
index_key-index by_isp v = refl

one_of-skip :
    (k w key : Text) (keys : List Text)
    → text_eq k key ≡ false
    → one_of k (key_unless_empty w key keys) ≡ one_of k keys
unfolding one_of is_empty
one_of-skip k [] key keys h = refl
one_of-skip k (c ∷ w) key keys h = rw h refl

one_of-hit :
    (k v w key : Text) (keys : List Text)
    → text_eq k key ≡ text_eq v w
    → one_of k keys ≡ false
    → one_of k (key_unless_empty w key keys) ≡ not (is_empty v) && text_eq v w
unfolding one_of is_empty text_eq
one_of-hit k [] [] key keys h e = e
one_of-hit k (d ∷ v) [] key keys h e = e
one_of-hit k [] (c ∷ w) key keys h e = rw (h, e) refl
one_of-hit k (d ∷ v) (c ∷ w) key keys h e = ground (arith, h, e)

pub one_of-index_keys :
    (kind : Kind) (v : Text) (n : ProxyNode)
    → one_of (index_key kind v) (node_index_keys n) ≡ has_value kind v (some n)
unfolding node_index_keys region_key city_key asn_key isp_key text_eq one_of
one_of-index_keys by_region v n =
    one_of-hit (region_key v) v (node_region n) _ _
      (text_eq_append (lit "region:") v (node_region n))
      (one_of-skip (region_key v) n.city _ _ refl
        ∙ (one_of-skip (region_key v) n.asn _ _ refl
            ∙ (one_of-skip (region_key v) n.isp _ [] refl ∙ refl)))
one_of-index_keys by_city v n =
    one_of-skip (city_key v) (node_region n) _ _ refl
    ∙ one_of-hit (city_key v) v n.city _ _ (text_eq_append (lit "city:") v n.city) (
        one_of-skip (city_key v) n.asn _ _ refl ∙ (one_of-skip (city_key v) n.isp _ [] refl ∙ refl))
one_of-index_keys by_asn v n =
    one_of-skip (asn_key v) (node_region n) _ _ refl
    ∙ (one_of-skip (asn_key v) n.city _ _ refl
        ∙ one_of-hit (asn_key v) v n.asn _ _ (text_eq_append (lit "asn:") v n.asn)
            (one_of-skip (asn_key v) n.isp _ [] refl ∙ refl))
one_of-index_keys by_isp v n =
    one_of-skip (isp_key v) (node_region n) _ _ refl
    ∙ (one_of-skip (isp_key v) n.city _ _ refl
        ∙ (one_of-skip (isp_key v) n.asn _ _ refl
            ∙ one_of-hit (isp_key v) v n.isp _ [] (text_eq_append (lit "isp:") v n.isp) (refl)))

pub one_of-index_of :
    (kind : Kind) (v : Text) (o : Option ProxyNode)
    → one_of (index_key kind v) (index_of o) ≡ has_value kind v o
one_of-index_of kind v none = unfold one_of in refl
one_of-index_of kind v (some n) = one_of-index_keys kind v n
