-- ===== src/Subscription/Body/Dialable.antt =====
-- What is promised of a parsed node, and the lemmas on protocol names, ports and tests that the
-- parsers share.
use mathlib.Core.Path.{subst}
use proxydeck.Prelude.{
  if◌then◌else◌, ◌≡◌, refl, Bool, true, false, not, ◌||◌, List, [], ◌∷◌, Option, none, some, arith,
  All,
}
use proxydeck.Prelude.Int.{ℤ, pos, leb_ℤ, ◌<ℤ◌}
use proxydeck.Prelude.Yields.{Yields}
use proxydeck.Errors.{Error, Result, ok, err}
use proxydeck.Strings.{Text, lit, text_eq, is_empty, to_lower, equal_fold}
use proxydeck.Strings.Space.{trim_space}
use proxydeck.Subscription.Protocol.{
  is_supported_outbound_protocol, is_trojan_protocol, normalize_proxy_protocol, normalized, one_of,
}
use proxydeck.Subscription.Node.{ParsedNode, add_node, or_empty}

-- The gateway knows the protocol, and a Trojan node is dialled over TLS.
pub record IsServed (n : ParsedNode) : Type 0 where
  pub supported : is_supported_outbound_protocol n.protocol ≡ true
  pub trojan_tls : (not (is_trojan_protocol n.protocol) || n.tls_enabled) ≡ true

-- The node has an address, too.
pub record IsDialable (n : ParsedNode) : Type 0 where
  pub served : IsServed n
  pub hosted : is_empty n.host ≡ false
  pub numbered : pos 0 <ℤ n.port

pub supported_names :
    (is_supported_outbound_protocol (lit "http") ≡ true)
    × (is_supported_outbound_protocol (lit "socks") ≡ true)
    × (is_supported_outbound_protocol (lit "ss") ≡ true)
    × (is_supported_outbound_protocol (lit "trojan") ≡ true)
    × (is_supported_outbound_protocol (lit "vless") ≡ true)
    × (is_supported_outbound_protocol (lit "vmess") ≡ true)
unfolding is_supported_outbound_protocol one_of normalized trim_space to_lower text_eq
supported_names = (refl, refl, refl, refl, refl, refl)

-- The protocols other than Trojan that the parsers write themselves.
pub not_trojan :
    (is_trojan_protocol (lit "http") ≡ false)
    × (is_trojan_protocol (lit "socks") ≡ false)
    × (is_trojan_protocol (lit "ss") ≡ false)
    × (is_trojan_protocol (lit "vless") ≡ false)
    × (is_trojan_protocol (lit "vmess") ≡ false)
unfolding is_trojan_protocol equal_fold trim_space
not_trojan = (refl, refl, refl, refl, refl)

pub normalize-supported :
    (v : Text)
    → is_empty (normalize_proxy_protocol v).0 ≡ false
    → is_supported_outbound_protocol (normalize_proxy_protocol v).0 ≡ true
unfolding normalize_proxy_protocol is_empty
normalize-supported v h = ground (arith, supported_names)

pub implied : (a b : Bool) → (a ≡ true → b ≡ true) → (not a || b) ≡ true
implied true b h = h refl
implied false b h = refl

pub numbered_lem : (port : ℤ) → leb_ℤ port (pos 0) ≡ false → pos 0 <ℤ port
numbered_lem port h = ground arith

pub or-false : (a b : Bool) → (a || b) ≡ false → (a ≡ false) × (b ≡ false)
or-false a b h = ground arith

pub or-true_left : (a b : Bool) → a ≡ true → (a || b) ≡ true
or-true_left a b h = rw h

pub not-false : (b : Bool) → not b ≡ false → b ≡ true
not-false b h = ground arith

-- A protocol that is not Trojan owes nothing.
pub trojan_free :
    (p : Text) (b : Bool) → is_trojan_protocol p ≡ false → is_trojan_protocol p ≡ true → b ≡ true
trojan_free p b no_trojan trojan = cc

module _ {P : ParsedNode → Type 0} where
  pub add_node-All :
      (o : Option ParsedNode) (nodes : List ParsedNode)
      → Yields P o
      → All P nodes
      → All P (add_node o nodes)
  add_node-All none nodes y h = h
  add_node-All (some n) nodes y h = (y.at n refl, h)

-- What holds of every node of a successful result.
pub record Returns (P : ParsedNode → Type 0) (r : Result (List ParsedNode)) : Type 0 where
  pub at : (nodes : List ParsedNode) → r ≡ ok nodes → All P nodes

module _ {P : ParsedNode → Type 0} where
  pub Returns-err : (e : Error) → Returns P (err e)
  Returns-err e = record { at = λ nodes h. cc }

  pub Returns-ok : (nodes : List ParsedNode) → All P nodes → Returns P (ok nodes)
  Returns-ok nodes h = record { at = λ ns e. let q : nodes ≡ ns = cc in subst (All P) q h }

  pub Returns-or_empty :
      (why : Text) (r : Result (List ParsedNode)) → Returns P r → Returns P (or_empty why r)
  Returns-or_empty why (ok []) h = Returns-err _
  Returns-or_empty why (ok (n ∷ nodes)) h = h
  Returns-or_empty why (err e) h = h

  pub Returns-if :
      (b : Bool) (r s : Result (List ParsedNode))
      → (b ≡ true → Returns P r)
      → (b ≡ false → Returns P s)
      → Returns P (if b then r else s)
  Returns-if true r s hr hs = hr refl
  Returns-if false r s hr hs = hs refl
