-- ===== src/Auth/RoundTrip.antt =====
-- What `Encrypt` of auth/auth.go returns is read back by `Decrypt`.
use mathlib.Core.Path.{subst}
use proxydeck.Prelude.{
  ◌≡◌, refl, sym, ap, true, false, [], ◌∷◌, ◌++◌, length, drop_append, length-append, arith, ltb,
  inl, inr, ◌⊎◌,
}
use proxydeck.Errors.{Result, ok}
use proxydeck.Strings.{Text, is_empty}
use proxydeck.Stats.Flush.{take}
use proxydeck.Auth.{Aead, opened, encrypt, decrypt}

take_append : (a b : Text) → take (length a) (a ++ b) ≡ a
take_append [] b = refl
take_append (c ∷ a) b = ap (λ s. c ∷ s) (take_append a b)

ok-text : (s t : Text) → ◌≡◌ {A = Result Text} (ok s) (ok t) → s ≡ t
ok-text s t h = cc

module _ (a : Aead) (decodes : (t : Text) → a.decode (a.encode t) ≡ ok t)
    (opens : (nonce raw : Text) → a.open_sealed nonce (a.seal nonce raw) ≡ ok raw)
    (encodes : (t : Text) → (is_empty t ≡ true) ⊎ (is_empty (a.encode t) ≡ false)) where
  opened_back :
      (nonce raw : Text)
      → length nonce ≡ a.nonce_size
      → opened a (nonce ++ a.seal nonce raw) ≡ ok raw
  opened_back nonce raw h =
      let rest = a.seal nonce raw in
      let l : ltb (length (nonce ++ rest)) (length nonce) ≡ false =
        let q = length-append nonce rest in ground (arith, q) in
      rw (sym h, l, take_append nonce rest, drop_append nonce rest) (opens nonce raw)

  filled :
      (nonce rest : Text)
      → is_empty nonce ≡ false
      → (is_empty (nonce ++ rest) ≡ true) ⊎ (is_empty (a.encode (nonce ++ rest)) ≡ false)
      → is_empty (a.encode (nonce ++ rest)) ≡ false
  unfolding is_empty
  filled [] rest h o = cc
  filled (c ∷ nonce) rest h (inl o) = cc
  filled (c ∷ nonce) rest h (inr o) = o

  packed_back :
      (nonce raw : Text)
      → length nonce ≡ a.nonce_size
      → is_empty nonce ≡ false
      → decrypt a (a.encode (nonce ++ a.seal nonce raw)) ≡ ok raw
  unfolding decrypt
  packed_back nonce raw h ne =
      rw (filled nonce (a.seal nonce raw) ne (encodes _), decodes (nonce ++ a.seal nonce raw))
        (opened_back nonce raw h)

  -- A text that Encrypt has encrypted is what Decrypt returns for the result, if the nonce has the
  -- cipher's size and is not empty, base64 decodes what it encodes and gives no empty text for one
  -- that is not, and the cipher opens what it seals.
  pub decrypt-encrypt :
      (nonce raw enc : Text)
      → length nonce ≡ a.nonce_size
      → is_empty nonce ≡ false
      → encrypt a (ok nonce) raw ≡ ok enc
      → decrypt a enc ≡ ok raw
  decrypt-encrypt nonce [] enc h ne e =
      let q : [] ≡ enc = unfold encrypt is_empty in ok-text [] enc e in
      subst (λ t. decrypt a t ≡ ok []) q (unfold decrypt is_empty in refl)
  decrypt-encrypt nonce (c ∷ raw) enc h ne e =
      let packed = nonce ++ a.seal nonce (c ∷ raw) in
      let q : a.encode packed ≡ enc = unfold encrypt is_empty in ok-text (a.encode packed) enc e in
      subst (λ t. decrypt a t ≡ ok (c ∷ raw)) q (packed_back nonce (c ∷ raw) h ne)
