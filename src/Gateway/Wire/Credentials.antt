-- ===== src/Gateway/Wire/Credentials.antt =====
-- The credentials for a proxy in what `writeProxyRequest` of proxy/gateway.go writes.
use mathlib.Core.Path.{subst}
use proxydeck.Prelude.{
  ℕ, Bool-cases, ◌||◌, drop, length, ◌≡◌, refl, ap, ◌⊎◌, inl, inr, arith, true, false, [], ◌∷◌,
  ◌++◌, some,
}
use proxydeck.Strings.{Text, is_empty}
use proxydeck.Strings.Split.{has_prefix, contains, cut}
use proxydeck.Errors.{Result, ok}
use proxydeck.Redis.{Err}
use proxydeck.Gateway.{Request}
use proxydeck.Gateway.Wire.{crlf, header_start, proxy_text, write_proxy_request}

has_prefix-drop : (s p : Text) → has_prefix s p ≡ true → s ≡ p ++ drop (length p) s
unfolding has_prefix
has_prefix-drop s [] h = refl
has_prefix-drop [] (d ∷ p) h = ground arith
has_prefix-drop (c ∷ s) (d ∷ p) h = ground (arith, has_prefix-drop s p)

abbrev Parted : Text → Text → Text × Text → Type 0
Parted s p (a, b) = s ≡ a ++ (p ++ b)

has_prefix-shorter : (a x p : Text) → has_prefix (a ++ x) p ≡ false → has_prefix a p ≡ false
unfolding has_prefix
has_prefix-shorter a x [] h = h
has_prefix-shorter [] x (d ∷ p) h = refl
has_prefix-shorter (c ∷ a) x (d ∷ p) h = ground (arith, has_prefix-shorter a x p)

-- Parted at the first occurrence.
abbrev pub First : Text → Text → Text × Text → Type 0
First s p q = Parted s p q × (contains q.0 p ≡ false)

First-cons :
    (c : ℕ) (s p : Text) (q : Text × Text)
    → has_prefix (c ∷ s) p ≡ false
    → First s p q
    → First (c ∷ s) p (c ∷ q.0, q.1)
unfolding contains
First-cons c s p q f r =
    let g : has_prefix (c ∷ q.0) p ≡ false =
      has_prefix-shorter (c ∷ q.0) (p ++ q.1) p (subst (λ z. has_prefix (c ∷ z) p ≡ false) r.0 f) in
    (ap (λ z. c ∷ z) r.0, rw (g, r.1) refl)

contains-cut :
    (s : Text) (d : ℕ) (p : Text)
    → contains s (d ∷ p) ≡ true
    → (q : Text × Text) × ((cut s (d ∷ p) ≡ some q) × First s (d ∷ p) q)
unfolding contains cut has_prefix
contains-cut [] d p h = ground arith
contains-cut (c ∷ s) d p h = elim (Bool-cases (has_prefix (c ∷ s) (d ∷ p))) [
  | inl t ↦
      (([], drop (length (d ∷ p)) (c ∷ s)), (rw t refl, (has_prefix-drop (c ∷ s) (d ∷ p) t, refl)))
  | inr f ↦
      let (q, r) = contains-cut s d p (subst (λ b. (b || contains s (d ∷ p)) ≡ true) f h) in
      ((c ∷ q.0, q.1), (rw (f, r.0) refl, First-cons c s (d ∷ p) q f r.1))
]

-- The header with `value` between the first line of `raw` and the rest.
abbrev pub Inserted : Text → Text → Text → Type 0
Inserted value raw text =
    (q : Text × Text) × (First raw crlf q
      × (text ≡ q.0 ++ (header_start ++ (value ++ (crlf ++ q.1)))))

-- What is written for a form, with or without the text of such a header.
abbrev pub Carries : Text → Text → Text → Type 0
Carries value raw text =
    ((contains raw header_start ≡ true) × (text ≡ raw))
    ⊎ ((contains raw header_start ≡ false) × Inserted value raw text)

proxy_text-Carries :
    (value raw : Text)
    → is_empty value ≡ false
    → contains raw crlf ≡ true
    → Carries value raw (proxy_text value raw)
unfolding proxy_text
proxy_text-Carries value raw h l = elim (Bool-cases (contains raw header_start)) [
  | inl y ↦ inl (y, rw (h, y) refl)
  | inr n ↦
      let (q, r) = contains-cut raw b'\r' (b'\n' ∷ []) l in inr (n, (q, (r.1, rw (h, n, r.0) refl)))
]

module _ {S : Type 0} (write : Text → S → Err × S) (form : Request → S → Result Text × S) where
  -- Where the request has credentials for the proxy, and its form has the end of a line,
  -- `writeProxyRequest` writes one text: the form, if the text of such a header is somewhere in it
  -- already, and otherwise the form with the header of these credentials behind its first line.
  pub write_proxy_request-Carries :
      (req : Request) (s t : S) (raw : Text)
      → form req s ≡ (ok raw, t)
      → is_empty req.proxy_authorization ≡ false
      → contains raw crlf ≡ true
      → (text : Text) × ((write_proxy_request write form req s ≡ write text t)
          × Carries req.proxy_authorization raw text)
  unfolding write_proxy_request
  write_proxy_request-Carries req s t raw f h l =
      (proxy_text req.proxy_authorization raw, (rw f refl, proxy_text-Carries _ raw h l))
