-- ===== src/Upstream/Dial/Owned.antt =====
-- Which connections the steps of a dialer of upstream/direct_dial.go leave open.
use proxydeck.Prelude.{
  ℕ, ◌≡◌, ◌∙◌, refl, ap, ◌==◌, Bool, true, List, ◌∷◌, Option, none, some, arith, Bool-cases, inl,
  inr,
}
use proxydeck.Errors.{Result, ok, err}
use proxydeck.Strings.{Text}
use proxydeck.Model.{ProxyNode}
use proxydeck.Redis.{Err}
use proxydeck.Upstream.Network.{Network}
use proxydeck.Upstream.Frames.{Bytes}
use proxydeck.Upstream.Dial.{
  given, connected, or_close, or_close_with, target_or_close, target_or_fail, dial_maybe_tls,
  dial_socks_target,
}

-- The connections that are open behind a dialer: one more if it returns one.
abbrev pub with_result : Result ℕ → List ℕ → List ℕ
with_result (err e) cs = cs
with_result (ok c) cs = c ∷ cs

module _ (n : Network) where
  open n use {State}

  abbrev pub Owns : List ℕ → Result ℕ × State → Type 0
  Owns cs p = n.opened p.1 ≡ with_result p.0 cs

  pub given-Owns {ℓ} :
      {A : Type ℓ} (cs : List ℕ) (res : Result A) (k : A → State → Result ℕ × State) (s : State)
      → n.opened s ≡ cs
      → ((a : A) (t : State) → n.opened t ≡ cs → Owns cs (k a t))
      → Owns cs (given n res k s)
  given-Owns cs (err e) k s h f = h
  given-Owns cs (ok a) k s h f = f a s h

  pub connected-Owns :
      (cs : List ℕ) (p : Result ℕ × State) (k : ℕ → State → Result ℕ × State)
      → Owns cs p
      → ((c : ℕ) (t : State) → n.opened t ≡ c ∷ cs → Owns cs (k c t))
      → Owns cs (connected n p k)
  connected-Owns cs (err e, s) k h f = h
  connected-Owns cs (ok c, s) k h f = f c s h

  closes : (c : ℕ) (cs : List ℕ) (s : State) → n.opened s ≡ c ∷ cs → n.opened (n.close c s) ≡ cs
  closes c cs s h = let q : (c == c) ≡ true = ground arith in n.close_ok c s ∙ rw (h, q) refl

  pub or_close-Owns :
      (c : ℕ) (cs : List ℕ) (p : Err × State) (k : State → Result ℕ × State)
      → n.opened p.1 ≡ c ∷ cs
      → ((t : State) → n.opened t ≡ c ∷ cs → Owns cs (k t))
      → Owns cs (or_close n c p k)
  or_close-Owns c cs (some e, s) k h f = closes c cs s h
  or_close-Owns c cs (none, s) k h f = f s h

  pub or_close_with-Owns {ℓ} :
      {A : Type ℓ} (c : ℕ) (cs : List ℕ) (p : Result A × State) (k : A → State → Result ℕ × State)
      → n.opened p.1 ≡ c ∷ cs
      → ((a : A) (t : State) → n.opened t ≡ c ∷ cs → Owns cs (k a t))
      → Owns cs (or_close_with n c p k)
  or_close_with-Owns c cs (err e, s) k h f = closes c cs s h
  or_close_with-Owns c cs (ok a, s) k h f = f a s h

  pub target_or_close-Owns :
      (c : ℕ) (cs : List ℕ) (target : Text) (o : Option Bytes)
      (k : Bytes → State → Result ℕ × State) (s : State)
      → n.opened s ≡ c ∷ cs
      → ((a : Bytes) (t : State) → n.opened t ≡ c ∷ cs → Owns cs (k a t))
      → Owns cs (target_or_close n c target o k s)
  target_or_close-Owns c cs target none k s h f = closes c cs s h
  target_or_close-Owns c cs target (some a) k s h f = f a s h

  pub target_or_fail-Owns :
      (cs : List ℕ) (target : Text) (o : Option Bytes) (k : Bytes → State → Result ℕ × State)
      (s : State)
      → n.opened s ≡ cs
      → ((a : Bytes) (t : State) → n.opened t ≡ cs → Owns cs (k a t))
      → Owns cs (target_or_fail n target o k s)
  target_or_fail-Owns cs target none k s h f = h
  target_or_fail-Owns cs target (some a) k s h f = f a s h

  pub dial-Owns :
      (a : Text) (cs : List ℕ) (s : State) (p : Result ℕ × State)
      → n.dial a s ≡ p
      → n.opened s ≡ cs
      → Owns cs p
  dial-Owns a cs s (err e, t) q h = n.dial_err a s e t q ∙ h
  dial-Owns a cs s (ok c, t) q h = n.dial_ok a s c t q ∙ ap (λ xs. c ∷ xs) h

  pub dial_tls-Owns :
      (a m : Text) (b : Bool) (cs : List ℕ) (s : State) (p : Result ℕ × State)
      → n.dial_tls a m b s ≡ p
      → n.opened s ≡ cs
      → Owns cs p
  dial_tls-Owns a m b cs s (err e, t) q h = n.dial_tls_err a m b s e t q ∙ h
  dial_tls-Owns a m b cs s (ok c, t) q h = n.dial_tls_ok a m b s c t q ∙ ap (λ xs. c ∷ xs) h

  pub dial_socks-Owns :
      (a u p x : Text) (cs : List ℕ) (s : State) (o : Result ℕ × State)
      → n.dial_socks a u p x s ≡ o
      → n.opened s ≡ cs
      → Owns cs o
  dial_socks-Owns a u p x cs s (err e, t) q h = n.dial_socks_err a u p x s e t q ∙ h
  dial_socks-Owns a u p x cs s (ok c, t) q h = n.dial_socks_ok a u p x s c t q ∙ ap (λ xs. c ∷ xs) h

  pub maybe_tls-Owns :
      (node : ProxyNode) (cs : List ℕ) (s : State)
      → n.opened s ≡ cs
      → Owns cs (dial_maybe_tls n node s)
  unfolding dial_maybe_tls
  maybe_tls-Owns node cs s h = elim (Bool-cases node.tls_enabled) [
    | inl e ↦ rw e (dial_tls-Owns _ _ _ cs s _ refl h)
    | inr e ↦ rw e (dial-Owns _ cs s _ refl h)
  ]

  pub socks-Owns :
      (node : ProxyNode) (target : Text) (cs : List ℕ) (s : State)
      → n.opened s ≡ cs
      → Owns cs (dial_socks_target n node target s)
  unfolding dial_socks_target
  socks-Owns node target cs s h =
      given-Owns cs (n.decrypt node.upstream_username_enc) _ s h (λ user t h1.
        given-Owns cs (n.decrypt node.upstream_password_enc) _ t h1
          (λ pass u h2. dial_socks-Owns _ user pass target cs u _ refl h2))
