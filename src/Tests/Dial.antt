-- ===== src/Tests/Dial.antt =====
-- The theorems on upstream/direct_dial.go and auth/auth.go at a concrete network and cipher.
use proxydeck.Prelude.{
  ℕ, ◌≡◌, ◌⊎◌, inl, inr, refl, sym, ap, ◌∙◌, true, false, List, [], ◌∷◌, none, length,
}
use proxydeck.Errors.{Error, Result, ok, err}
use proxydeck.Strings.{Text, lit, is_empty}
use proxydeck.Model.{ProxyNode}
use proxydeck.Upstream.Frames.{Crypto}
use proxydeck.Upstream.Network.{Network, remove_first}
use proxydeck.Upstream.Dial.{dial_node}
use proxydeck.Upstream.Dial.Owned.{with_result}
use proxydeck.Upstream.Dial.Closed.{dial_node-closed}
use proxydeck.Auth.{Aead, encrypt, decrypt}
use proxydeck.Auth.RoundTrip.{decrypt-encrypt}
use proxydeck.Tests.{node}

abbrev plain_crypto : Crypto
plain_crypto = record {
  sha224_hex = λ t. t;
  md5_sum = λ b. b;
  cfb_encrypt = λ b k i. ok b;
  cfb_decrypt = λ b k i. ok b;
  fnv1a = λ b. 0;
}

-- A new connection gets the number of those that are open.
abbrev connect : List ℕ → Result ℕ × List ℕ
connect s = (ok (length s), length s ∷ s)

connects :
    (s : List ℕ) (c : ℕ) (t : List ℕ)
    → ◌≡◌ {A = Result ℕ × List ℕ} (ok (length s), length s ∷ s) (ok c, t)
    → t ≡ c ∷ s
connects s c t h =
    let e : length s ≡ c = ok-number (length s) c (ap (λ (p : Result ℕ × List ℕ). p.0) h) in
    let f : length s ∷ s ≡ t = ap (λ (p : Result ℕ × List ℕ). p.1) h in sym f ∙ ap (λ n. n ∷ s) e
  where
    ok-number : (a b : ℕ) → ◌≡◌ {A = Result ℕ} (ok a) (ok b) → a ≡ b
    ok-number a b q = cc

never_fails :
    (s : List ℕ) (e : Error) (t : List ℕ)
    → ◌≡◌ {A = Result ℕ × List ℕ} (ok (length s), length s ∷ s) (err e, t)
    → t ≡ s
never_fails s e t h =
    let q : ◌≡◌ {A = Result ℕ} (ok (length s)) (err e) = ap (λ (p : Result ℕ × List ℕ). p.0) h in cc

-- A network that always connects, on which no address of a target can be read.
abbrev network : Network
network = record {
  State = List ℕ;
  opened = λ s. s;
  dial = λ a s. connect s;
  dial_tls = λ a n b s. connect s;
  dial_socks = λ a u p x s. connect s;
  write = λ c b s. (none, s);
  write_secured = λ m p c b s. (none, s);
  read_full = λ c n s. (ok [], s);
  close = remove_first;
  nonces = λ s. (ok (record { key = []; iv = []; answer = 0 }), s);
  clock = λ s. 0;
  crypto = plain_crypto;
  decrypt = λ t. ok (lit "secret");
  pick_cipher = λ m p. none;
  parse_addr = λ t. none;
  parse_uuid = λ t. ok [];
  dial_ok = λ a s c t h. connects s c t h;
  dial_err = λ a s e t h. never_fails s e t h;
  dial_tls_ok = λ a n b s c t h. connects s c t h;
  dial_tls_err = λ a n b s e t h. never_fails s e t h;
  dial_socks_ok = λ a u p x s c t h. connects s c t h;
  dial_socks_err = λ a u p x s e t h. never_fails s e t h;
  write_ok = λ c b s. refl;
  write_secured_ok = λ m p c b s. refl;
  read_full_ok = λ c n s. refl;
  close_ok = λ c s. refl;
  nonces_ok = λ s. refl;
}

abbrev trojan_node : ProxyNode
trojan_node = record node { protocol = lit "trojan" }

dial_node-closed_example :
    (dial_node network trojan_node (lit "example.com:80") []).1
    ≡ with_result (dial_node network trojan_node (lit "example.com:80") []).0 []
dial_node-closed_example = dial_node-closed network trojan_node (lit "example.com:80") []

-- A cipher that leaves the text alone, with nonces of one byte.
abbrev clear : Aead
clear = record {
  nonce_size = 1;
  seal = λ nonce raw. raw;
  open_sealed = λ nonce t. ok t;
  encode = λ t. t;
  decode = λ t. ok t;
}

encodes : (t : Text) → (is_empty t ≡ true) ⊎ (is_empty t ≡ false)
unfolding is_empty
encodes [] = inl refl
encodes (c ∷ t) = inr refl

decrypt-encrypt_example : decrypt clear (lit "nhi") ≡ ok (lit "hi")
unfolding is_empty encrypt
decrypt-encrypt_example =
    decrypt-encrypt clear (λ t. refl) (λ nonce raw. refl) encodes (lit "n") (lit "hi") (lit "nhi")
      refl refl refl
