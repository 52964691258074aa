-- ===== src/Upstream/Network.antt =====
-- What upstream/direct_dial.go calls of packages net, crypto/tls, golang.org/x/net/proxy,
-- go-shadowsocks2 and uuid, as an interface. The laws say which connections are open.
use proxydeck.Prelude.{ℕ, ◌≡◌, ◌==◌, Bool, List, [], ◌∷◌, Option, if◌then◌else◌}
use proxydeck.Errors.{Error, Result, ok, err}
use proxydeck.Strings.{Text}
use proxydeck.Redis.{Err}
use proxydeck.Upstream.Frames.{Bytes, Crypto, Nonces}

abbrev pub remove_first : ℕ → List ℕ → List ℕ
remove_first c [] = []
remove_first c (d ∷ cs) = let rest = remove_first c cs in if c == d then cs else d ∷ rest

-- A connection is a number; `opened` are those that are open.
pub record Network : Type 1 where
  pub State : Type 0
  pub opened : State → List ℕ
  pub dial : Text → State → Result ℕ × State
  -- with the name of the server and whether its certificate is not verified
  pub dial_tls : Text → Text → Bool → State → Result ℕ × State
  -- SOCKS5 with a user and a password, to a target
  pub dial_socks : Text → Text → Text → Text → State → Result ℕ × State
  pub write : ℕ → Bytes → State → Err × State
  -- through the cipher of a method and a password
  pub write_secured : Text → Text → ℕ → Bytes → State → Err × State
  -- io.ReadFull
  pub read_full : ℕ → ℕ → State → Result Bytes × State
  pub close : ℕ → State → State
  pub nonces : State → Result Nonces × State
  pub clock : State → ℕ
  pub crypto : Crypto
  pub decrypt : Text → Result Text
  pub pick_cipher : Text → Text → Err
  pub parse_addr : Text → Option Bytes
  pub parse_uuid : Text → Result Bytes
  pub dial_ok :
      (a : Text) (s : State) (c : ℕ) (t : State) → dial a s ≡ (ok c, t) → opened t ≡ c ∷ opened s
  pub dial_err :
      (a : Text) (s : State) (e : Error) (t : State) → dial a s ≡ (err e, t) → opened t ≡ opened s
  pub dial_tls_ok :
      (a n : Text) (b : Bool) (s : State) (c : ℕ) (t : State)
      → dial_tls a n b s ≡ (ok c, t)
      → opened t ≡ c ∷ opened s
  pub dial_tls_err :
      (a n : Text) (b : Bool) (s : State) (e : Error) (t : State)
      → dial_tls a n b s ≡ (err e, t)
      → opened t ≡ opened s
  pub dial_socks_ok :
      (a u p x : Text) (s : State) (c : ℕ) (t : State)
      → dial_socks a u p x s ≡ (ok c, t)
      → opened t ≡ c ∷ opened s
  pub dial_socks_err :
      (a u p x : Text) (s : State) (e : Error) (t : State)
      → dial_socks a u p x s ≡ (err e, t)
      → opened t ≡ opened s
  pub write_ok : (c : ℕ) (b : Bytes) (s : State) → opened (write c b s).1 ≡ opened s
  pub write_secured_ok :
      (m p : Text) (c : ℕ) (b : Bytes) (s : State) → opened (write_secured m p c b s).1 ≡ opened s
  pub read_full_ok : (c n : ℕ) (s : State) → opened (read_full c n s).1 ≡ opened s
  pub close_ok : (c : ℕ) (s : State) → opened (close c s) ≡ remove_first c (opened s)
  pub nonces_ok : (s : State) → opened (nonces s).1 ≡ opened s
