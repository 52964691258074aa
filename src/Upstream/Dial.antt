-- ===== src/Upstream/Dial.antt =====
-- The dialers of upstream/direct_dial.go for Shadowsocks, Trojan, VLESS and VMess. The network, the
-- decryption, the ciphers and the parsers of addresses and ids are an interface.
pub mod Owned
pub mod Closed
use proxydeck.Prelude.{
  ℕ, ◌≡◌, ◌==◌, Bool, true, false, ◌||◌, List, [], ◌∷◌, ◌++◌, Option, none, some, get_or,
  if◌then◌else◌,
}
use proxydeck.Prelude.Int.{ℤ}
use proxydeck.Errors.{Error, Result, ok, err, message}
use proxydeck.Strings.{Text, lit, is_empty}
use proxydeck.Strings.Space.{trim_space}
use proxydeck.Model.{ProxyNode}
use proxydeck.Redis.{Err}
use proxydeck.Subscription.Node.{host_port}
use proxydeck.Upstream.{
  Dialer, socks_dialer, shadowsocks_dialer, trojan_dialer, vless_dialer, vmess_dialer, dial_target,
}
use proxydeck.Upstream.Network.{Network}
use proxydeck.Upstream.Frames.{
  Bytes, Crypto, Nonces, VmessFrame, build_trojan_connect_frame, build_vless_connect_frame,
  build_vmess_connect_frame,
}

-- `serverName`, or the host where it is blank
unfoldable pub server_name_of : ProxyNode → Text
server_name_of node =
    if is_empty (trim_space node.server_name) then node.host else trim_space node.server_name

abbrev pub invalid_target : Text → Error
invalid_target target = message (lit "invalid target address: " ++ target)

module _ (n : Network) where
  open n use {State}

  abbrev pub given {ℓ} :
      {A : Type ℓ} → Result A → (A → State → Result ℕ × State) → State → Result ℕ × State
  given (err e) k s = (err e, s)
  given (ok a) k s = k a s

  abbrev pub connected : Result ℕ × State → (ℕ → State → Result ℕ × State) → Result ℕ × State
  connected (err e, s) k = (err e, s)
  connected (ok c, s) k = k c s

  -- `if err != nil { _ = conn.Close(); return nil, err }`
  abbrev pub or_close : ℕ → Err × State → (State → Result ℕ × State) → Result ℕ × State
  or_close c (some e, s) k = (err e, n.close c s)
  or_close c (none, s) k = k s

  abbrev pub or_close_with {ℓ} :
      {A : Type ℓ} → ℕ → Result A × State → (A → State → Result ℕ × State) → Result ℕ × State
  or_close_with c (err e, s) k = (err e, n.close c s)
  or_close_with c (ok a, s) k = k a s

  abbrev pub target_or_close :
      ℕ → Text → Option Bytes → (Bytes → State → Result ℕ × State) → State → Result ℕ × State
  target_or_close c target none k s = (err (invalid_target target), n.close c s)
  target_or_close c target (some addr) k s = k addr s

  abbrev pub target_or_fail :
      Text → Option Bytes → (Bytes → State → Result ℕ × State) → State → Result ℕ × State
  target_or_fail target none k s = (err (invalid_target target), s)
  target_or_fail target (some addr) k s = k addr s

  unfoldable pub dial_maybe_tls : ProxyNode → State → Result ℕ × State
  unfolding server_name_of
  dial_maybe_tls node s =
      if node.tls_enabled
      then n.dial_tls (host_port node.host node.port) (server_name_of node) node.tls_skip_verify s
      else n.dial (host_port node.host node.port) s

  unfoldable pub dial_socks_target : ProxyNode → Text → State → Result ℕ × State
  dial_socks_target node target s =
      given (n.decrypt node.upstream_username_enc)
        (λ user t.
          given (n.decrypt node.upstream_password_enc)
            (λ pass u. n.dial_socks (host_port node.host node.port) user pass target u) t)
        s

  unfoldable pub shadowsocks_on : Text → Text → Text → ℕ → State → Result ℕ × State
  shadowsocks_on method secret target c s =
      target_or_close c target (n.parse_addr target)
        (λ addr t. or_close c (n.write_secured method secret c addr t) (λ u. (ok c, u))) s

  abbrev pub as_result : Err → Result (Unit {0})
  as_result none = ok tt
  as_result (some e) = err e

  unfoldable pub dial_shadowsocks_with : ProxyNode → Text → Text → Text → State → Result ℕ × State
  unfolding shadowsocks_on
  dial_shadowsocks_with node target method secret s =
      if is_empty method || is_empty secret
      then (err (message (lit "shadowsocks node missing method or password")), s)
      else given (as_result (n.pick_cipher method secret))
          (λ done t.
            connected (n.dial (host_port node.host node.port) t)
              (shadowsocks_on method secret target))
          s

  unfoldable pub dial_shadowsocks_target : ProxyNode → Text → State → Result ℕ × State
  unfolding dial_shadowsocks_with
  dial_shadowsocks_target node target s =
      given (n.decrypt node.upstream_username_enc)
        (λ method t.
          given (n.decrypt node.upstream_password_enc)
            (λ secret u.
              dial_shadowsocks_with node target (trim_space method) (trim_space secret) u)
            t)
        s

  unfoldable pub trojan_on : Text → Text → ℕ → State → Result ℕ × State
  trojan_on secret target c s =
      target_or_close c target (n.parse_addr target)
        (λ addr t.
          or_close c (n.write c (build_trojan_connect_frame n.crypto secret addr) t)
            (λ u. (ok c, u)))
        s

  unfoldable pub dial_trojan_target : ProxyNode → Text → State → Result ℕ × State
  unfolding trojan_on server_name_of
  dial_trojan_target node target s =
      given (n.decrypt node.upstream_password_enc)
        (λ raw t.
          if is_empty (trim_space raw)
          then (err (message (lit "trojan node missing password")), t)
          else connected
              (n.dial_tls (host_port node.host node.port) (server_name_of node) node.tls_skip_verify
                t)
              (trojan_on (trim_space raw) target))
        s

  abbrev pub error_of {ℓ} : {A : Type ℓ} → Result A → Err
  error_of (err e) = some e
  error_of (ok a) = none

  abbrev pub read_rest : Result Bytes × State → Err × State
  read_rest p = (error_of p.0, p.1)

  abbrev pub skip_addons : ℕ → Result Bytes × State → Err × State
  skip_addons c (err e, s) = (some e, s)
  skip_addons c (ok header, s) =
      let len = get_or header 1 0 in if len == 0 then (none, s) else read_rest (n.read_full c len s)

  unfoldable pub consume_vless_response : ℕ → State → Err × State
  consume_vless_response c s = skip_addons c (n.read_full c 2 s)

  unfoldable pub vless_on : Bytes → Bytes → ℕ → State → Result ℕ × State
  unfolding consume_vless_response
  vless_on user_id addr c s =
      or_close c (n.write c (build_vless_connect_frame user_id addr) s)
        (λ t. or_close c (consume_vless_response c t) (λ u. (ok c, u)))

  unfoldable pub dial_vless_target : ProxyNode → Text → State → Result ℕ × State
  unfolding vless_on dial_maybe_tls
  dial_vless_target node target s =
      given (n.decrypt node.upstream_username_enc)
        (λ text t.
          given (n.parse_uuid (trim_space text))
            (λ user_id u.
              target_or_fail target (n.parse_addr target)
                (λ addr v. connected (dial_maybe_tls node v) (vless_on user_id addr)) u)
            t)
        s

  abbrev pub decrypted : Bytes → Bytes → Result Bytes × State → Err × State
  decrypted key iv (err e, s) = (some e, s)
  decrypted key iv (ok extra, s) = (error_of (n.crypto.cfb_decrypt extra key iv), s)

  abbrev pub read_extra : ℕ → Bytes → Bytes → Result Bytes → State → Err × State
  read_extra c key iv (err e) s = (some e, s)
  read_extra c key iv (ok plain) s =
      let len = get_or plain 3 0 in
      if len == 0 then (none, s) else decrypted key iv (n.read_full c len s)

  abbrev pub read_header : ℕ → Bytes → Bytes → Result Bytes × State → Err × State
  read_header c key iv (err e, s) = (some e, s)
  read_header c key iv (ok header, s) = read_extra c key iv (n.crypto.cfb_decrypt header key iv) s

  unfoldable pub consume_vmess_response : ℕ → Bytes → Bytes → State → Err × State
  consume_vmess_response c key iv s = read_header c key iv (n.read_full c 4 s)

  abbrev pub framed : Bytes → Bytes → Result Nonces × State → Result VmessFrame × State
  framed user_id addr (err e, s) = (err e, s)
  framed user_id addr (ok r, s) = (build_vmess_connect_frame n.crypto r (n.clock s) user_id addr, s)

  unfoldable pub vmess_on : Bytes → Bytes → ℕ → State → Result ℕ × State
  unfolding consume_vmess_response
  vmess_on user_id addr c s = or_close_with c (framed user_id addr (n.nonces s)) (λ f t.
      or_close c (n.write c f.packet t)
        (λ u. or_close c (consume_vmess_response c f.key f.iv u) (λ v. (ok c, v))))

  unfoldable pub dial_vmess_target : ProxyNode → Text → State → Result ℕ × State
  unfolding vmess_on dial_maybe_tls
  dial_vmess_target node target s =
      given (n.decrypt node.upstream_username_enc)
        (λ text t.
          given (n.parse_uuid (trim_space text))
            (λ user_id u.
              target_or_fail target (n.parse_addr target)
                (λ addr v. connected (dial_maybe_tls node v) (vmess_on user_id addr)) u)
            t)
        s

  -- The dialer that `DialTarget` chooses.
  abbrev pub run_dialer : Dialer → ProxyNode → Text → State → Result ℕ × State
  run_dialer socks_dialer node target s = dial_socks_target node target s
  run_dialer shadowsocks_dialer node target s = dial_shadowsocks_target node target s
  run_dialer trojan_dialer node target s = dial_trojan_target node target s
  run_dialer vless_dialer node target s = dial_vless_target node target s
  run_dialer vmess_dialer node target s = dial_vmess_target node target s

  -- `DialTarget`
  unfoldable pub dial_node : ProxyNode → Text → State → Result ℕ × State
  unfolding dial_target dial_socks_target dial_shadowsocks_target dial_trojan_target
      dial_vless_target dial_vmess_target
  dial_node node target s = given (dial_target node) (λ d t. run_dialer d node target t) s
