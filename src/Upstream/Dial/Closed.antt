-- ===== src/Upstream/Dial/Closed.antt =====
-- Which connections the dialers of upstream/direct_dial.go leave open.
use proxydeck.Prelude.{ℕ, ◌≡◌, ◌∙◌, refl, ◌==◌, ◌||◌, List, ◌∷◌, Bool-cases, inl, inr, get_or}
use proxydeck.Errors.{Result, ok, err}
use proxydeck.Strings.{Text, is_empty}
use proxydeck.Strings.Space.{trim_space}
use proxydeck.Model.{ProxyNode}
use proxydeck.Subscription.Node.{host_port}
use proxydeck.Upstream.{
  Dialer, socks_dialer, shadowsocks_dialer, trojan_dialer, vless_dialer, vmess_dialer,
}
use proxydeck.Upstream.Network.{Network}
use proxydeck.Upstream.Frames.{Bytes, Nonces}
use proxydeck.Upstream.Dial.{
  shadowsocks_on, dial_shadowsocks_with, dial_shadowsocks_target, trojan_on, dial_trojan_target,
  consume_vless_response, vless_on, dial_vless_target, consume_vmess_response, vmess_on,
  dial_vmess_target, run_dialer, dial_node, skip_addons, read_extra, read_header, decrypted, framed,
}
use proxydeck.Upstream.Dial.Owned.{
  Owns, with_result, connected-Owns, dial-Owns, dial_tls-Owns, given-Owns, maybe_tls-Owns,
  or_close-Owns, or_close_with-Owns, socks-Owns, target_or_close-Owns, target_or_fail-Owns,
}

module _ (n : Network) where
  open n use {State}

  shadowsocks_on-Owns :
      (method secret target : Text) (c : ℕ) (cs : List ℕ) (s : State)
      → n.opened s ≡ c ∷ cs
      → Owns n cs (shadowsocks_on n method secret target c s)
  unfolding shadowsocks_on
  shadowsocks_on-Owns method secret target c cs s h =
      target_or_close-Owns n c cs target (n.parse_addr target) _ s h (λ addr t h1.
        or_close-Owns n c cs (n.write_secured method secret c addr t) _
          (n.write_secured_ok method secret c addr t ∙ h1) (λ u h2. h2))

  shadowsocks_with-Owns :
      (node : ProxyNode) (target method secret : Text) (cs : List ℕ) (s : State)
      → n.opened s ≡ cs
      → Owns n cs (dial_shadowsocks_with n node target method secret s)
  unfolding dial_shadowsocks_with
  shadowsocks_with-Owns node target method secret cs s h =
      elim (Bool-cases (is_empty method || is_empty secret)) [
        | inl e ↦ rw e h
        | inr e ↦ rw e (
            given-Owns n cs _ _ s h (λ done t h1.
              connected-Owns n cs (n.dial (host_port node.host node.port) t) _
                (dial-Owns n _ cs t _ refl h1)
                (λ c u h2. shadowsocks_on-Owns method secret target c cs u h2)))
      ]

  shadowsocks-Owns :
      (node : ProxyNode) (target : Text) (cs : List ℕ) (s : State)
      → n.opened s ≡ cs
      → Owns n cs (dial_shadowsocks_target n node target s)
  unfolding dial_shadowsocks_target
  shadowsocks-Owns node target cs s h =
      given-Owns n cs (n.decrypt node.upstream_username_enc) _ s h (λ method t h1.
        given-Owns n cs (n.decrypt node.upstream_password_enc) _ t h1 (λ secret u h2.
          shadowsocks_with-Owns node target (trim_space method) (trim_space secret) cs u h2))

  trojan_on-Owns :
      (secret target : Text) (c : ℕ) (cs : List ℕ) (s : State)
      → n.opened s ≡ c ∷ cs
      → Owns n cs (trojan_on n secret target c s)
  unfolding trojan_on
  trojan_on-Owns secret target c cs s h =
      target_or_close-Owns n c cs target (n.parse_addr target) _ s h
        (λ addr t h1. or_close-Owns n c cs (n.write c _ t) _ (n.write_ok c _ t ∙ h1) (λ u h2. h2))

  trojan-Owns :
      (node : ProxyNode) (target : Text) (cs : List ℕ) (s : State)
      → n.opened s ≡ cs
      → Owns n cs (dial_trojan_target n node target s)
  unfolding dial_trojan_target
  trojan-Owns node target cs s h =
      given-Owns n cs (n.decrypt node.upstream_password_enc) _ s h (λ raw t h1.
        elim (Bool-cases (is_empty (trim_space raw))) [
          | inl e ↦ rw e h1
          | inr e ↦ rw e (
              connected-Owns n cs _ _ (dial_tls-Owns n _ _ _ cs t _ refl h1)
                (λ c u h2. trojan_on-Owns (trim_space raw) target c cs u h2))
        ])

  skip_addons-opened :
      (c : ℕ) (p : Result Bytes × State) → n.opened (skip_addons n c p).1 ≡ n.opened p.1
  skip_addons-opened c (err e, s) = refl
  skip_addons-opened c (ok header, s) = elim (Bool-cases (get_or header 1 0 == 0)) [
    | inl e ↦ rw e refl
    | inr e ↦ rw e (n.read_full_ok c (get_or header 1 0) s)
  ]

  vless_response-opened :
      (c : ℕ) (s : State) → n.opened (consume_vless_response n c s).1 ≡ n.opened s
  unfolding consume_vless_response
  vless_response-opened c s = skip_addons-opened c (n.read_full c 2 s) ∙ n.read_full_ok c 2 s

  vless_on-Owns :
      (id addr : Bytes) (c : ℕ) (cs : List ℕ) (s : State)
      → n.opened s ≡ c ∷ cs
      → Owns n cs (vless_on n id addr c s)
  unfolding vless_on
  vless_on-Owns id addr c cs s h =
      or_close-Owns n c cs (n.write c _ s) _ (n.write_ok c _ s ∙ h) (λ t h1.
        or_close-Owns n c cs (consume_vless_response n c t) _ (vless_response-opened c t ∙ h1)
          (λ u h2. h2))

  vless-Owns :
      (node : ProxyNode) (target : Text) (cs : List ℕ) (s : State)
      → n.opened s ≡ cs
      → Owns n cs (dial_vless_target n node target s)
  unfolding dial_vless_target
  vless-Owns node target cs s h =
      given-Owns n cs (n.decrypt node.upstream_username_enc) _ s h (λ text t h1.
        given-Owns n cs (n.parse_uuid (trim_space text)) _ t h1 (λ id u h2.
          target_or_fail-Owns n cs target (n.parse_addr target) _ u h2 (λ addr v h3.
            connected-Owns n cs _ _ (maybe_tls-Owns n node cs v h3)
              (λ c w h4. vless_on-Owns id addr c cs w h4))))

  decrypted-opened :
      (key iv : Bytes) (p : Result Bytes × State) → n.opened (decrypted n key iv p).1 ≡ n.opened p.1
  decrypted-opened key iv (err e, s) = refl
  decrypted-opened key iv (ok extra, s) = refl

  read_extra-opened :
      (c : ℕ) (key iv : Bytes) (res : Result Bytes) (s : State)
      → n.opened (read_extra n c key iv res s).1 ≡ n.opened s
  read_extra-opened c key iv (err e) s = refl
  read_extra-opened c key iv (ok plain) s = elim (Bool-cases (get_or plain 3 0 == 0)) [
    | inl e ↦ rw e refl
    | inr e ↦ rw e (
        decrypted-opened key iv (n.read_full c (get_or plain 3 0) s)
        ∙ n.read_full_ok c (get_or plain 3 0) s)
  ]

  read_header-opened :
      (c : ℕ) (key iv : Bytes) (p : Result Bytes × State)
      → n.opened (read_header n c key iv p).1 ≡ n.opened p.1
  read_header-opened c key iv (err e, s) = refl
  read_header-opened c key iv (ok header, s) =
      read_extra-opened c key iv (n.crypto.cfb_decrypt header key iv) s

  vmess_response-opened :
      (c : ℕ) (key iv : Bytes) (s : State)
      → n.opened (consume_vmess_response n c key iv s).1 ≡ n.opened s
  unfolding consume_vmess_response
  vmess_response-opened c key iv s =
      read_header-opened c key iv (n.read_full c 4 s) ∙ n.read_full_ok c 4 s

  framed-opened :
      (id addr : Bytes) (p : Result Nonces × State) → n.opened (framed n id addr p).1 ≡ n.opened p.1
  framed-opened id addr (err e, s) = refl
  framed-opened id addr (ok r, s) = refl

  vmess_on-Owns :
      (id addr : Bytes) (c : ℕ) (cs : List ℕ) (s : State)
      → n.opened s ≡ c ∷ cs
      → Owns n cs (vmess_on n id addr c s)
  unfolding vmess_on
  vmess_on-Owns id addr c cs s h =
      or_close_with-Owns n c cs (framed n id addr (n.nonces s)) _
        (framed-opened id addr (n.nonces s) ∙ (n.nonces_ok s ∙ h))
        (λ f t h1.
          or_close-Owns n c cs (n.write c f.packet t) _ (n.write_ok c f.packet t ∙ h1) (λ u h2.
            or_close-Owns n c cs (consume_vmess_response n c f.key f.iv u) _
              (vmess_response-opened c f.key f.iv u ∙ h2) (λ v h3. h3)))

  vmess-Owns :
      (node : ProxyNode) (target : Text) (cs : List ℕ) (s : State)
      → n.opened s ≡ cs
      → Owns n cs (dial_vmess_target n node target s)
  unfolding dial_vmess_target
  vmess-Owns node target cs s h =
      given-Owns n cs (n.decrypt node.upstream_username_enc) _ s h (λ text t h1.
        given-Owns n cs (n.parse_uuid (trim_space text)) _ t h1 (λ id u h2.
          target_or_fail-Owns n cs target (n.parse_addr target) _ u h2 (λ addr v h3.
            connected-Owns n cs _ _ (maybe_tls-Owns n node cs v h3)
              (λ c w h4. vmess_on-Owns id addr c cs w h4))))

  run-Owns :
      (d : Dialer) (node : ProxyNode) (target : Text) (cs : List ℕ) (s : State)
      → n.opened s ≡ cs
      → Owns n cs (run_dialer n d node target s)
  run-Owns socks_dialer node target cs s h = socks-Owns n node target cs s h
  run-Owns shadowsocks_dialer node target cs s h = shadowsocks-Owns node target cs s h
  run-Owns trojan_dialer node target cs s h = trojan-Owns node target cs s h
  run-Owns vless_dialer node target cs s h = vless-Owns node target cs s h
  run-Owns vmess_dialer node target cs s h = vmess-Owns node target cs s h

  -- Whatever the network answers, DialTarget leaves no connection open where it returns an error, and
  -- only the one that it returns otherwise.
  pub dial_node-closed :
      (node : ProxyNode) (target : Text) (s : State)
      → n.opened (dial_node n node target s).1
        ≡ with_result (dial_node n node target s).0 (n.opened s)
  unfolding dial_node
  dial_node-closed node target s =
      given-Owns n (n.opened s) _ _ s refl (λ d t h. run-Owns d node target (n.opened s) t h)
