-- ===== src/Subscription/Body/Sound.antt =====
-- What `parseSubscriptionBody` promises of the nodes that it returns.
use proxydeck.Prelude.{
  ◌≡◌, refl, Bool, true, false, not, ◌||◌, List, [], ◌∷◌, Option, none, some, All, if◌then◌else◌,
}
use proxydeck.Prelude.Yields.{Yields}
use proxydeck.Errors.{Result, ok, err}
use proxydeck.Strings.{Text, lit, text_eq, is_empty, equal_fold, to_lower}
use proxydeck.Strings.Space.{trim_space}
use proxydeck.Strings.Split.{split, has_prefix, fields_lines}
use proxydeck.Subscription.Value.{Fields}
use proxydeck.Subscription.Decoders.{Decoders}
use proxydeck.Subscription.Protocol.{normalized, one_of, is_supported_outbound_protocol}
use proxydeck.Subscription.Node.{ParsedNode}
use proxydeck.Subscription.Manual.{
  default_http, with_node, is_comment, parse_manual_lines, parse_manual_proxy_list,
}
use proxydeck.Subscription.Surge.{is_section, surge_lines, parse_surge_subscription}
use proxydeck.Subscription.QuantumultX.{quantumult_lines, parse_quantumult_subscription}
use proxydeck.Subscription.Clash.{clash_document, parse_clash_proxies, parse_clash_subscription}
use proxydeck.Subscription.Singbox.{
  singbox_document, parse_singbox_outbounds, parse_singbox_subscription,
}
use proxydeck.Subscription.Shadowrocket.{shadowrocket_lines, parse_shadowrocket_subscription}
use proxydeck.Subscription.Body.{parse_subscription_body}
use proxydeck.Subscription.Body.Dialable.{
  IsServed, IsDialable, supported_names, not_trojan, add_node-All, Returns, Returns-err, Returns-ok,
  Returns-or_empty, Returns-if,
}
use proxydeck.Subscription.Body.Lines.{
  surge_line-IsDialable, quantumult_line-IsDialable, clash_proxy-IsDialable,
  singbox_outbound-IsServed, manual_line-IsDialable, shadowrocket_line-IsServed,
}

All-if :
    (P : ParsedNode → Type 0) (b : Bool) (xs ys : List ParsedNode)
    → All P xs
    → All P ys
    → All P (if b then xs else ys)
All-if P true xs ys hx hy = hx
All-if P false xs ys hx hy = hy

http_default : default_http (normalized (lit "http")) ≡ lit "http"
unfolding normalized trim_space to_lower is_empty
http_default = refl

module _ (d : Decoders) where
  surge_lines-All :
      (inside : Bool) (lines : List Text) → All IsDialable (surge_lines d inside lines)
  unfolding surge_lines
  surge_lines-All inside [] = tt
  surge_lines-All inside (raw ∷ lines) =
      let line = trim_space raw in
      let rest = surge_lines-All inside lines in
      All-if IsDialable (is_empty line || has_prefix line (lit "#")) _ _ rest (
        All-if IsDialable (is_section line) _ _
          (surge_lines-All (equal_fold line (lit "[Proxy]")) lines)
          (All-if IsDialable inside _ _ (add_node-All _ _ (surge_line-IsDialable d line) rest)
            rest))

  quantumult_lines-All : (lines : List Text) → All IsDialable (quantumult_lines d lines)
  unfolding quantumult_lines
  quantumult_lines-All [] = tt
  quantumult_lines-All (raw ∷ lines) =
      let line = trim_space raw in
      let rest = quantumult_lines-All lines in
      All-if IsDialable (is_empty line || has_prefix line (lit "#") || has_prefix line (lit ";")) _
        _ rest (add_node-All _ _ (quantumult_line-IsDialable d line) rest)

  clash_proxies-All : (items : List Fields) → All IsDialable (parse_clash_proxies d items)
  unfolding parse_clash_proxies
  clash_proxies-All [] = tt
  clash_proxies-All (item ∷ items) =
      add_node-All _ _ (clash_proxy-IsDialable d item) (clash_proxies-All items)

  singbox_outbounds-All : (items : List Fields) → All IsServed (parse_singbox_outbounds d items)
  unfolding parse_singbox_outbounds
  singbox_outbounds-All [] = tt
  singbox_outbounds-All (item ∷ items) =
      add_node-All _ _ (singbox_outbound-IsServed d item) (singbox_outbounds-All items)

  shadowrocket_lines-All : (lines : List Text) → All IsServed (shadowrocket_lines d lines)
  unfolding shadowrocket_lines
  shadowrocket_lines-All [] = tt
  shadowrocket_lines-All (line ∷ lines) =
      add_node-All _ _ (shadowrocket_line-IsServed d line) (shadowrocket_lines-All lines)

  with_node-Returns :
      {P : ParsedNode → Type 0} (o : Option ParsedNode) (line : Text) (r : Result (List ParsedNode))
      → Yields P o
      → Returns P r
      → Returns P (with_node o line r)
  with_node-Returns none line r y h = Returns-err _
  with_node-Returns (some n) line (ok nodes) y h =
      Returns-ok (n ∷ nodes) (y.at n refl, h.at nodes refl)
  with_node-Returns (some n) line (err e) y h = Returns-err e

  manual_lines-Returns :
      (lines : List Text) → Returns IsDialable (parse_manual_lines d lines (lit "http"))
  unfolding parse_manual_lines
  manual_lines-Returns [] = Returns-ok [] tt
  manual_lines-Returns (raw ∷ lines) =
      let line = trim_space raw in
      let rest = manual_lines-Returns lines in
      Returns-if (is_empty line || is_comment line) _ _ (λ _. rest)
        λ _.
          with_node-Returns _ line _
            (manual_line-IsDialable d line (lit "http") supported_names.0 not_trojan.0) rest

  manual_list-Returns :
      (body : Text) → Returns IsDialable (parse_manual_proxy_list d body (lit "http"))
  unfolding parse_manual_proxy_list
  manual_list-Returns body = rw http_default (
      Returns-if (not (is_supported_outbound_protocol (lit "http"))) _ _ (λ _. Returns-err _)
        λ _. Returns-or_empty _ _ (manual_lines-Returns (split body (lit "\n"))))

  surge-Returns : (body : Text) → Returns IsDialable (parse_surge_subscription d body)
  unfolding parse_surge_subscription
  surge-Returns body =
      Returns-or_empty _ _ (Returns-ok _ (surge_lines-All false (fields_lines body)))

  quantumult-Returns : (body : Text) → Returns IsDialable (parse_quantumult_subscription d body)
  unfolding parse_quantumult_subscription
  quantumult-Returns body =
      Returns-or_empty _ _ (Returns-ok _ (quantumult_lines-All (fields_lines body)))

  shadowrocket-Returns : (body : Text) → Returns IsServed (parse_shadowrocket_subscription d body)
  unfolding parse_shadowrocket_subscription
  shadowrocket-Returns body =
      Returns-or_empty _ _ (Returns-ok _ (shadowrocket_lines-All (fields_lines (trim_space body))))

  clash_document-Returns : (r : Result (List Fields)) → Returns IsDialable (clash_document d r)
  clash_document-Returns (err e) = Returns-err e
  clash_document-Returns (ok items) = Returns-or_empty _ _ (Returns-ok _ (clash_proxies-All items))

  clash-Returns : (body : Text) → Returns IsDialable (parse_clash_subscription d body)
  unfolding parse_clash_subscription
  clash-Returns body = clash_document-Returns (d.proxies body)

  singbox_document-Returns : (r : Result (List Fields)) → Returns IsServed (singbox_document d r)
  singbox_document-Returns (err e) = Returns-err e
  singbox_document-Returns (ok items) = Returns-ok _ (singbox_outbounds-All items)

  singbox-Returns : (body : Text) → Returns IsServed (parse_singbox_subscription d body)
  unfolding parse_singbox_subscription
  singbox-Returns body = singbox_document-Returns (d.outbounds body)

  Returns-IsServed : {r : Result (List ParsedNode)} → Returns IsDialable r → Returns IsServed r
  Returns-IsServed h = record { at = λ nodes e. served nodes (h.at nodes e) }
    where
      served : (nodes : List ParsedNode) → All IsDialable nodes → All IsServed nodes
      served [] a = tt
      served (n ∷ nodes) a = (a.0.served, served nodes a.1)

  body-Returns : (t body : Text) → Returns IsServed (parse_subscription_body d t body)
  unfolding parse_subscription_body
  body-Returns t body =
      let k = normalized t in
      Returns-if (text_eq k (lit "singbox")) _ _ (λ _. singbox-Returns body)
        λ _.
          Returns-if (text_eq k (lit "shadowrocket")) _ _ (λ _. shadowrocket-Returns body)
            λ _.
              Returns-if (one_of k (lit "clash" ∷ lit "mihomo" ∷ [])) _ _
                (λ _. Returns-IsServed (clash-Returns body))
                λ _.
                  Returns-if (one_of k (lit "surge" ∷ lit "surfboard" ∷ [])) _ _
                    (λ _. Returns-IsServed (surge-Returns body))
                    λ _.
                      Returns-if (text_eq k (lit "quantumultx")) _ _
                        (λ _. Returns-IsServed (quantumult-Returns body))
                        λ _.
                          Returns-if (text_eq k (lit "manual")) _ _
                            (λ _. Returns-IsServed (manual_list-Returns body)) λ _. Returns-err _

  addressed-Returns :
      (t body : Text)
      → text_eq (normalized t) (lit "singbox") ≡ false
      → text_eq (normalized t) (lit "shadowrocket") ≡ false
      → Returns IsDialable (parse_subscription_body d t body)
  unfolding parse_subscription_body
  addressed-Returns t body no_singbox no_shadowrocket =
      let k = normalized t in
      rw (no_singbox, no_shadowrocket)
        (Returns-if (one_of k (lit "clash" ∷ lit "mihomo" ∷ [])) _ _ (λ _. clash-Returns body)
          λ _.
            Returns-if (one_of k (lit "surge" ∷ lit "surfboard" ∷ [])) _ _ (λ _. surge-Returns body)
              λ _.
                Returns-if (text_eq k (lit "quantumultx")) _ _ (λ _. quantumult-Returns body)
                  λ _.
                    Returns-if (text_eq k (lit "manual")) _ _ (λ _. manual_list-Returns body)
                      λ _. Returns-err _)

  -- Every node that `parseSubscriptionBody` returns, for a body of any type, has a protocol that the
  -- gateway supports, and TLS enabled if that protocol is Trojan.
  pub parse_subscription_body-IsServed :
      (t body : Text) (nodes : List ParsedNode)
      → parse_subscription_body d t body ≡ ok nodes
      → All IsServed nodes
  parse_subscription_body-IsServed t body nodes h = (body-Returns t body).at nodes h

  -- Unless the type is Sing-box or Shadowrocket, every node that `parseSubscriptionBody` returns has
  -- a supported protocol, TLS if that is Trojan, a host that is not empty and a positive port.
  pub parse_subscription_body-IsDialable :
      (t body : Text) (nodes : List ParsedNode)
      → text_eq (normalized t) (lit "singbox") ≡ false
      → text_eq (normalized t) (lit "shadowrocket") ≡ false
      → parse_subscription_body d t body ≡ ok nodes
      → All IsDialable nodes
  parse_subscription_body-IsDialable t body nodes no_singbox no_shadowrocket h =
      (addressed-Returns t body no_singbox no_shadowrocket).at nodes h
