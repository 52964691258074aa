-- ===== src/Subscription/Body/Lines.antt =====
-- Every node that a parser of one line, link or item returns is served, and has an address but in
-- two formats.
use proxydeck.Prelude.{◌≡◌, refl, Bool, true, false, [], ◌∷◌, Option}
use proxydeck.Prelude.Yields.{Yields, Yields-none, Yields-some, Yields-if, Yields-skip, Yields-bind}
use proxydeck.Strings.{Text, text_eq, lit}
use proxydeck.Subscription.Value.{Fields}
use proxydeck.Subscription.Decoders.{Decoders, Url}
use proxydeck.Subscription.Protocol.{is_supported_outbound_protocol, is_trojan_protocol, one_of}
use proxydeck.Subscription.Node.{ParsedNode}
use proxydeck.Subscription.Manual.{parse_manual_proxy_line}
use proxydeck.Subscription.Surge.{parse_surge_proxy_line}
use proxydeck.Subscription.QuantumultX.{parse_quantumult_line}
use proxydeck.Subscription.Clash.{parse_clash_proxy}
use proxydeck.Subscription.Singbox.{parse_singbox_outbound}
use proxydeck.Subscription.Shadowrocket.{
  parse_plain_link, parse_link_as, parse_shadowrocket_line, parse_shadowrocket_node,
}
use proxydeck.Subscription.Shadowrocket.Links.{
  parse_shadowsocks_link, parse_trojan_link, parse_vless_link,
}
use proxydeck.Subscription.Shadowrocket.Vmess.{parse_vmess_link}
use proxydeck.Subscription.Body.Dialable.{
  implied, IsServed, IsDialable, supported_names, not_trojan, normalize-supported, numbered_lem,
  or-false, or-true_left, not-false, trojan_free,
}

module _ (d : Decoders) where
  pub surge_line-IsDialable : (line : Text) → Yields IsDialable (parse_surge_proxy_line d line)
  unfolding parse_surge_proxy_line
  surge_line-IsDialable line = Yields-bind _ _ λ (name, rest) _. Yields-skip _ _ λ _.
      Yields-skip _ _ λ known. Yields-bind _ _ λ port _. Yields-skip _ _ λ refused.
        Yields-bind _ _ λ c _. Yields-some _ (record {
          served = record {
            supported = normalize-supported _ known;
            trojan_tls = implied _ _ (or-true_left _ _);
          };
          hosted = (or-false _ _ refused).0;
          numbered = numbered_lem port (or-false _ _ refused).1;
        })

  pub quantumult_line-IsDialable : (line : Text) → Yields IsDialable (parse_quantumult_line d line)
  unfolding parse_quantumult_line
  quantumult_line-IsDialable line = Yields-bind _ _ λ (p, rest) _. Yields-skip _ _ λ known.
      Yields-skip _ _ λ _. Yields-bind _ _ λ (host, text) _. Yields-bind _ _ λ port _.
        Yields-skip _ _ λ refused. Yields-bind _ _ λ c _. Yields-some _ (record {
          served = record {
            supported = normalize-supported _ known;
            trojan_tls = implied _ _ (or-true_left _ _);
          };
          hosted = (or-false _ _ refused).0;
          numbered = numbered_lem port (or-false _ _ refused).1;
        })

  pub clash_proxy-IsDialable : (item : Fields) → Yields IsDialable (parse_clash_proxy d item)
  unfolding parse_clash_proxy
  clash_proxy-IsDialable item = Yields-skip _ _ λ known. Yields-bind _ _ λ port _.
      Yields-skip _ _ λ refused. Yields-skip _ _ λ _. Yields-some _ (record {
        served = record {
          supported = not-false _ known;
          trojan_tls = implied _ _ (or-true_left _ _);
        };
        hosted = (or-false _ _ refused).0;
        numbered = numbered_lem port (or-false _ _ refused).1;
      })

  pub singbox_outbound-IsServed : (item : Fields) → Yields IsServed (parse_singbox_outbound d item)
  unfolding parse_singbox_outbound
  singbox_outbound-IsServed item = Yields-skip _ _ λ known. Yields-skip _ _ λ refused.
      Yields-skip _ _ λ _. Yields-skip _ _ λ _.
        Yields-some _
          (record { supported = not-false _ known; trojan_tls = implied _ _ (or-true_left _ _) })

  pub manual_line-IsDialable :
      (line protocol : Text)
      → is_supported_outbound_protocol protocol ≡ true
      → is_trojan_protocol protocol ≡ false
      → Yields IsDialable (parse_manual_proxy_line d line protocol)
  unfolding parse_manual_proxy_line
  manual_line-IsDialable line protocol known other = Yields-skip _ _ λ _. Yields-bind _ _ λ port _.
      Yields-skip _ _ λ refused. Yields-bind _ _ λ (username, password) _. Yields-some _ (record {
        served = record {
          supported = known;
          trojan_tls = implied _ _ (trojan_free protocol false other);
        };
        hosted = (or-false _ _ refused).0;
        numbered = numbered_lem port (or-false _ _ refused).1;
      })

  plain_link-IsDialable :
      (protocol : Text) (tls : Bool) (u : Url)
      → is_supported_outbound_protocol protocol ≡ true
      → is_trojan_protocol protocol ≡ false
      → Yields IsDialable (parse_plain_link d protocol tls u)
  unfolding parse_plain_link
  plain_link-IsDialable protocol tls u known other = Yields-bind _ _ λ port _.
      Yields-skip _ _ λ refused. Yields-some _ (record {
        served = record {
          supported = known;
          trojan_tls = implied _ _ (trojan_free protocol tls other);
        };
        hosted = (or-false _ _ refused).0;
        numbered = numbered_lem port (or-false _ _ refused).1;
      })

  trojan_link-IsDialable : (raw : Text) → Yields IsDialable (parse_trojan_link d raw)
  unfolding parse_trojan_link
  trojan_link-IsDialable raw = Yields-bind _ _ λ u _. Yields-bind _ _ λ port _.
      Yields-skip _ _ λ refused. Yields-skip _ _ λ _. Yields-some _ (record {
        served = record { supported = supported_names.3; trojan_tls = implied _ _ (λ _. refl) };
        hosted = (or-false _ _ refused).0;
        numbered = numbered_lem port (or-false _ _ refused).1;
      })

  vless_link-IsDialable : (raw : Text) → Yields IsDialable (parse_vless_link d raw)
  unfolding parse_vless_link
  vless_link-IsDialable raw = Yields-bind _ _ λ u _. Yields-bind _ _ λ port _.
      Yields-skip _ _ λ refused. Yields-skip _ _ λ _. Yields-skip _ _ λ _. Yields-some _ (record {
        served = record {
          supported = supported_names.4;
          trojan_tls = implied _ _ (trojan_free (lit "vless") _ not_trojan.3);
        };
        hosted = (or-false _ _ refused).0;
        numbered = numbered_lem port (or-false _ _ refused).1;
      })

  vmess_link-IsDialable : (raw : Text) → Yields IsDialable (parse_vmess_link d raw)
  unfolding parse_vmess_link
  vmess_link-IsDialable raw = Yields-bind _ _ λ decoded _. Yields-bind _ _ λ item _.
      Yields-skip _ _ λ _. Yields-bind _ _ λ port _. Yields-skip _ _ λ refused. Yields-skip _ _ λ _.
        Yields-skip _ _ λ _. Yields-some _ (record {
          served = record {
            supported = supported_names.5;
            trojan_tls = implied _ _ (trojan_free (lit "vmess") _ not_trojan.4);
          };
          hosted = (or-false _ _ refused).0;
          numbered = numbered_lem port (or-false _ _ refused).1;
        })

  shadowsocks_link-IsServed : (raw : Text) → Yields IsServed (parse_shadowsocks_link d raw)
  unfolding parse_shadowsocks_link
  shadowsocks_link-IsServed raw = Yields-bind _ _ λ u _. Yields-bind _ _ λ e _.
      Yields-bind _ _ λ port _. Yields-skip _ _ λ _. Yields-some _ (record {
        supported = supported_names.2;
        trojan_tls = implied _ _ (trojan_free (lit "ss") false not_trojan.2);
      })

  IsDialable-IsServed : {o : Option ParsedNode} → Yields IsDialable o → Yields IsServed o
  IsDialable-IsServed y = record { at = λ n e. (y.at n e).served }

  link-IsServed : (scheme raw : Text) (u : Url) → Yields IsServed (parse_link_as d scheme raw u)
  unfolding parse_link_as
  link-IsServed scheme raw u =
      Yields-if (text_eq scheme (lit "http")) _ _
        (λ _. IsDialable-IsServed (plain_link-IsDialable _ _ u supported_names.0 not_trojan.0))
        λ _.
          Yields-if (text_eq scheme (lit "https")) _ _
            (λ _. IsDialable-IsServed (plain_link-IsDialable _ _ u supported_names.0 not_trojan.0))
            λ _.
              Yields-if (one_of scheme (lit "socks" ∷ lit "socks5" ∷ [])) _ _
                (λ _.
                  IsDialable-IsServed (plain_link-IsDialable _ _ u supported_names.1 not_trojan.1))
                λ _.
                  Yields-if (one_of scheme (lit "ss" ∷ lit "shadowsocks" ∷ [])) _ _
                    (λ _. shadowsocks_link-IsServed raw)
                    λ _.
                      Yields-if (text_eq scheme (lit "trojan")) _ _
                        (λ _. IsDialable-IsServed (trojan_link-IsDialable raw))
                        λ _.
                          Yields-if (text_eq scheme (lit "vless")) _ _
                            (λ _. IsDialable-IsServed (vless_link-IsDialable raw))
                            λ _.
                              Yields-if (text_eq scheme (lit "vmess")) _ _
                                (λ _. IsDialable-IsServed (vmess_link-IsDialable raw))
                                λ _. Yields-none

  pub shadowrocket_line-IsServed : (line : Text) → Yields IsServed (parse_shadowrocket_line d line)
  unfolding parse_shadowrocket_line parse_shadowrocket_node
  shadowrocket_line-IsServed line =
      Yields-bind _ _ λ decoded _. Yields-bind _ _ λ u _. link-IsServed _ decoded u
