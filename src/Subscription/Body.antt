-- ===== src/Subscription/Body.antt =====
-- `parseSubscriptionBody`: the format by the type of the subscription.
pub mod Dialable
pub mod Lines
pub mod Sound
use proxydeck.Prelude.{List, [], ◌∷◌, ◌++◌, if◌then◌else◌}
use proxydeck.Errors.{Result, err, message}
use proxydeck.Strings.{Text, lit, text_eq}
use proxydeck.Subscription.Decoders.{Decoders}
use proxydeck.Subscription.Protocol.{normalized, one_of}
use proxydeck.Subscription.Node.{ParsedNode}
use proxydeck.Subscription.Manual.{parse_manual_proxy_list}
use proxydeck.Subscription.Surge.{parse_surge_subscription}
use proxydeck.Subscription.QuantumultX.{parse_quantumult_subscription}
use proxydeck.Subscription.Clash.{parse_clash_subscription}
use proxydeck.Subscription.Singbox.{parse_singbox_subscription}
use proxydeck.Subscription.Shadowrocket.{parse_shadowrocket_subscription}

unfoldable pub parse_subscription_body : Decoders → Text → Text → Result (List ParsedNode)
parse_subscription_body d sub_type body =
    let t = normalized sub_type in
    if text_eq t (lit "singbox")
    then parse_singbox_subscription d body
    else if text_eq t (lit "shadowrocket")
    then parse_shadowrocket_subscription d body
    else if one_of t (lit "clash" ∷ lit "mihomo" ∷ [])
    then parse_clash_subscription d body
    else if one_of t (lit "surge" ∷ lit "surfboard" ∷ [])
    then parse_surge_subscription d body
    else if text_eq t (lit "quantumultx")
    then parse_quantumult_subscription d body
    else if text_eq t (lit "manual")
    then parse_manual_proxy_list d body (lit "http")
    else err (message (lit "unsupported subscription type: " ++ sub_type))
