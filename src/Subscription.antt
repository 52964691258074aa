-- ===== src/Subscription.antt =====
-- backend/internal/subscription/service.go
pub mod Value
pub mod Decoders
pub mod Protocol
pub mod Region
pub mod Node
pub mod Manual
pub mod Surge
pub mod QuantumultX
pub mod Shadowrocket
pub mod Clash
pub mod Singbox
pub mod Body
pub mod Links
pub mod Due
pub mod Sync
