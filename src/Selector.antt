-- ===== src/Selector.antt =====
-- backend/internal/selector/service.go
pub mod Username
pub mod Pick
