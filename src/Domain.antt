-- ===== src/Domain.antt =====
-- gateway/internal/domain: the types that every part of the gateway shares.
pub mod Instrument
pub mod Fill
pub mod Order
pub mod Position
