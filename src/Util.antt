-- ===== src/Util.antt =====
-- backend/internal/util: MAC addresses and voucher codes, over the bytes of a text.
pub mod Ascii
pub mod Mac
pub mod TokenCode
