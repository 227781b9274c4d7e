-- ===== src/Strings.antt =====
-- Strings.c: the decimal conversions, the response header and the name of a cached image.
pub mod Decimal
pub mod Message
pub mod CacheName
