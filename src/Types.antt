-- ===== src/Types.antt =====
-- types/: values, their comparison and conversion, and their byte encoding.
pub mod Value
pub mod Bytes
pub mod Codec
pub mod Text
pub mod Compare
pub mod Order
