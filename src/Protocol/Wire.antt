-- ===== src/Protocol/Wire.antt =====
-- The laws of the read functions against the write functions of the same names.
pub mod Reads
pub mod Words
pub mod Structs
pub mod Canon
pub mod CanonWords
pub mod CanonStructs
pub mod Sizes
