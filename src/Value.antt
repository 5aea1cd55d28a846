-- ===== src/Value.antt =====
-- The value classes: Value.cpp and values/.
pub mod Value8S
pub mod Value8U
pub mod Value16S
pub mod Value16U
pub mod Value32S
pub mod Value32U
pub mod Value64S
pub mod Value64U
pub mod ValueStr
pub mod ValueUndefined
pub mod Data
pub mod ValueArr
pub mod Codec
pub mod Wire
pub mod Total
pub mod Integers
pub mod Copy
pub mod Print
pub mod Malformed
