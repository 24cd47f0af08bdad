-- ===== src/Ofx.antt =====
-- pkg/ofx: the amounts and dates of a bank's file, its header, the conversion of its SGML, and Parse.
pub mod Amount
pub mod Decimal
pub mod Roundtrip
pub mod Limit
pub mod Sgml
pub mod Split
pub mod Date
pub mod Parse
