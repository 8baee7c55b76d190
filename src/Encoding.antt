-- ===== src/Encoding.antt =====
-- How a reading is put into the numbers that go on the chain (src/oracle/oracle-encoding.ts): exact
-- decimals, the packed provenance and the bytes that a quorum signs. A text that is taken apart is
-- the list of its character codes; a text that is only compared is a `String`.
pub mod Decimal
pub mod RoundTrip
pub mod Composite
pub mod Provenance
pub mod Fields
pub mod Packing
pub mod Payload
pub mod Injective
