-- ===== src/Json/RoundTrip.antt =====
-- What `json.dumps` writes, `json.loads` reads back.
pub mod Strings
pub mod Numbers
pub mod Opening
pub mod Arrays
pub mod Objects
pub mod Values
