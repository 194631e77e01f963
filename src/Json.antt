-- ===== src/Json.antt =====
-- What the program uses of Python's `json` module: `json.dumps` and `json.loads`.
pub mod Value
pub mod Dumps
pub mod Loads
pub mod RoundTrip
