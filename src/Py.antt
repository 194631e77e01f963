-- ===== src/Py.antt =====
-- What the program uses of Python's built-in `str`, `bytes` and `int` and of `os.path`, over lists of
-- code points.
pub mod Strip
pub mod Path
pub mod Split
pub mod Number
pub mod Hex
