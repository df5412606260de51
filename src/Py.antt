-- ===== src/Py.antt =====
-- What the sources use of Python and its standard library.
pub mod Result
pub mod Int
pub mod Str
pub mod Hex
pub mod Utf8
pub mod Check
pub mod Json
pub mod Text
