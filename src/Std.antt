-- ===== src/Std.antt =====
-- What the program uses of Go's standard library: strconv, strings and encoding/hex.
pub mod Strconv
pub mod Strings
pub mod Hex
