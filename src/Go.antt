-- ===== src/Go.antt =====
-- What the program uses of Go's standard library, over byte strings.
pub mod Strings
pub mod Strconv
pub mod Path
pub mod Regexp
pub mod Scanner
pub mod Tests
