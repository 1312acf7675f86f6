-- ===== src/Syntax.antt =====
-- include/boost/http/syntax: the stateless matchers and decoders.
pub mod Chars
pub mod Crlf
pub mod Match
pub mod Digits
pub mod StatusCode
