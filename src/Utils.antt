-- ===== src/Utils.antt =====
-- utils/: what the four programs share, and the Go standard library functions on text.
pub mod Text
pub mod Codeutils
pub mod Httputils
