-- ===== src/Text.antt =====
-- ytlib/string: the codecs, the string tools and the edit distance.
pub mod Strings
pub mod Split
pub mod UrlEncode
pub mod Base64
pub mod Affix
pub mod StrDif
pub mod Tables
