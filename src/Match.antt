-- ===== src/Match.antt =====
-- src/match.c: wildcard masks and CIDR prefixes. `match_regx` only calls the regex library.
pub mod Wild
pub mod Cidr
