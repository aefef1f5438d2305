-- ===== src/Base64.antt =====
-- src/base64.c: numbers in base 64, in two alphabets (Base64/Numbers), and texts of bytes in base 64
-- (Base64/Quads). `encode_ip` and `decode_ip` call the resolver of the operating system and are left
-- out.
pub mod Numbers
pub mod Quads
