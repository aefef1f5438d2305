-- ===== src/IrcString.antt =====
-- src/irc_string.c: the texts that may be the name of a host, a user or a server, and the tables that
-- turn a byte to lower or upper case.
pub mod Attrs
pub mod Cases
pub mod Names
use omega_services.Prelude.{
  ℕ, zero, suc, ◌+◌, Bool, true, false, ◌&&◌, ◌||◌, not, List, [], ◌∷◌, Bytes, ltb, leb, ◌==◌,
  if◌then◌else◌,
}
use Attrs.{is_host_char, is_user_char, is_serv_char}

-- `found_sep++`
abbrev pub is_sep : ℕ → Bool
is_sep c = (c == b'.') || (c == b':')

-- The `do` loop of `valid_hostname` from a byte on: it reads the NUL as a byte of an empty name.
unfoldable pub host_loop : ℕ → List ℕ → (found_sep : ℕ) → Bool
unfolding is_host_char
host_loop c [] found_sep = is_host_char c && ltb 0 (if is_sep c then found_sep + 1 else found_sep)
host_loop c (d ∷ s) found_sep =
    let rest = host_loop d s (if is_sep c then found_sep + 1 else found_sep) in
    if is_host_char c then rest else false

unfoldable pub valid_hostname : Bytes → Bool
unfolding host_loop
valid_hostname [] = host_loop 0 [] 0
valid_hostname (c ∷ s) = if is_sep c then false else host_loop c s 0

-- `for (p = username; *p; p++);`: the loop has no body, and the test stands behind it.
abbrev pub byte_behind : Bytes → ℕ
byte_behind [] = 0
byte_behind (c ∷ s) = byte_behind s

unfoldable pub valid_username : Bytes → Bool
unfolding is_user_char
valid_username username = is_user_char (byte_behind username)

-- The loop of `valid_servername`, and the test behind it.
unfoldable pub serv_loop : Bytes → (dots norm : ℕ) → Bool
unfolding is_serv_char
serv_loop [] dots norm = not (leb norm dots || (dots == 0))
serv_loop (c ∷ s) dots norm =
    let dot = c == b'.' in
    let rest = serv_loop s (if dot then dots + 1 else dots) (if dot then norm else norm + 1) in
    if is_serv_char c then rest else false

unfoldable pub valid_servername : Bytes → Bool
unfolding serv_loop
valid_servername servername = serv_loop servername 0 0
