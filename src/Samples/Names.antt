-- ===== src/Samples/Names.antt =====
-- Names of servers, and words.
use omega_services.Prelude.{
  ◌*◌, ◌<◌, ◌≤◌, ◌≡◌, refl, ◌↔◌, true, false, some, List, [], ◌∷◌, Bytes, codes, length, has_char,
  arith,
}
use omega_services.IrcString.{valid_hostname, valid_servername}
use omega_services.IrcString.Attrs.{is_serv_char}
use omega_services.IrcString.Names.{each, dots_of, valid_servername_iff}
use omega_services.Network.{◌>>=◌}
use omega_services.Tools.Tokens.{generictoken, generictoken-length, expand_parv}
use omega_services.Tools.Tokens.Joined.{generictoken-expand_parv}

valid_servername_iff_example : (valid_servername (codes "up.example") ≡ true) ↔ (
    (each is_serv_char (codes "up.example") ≡ true)
    × (0 < dots_of (codes "up.example"))
    × (2 * dots_of (codes "up.example") < length (codes "up.example")))
valid_servername_iff_example = valid_servername_iff (codes "up.example")

up_is_valid : valid_servername (codes "up.example") ≡ true
unfolding valid_servername
up_is_valid = refl

dots_only : valid_servername (codes "a..b") ≡ false
unfolding valid_servername
dots_only = refl

host_is_valid : valid_hostname (codes "host.example") ≡ true
unfolding valid_hostname
host_is_valid = refl

-- The delimiters in a row, and the spaces behind them, are one.
three_flags : generictoken b',' 50 (codes "a,, b,c") ≡ codes "a" ∷ codes "b" ∷ codes "c" ∷ []
unfolding generictoken
three_flags = refl

-- Without room the rest is not cut.
two_only : generictoken b' ' 2 (codes "a b c") ≡ codes "a" ∷ codes "b c" ∷ []
unfolding generictoken
two_only = refl

generictoken-length_example : length (generictoken b' ' 2 (codes "a b c")) ≤ 2
generictoken-length_example = generictoken-length b' ' 2 (codes "a b c") (omega arith)

abbrev given : List Bytes
given = codes "ADD" ∷ codes "#omega" ∷ codes "no" ∷ codes "spam" ∷ []

generictoken-expand_parv_example :
    (expand_parv 20 2 given >>= λ dest. some (generictoken b' ' 5 dest))
    ≡ some (codes "no" ∷ codes "spam" ∷ [])
unfolding has_char
generictoken-expand_parv_example =
    generictoken-expand_parv 20 2 5 given (codes "no") (codes "spam" ∷ []) refl
      ((omega arith, refl), ((omega arith, refl), tt)) (omega arith) (omega arith)
