-- ===== src/Samples/Prefixes.antt =====
-- Prefixes of addresses.
use omega_services.Prelude.{◌≡◌, ◌↔◌, ℕ, refl, pos, List, [], ◌∷◌, take, arith}
use omega_services.Match.Cidr.{match_cidr}
use omega_services.Match.Cidr.Prefix.{match_cidr_iff, addr_bits}

abbrev here : List ℕ
here = 0x20 ∷ 0x01 ∷ 0x0d ∷ 0xb8 ∷ 0 ∷ 0 ∷ 0 ∷ 0 ∷ 0 ∷ 0 ∷ 0 ∷ 0 ∷ 0 ∷ 0 ∷ 0 ∷ 7 ∷ []

abbrev there : List ℕ
there = 0x20 ∷ 0x01 ∷ 0x0d ∷ 0xbf ∷ 0 ∷ 0 ∷ 0 ∷ 0 ∷ 0 ∷ 0 ∷ 0 ∷ 0 ∷ 0 ∷ 0 ∷ 0 ∷ 7 ∷ []

inside : match_cidr here there 29 ≡ pos 1
unfolding match_cidr
inside = refl

outside : match_cidr here there 32 ≡ pos 0
unfolding match_cidr
outside = refl

match_cidr_iff_example :
    (match_cidr here there 29 ≡ pos 1) ↔ (take 29 (addr_bits here) ≡ take 29 (addr_bits there))
match_cidr_iff_example =
    match_cidr_iff 29 here there (omega arith) (omega arith) (omega arith) (omega arith)
      (omega arith)
