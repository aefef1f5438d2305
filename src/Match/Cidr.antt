-- ===== src/Match/Cidr.antt =====
-- `match_cidr` of src/match.c: whether two addresses of 16 bytes begin with the same bits.
pub mod Bits
pub mod Prefix
use Prim.Native.Nat.{bit_xor}
use omega_services.Prelude.{
  ℕ, zero, suc, ◌+◌, ◌-◌, ◌*◌, ◌/◌, ◌^◌, Bool, true, false, List, [], ◌∷◌, ltb, ◌==◌, not,
  if◌then◌else◌, ℤ, pos, negsuc,
}

abbrev pub to_int : Bool → ℤ
to_int true = pos 1
to_int false = pos 0

-- The loop of `match_cidr`; `bits` is the `unsigned char`, and `addr` and `mask` are what `k` has not
-- passed of the 16 bytes.
unfoldable pub match_cidr : List ℕ → List ℕ → ℕ → ℤ
match_cidr [] mask bits = negsuc 0
match_cidr (a ∷ addr) [] bits = negsuc 0
match_cidr (a ∷ addr) (m ∷ mask) bits =
    let rest = match_cidr addr mask (bits - 8) in
    if ltb bits 8
    then to_int (bit_xor a m / 2 ^ (8 - bits) == 0)
    else if not (a == m)
    then pos 0
    else if bits == 8
    then pos 1
    else rest
