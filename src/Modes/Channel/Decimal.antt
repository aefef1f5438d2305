-- ===== src/Modes/Channel/Decimal.antt =====
-- `atol` and `%d`.
pub mod Back
use omega_services.Prelude.{
  ℕ, zero, suc, ◌+◌, ◌-◌, ◌*◌, ◌/◌, ◌%◌, ◌^◌, ◌<◌, ◌≤◌, ◌≡◌, refl, ap, ◌∙◌, Bool, true, false, ◌&&◌,
  ◌||◌, Option, none, some, List, [], ◌∷◌, Bytes, leb, ltb, ◌==◌, ==_iff, if◌then◌else◌, ℤ, pos,
  negsuc, arith, Bool-cases, inl, inr,
}

abbrev pub is_digit : ℕ → Bool
is_digit c = leb b'0' c && leb c b'9'

-- The digits in front, as a number.
unfoldable pub read_digits : ℕ → Bytes → ℕ
read_digits n [] = n
read_digits n (c ∷ s) =
    let more = read_digits (n * 10 + (c - b'0')) s in if is_digit c then more else n

-- A `long` of 64 bits that is cut to an `int`; `strtol` stops at the ends of its range.
abbrev pub long_end : ℕ
long_end = 2 ^ 63

abbrev pub signed : ℕ → ℤ
signed w = if ltb w (2 ^ 31) then pos w else negsuc (2 ^ 32 - w - 1)

unfoldable pub positive_int : ℕ → ℤ
positive_int n = signed ((if ltb n long_end then n else long_end - 1) % 2 ^ 32)

unfoldable pub negative_int : ℕ → ℤ
negative_int n = signed ((2 ^ 32 - (if ltb n long_end then n else long_end) % 2 ^ 32) % 2 ^ 32)

unfoldable pub atol_signed : Bytes → ℤ
unfolding read_digits positive_int negative_int
atol_signed [] = pos 0
atol_signed (c ∷ s) =
    if c == b'-'
    then negative_int (read_digits 0 s)
    else if c == b'+'
    then positive_int (read_digits 0 s)
    else positive_int (read_digits 0 (c ∷ s))

-- `(int) atol (p)`: whitespace, a sign, digits.
unfoldable pub atol : Bytes → ℤ
unfolding atol_signed
atol [] = pos 0
atol (c ∷ s) =
    let more = atol s in if (leb 9 c && leb c 13) || c == 32 then more else atol_signed (c ∷ s)

unfoldable pub put_decimal : ℕ → ℕ → Bytes → Bytes
put_decimal zero n out = out
put_decimal (suc i) n out =
    let out' = (n % 10 + b'0') ∷ out in
    let more = put_decimal i (n / 10) out' in if n / 10 == 0 then out' else more

-- A number below 10^10 in decimal.
unfoldable pub print_decimal : ℕ → Bytes
print_decimal n = put_decimal 10 n []

abbrev negate : ℕ → ℤ
negate zero = pos 0
negate (suc n) = negsuc n

-- `atol` itself, whose result is a `long`.
unfoldable pub atol_long : Bytes → ℤ
unfolding read_digits
atol_long [] = pos 0
atol_long (c ∷ s) =
    let more = atol_long s in
    let at_most = λ (n : ℕ) (end : ℕ). if ltb n end then n else end in
    if (leb 9 c && leb c 13) || c == 32
    then more
    else if c == b'-'
    then negate (at_most (read_digits 0 s) long_end)
    else pos (at_most (read_digits 0 (if c == b'+' then s else c ∷ s)) (long_end - 1))
