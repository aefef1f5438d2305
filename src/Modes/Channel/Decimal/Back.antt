-- ===== src/Modes/Channel/Decimal/Back.antt =====
-- A number that is printed is read back.
use omega_services.Prelude.{
  ℕ, zero, suc, ◌+◌, ◌*◌, ◌/◌, ◌%◌, ◌^◌, ◌<◌, ◌≤◌, ◌≡◌, refl, ap, ◌∙◌, true, false, ◌&&◌, ◌||◌, [],
  ◌∷◌, Bytes, leb, ltb, lt→ltb, ◌==◌, ==_iff, pos, arith, Bool-cases, inl, inr, length,
}
use omega_services.Modes.Channel.Decimal.{
  is_digit, read_digits, positive_int, atol_signed, atol, put_decimal, print_decimal, long_end,
}

abbrev pub ReadsAs : ℕ → Bytes → Bytes → ℕ → Type 0
ReadsAs i text out n =
    (d : ℕ) × (s : Bytes) × (text ≡ (d + b'0') ∷ s)
    × (d < 10)
    × (read_digits d s ≡ read_digits n out)
    × (length s ≤ i + length out)

digit_test : (d : ℕ) → d < 10 → is_digit (d + b'0') ≡ true
digit_test d h = ground arith

next_digit :
    (v d : ℕ) (out : Bytes)
    → d < 10
    → read_digits v ((d + b'0') ∷ out) ≡ read_digits (v * 10 + d) out
unfolding read_digits
next_digit v d out h = rw (digit_test d h) (ap (λ m. read_digits m out) (omega arith))

-- The digits in front of `out` are at least one, and at most the rounds.
put_decimal-ReadsAs :
    (i n : ℕ) (out : Bytes) → n < 10 ^ suc i → ReadsAs i (put_decimal (suc i) n out) out n
unfolding put_decimal read_digits
put_decimal-ReadsAs zero n out h =
    let last : (n / 10 == 0) ≡ true = (==_iff _ 0).1 (omega arith) in
    (n % 10, out, rw last, omega arith, ap (λ m. read_digits m out) (omega arith), omega arith)
put_decimal-ReadsAs (suc i) n out h = elim (Bool-cases (n / 10 == 0)) [
  | inl last ↦ (
    n % 10,
    out,
    rw last,
    omega arith,
    ap (λ m. read_digits m out) (omega (arith, (==_iff _ _).0 last)),
    omega arith,
  )
  | inr more ↦
      let (d, s, text, digit, value, len) =
        put_decimal-ReadsAs i (n / 10) ((n % 10 + b'0') ∷ out) (omega arith) in
      (
        d,
        s,
        rw more text,
        digit,
        value
            ∙ next_digit (n / 10) (n % 10) out (omega arith)
            ∙ ap (λ m. read_digits m out) (omega arith),
        omega (arith, len),
      )
]

atol-digits : (d : ℕ) (s : Bytes) → d < 10 → atol ((d + b'0') ∷ s) ≡ positive_int (read_digits d s)
unfolding atol atol_signed
atol-digits d s h =
    let space : ((leb 9 (d + b'0') && leb (d + b'0') 13) || d + b'0' == 32) ≡ false =
      ground arith in
    let minus : (d + b'0' == b'-') ≡ false = ground arith in
    let plus : (d + b'0' == b'+') ≡ false = ground arith in
    rw (space, minus, plus, next_digit 0 d s h)
      (ap (λ m. positive_int (read_digits m s)) (omega arith))

positive_int-small : (n : ℕ) → n < 10 ^ 9 → positive_int n ≡ pos n
unfolding positive_int
positive_int-small n h =
    let long : ltb n long_end ≡ true = lt→ltb n long_end (omega arith) in
    let word : n % 2 ^ 32 ≡ n = omega arith in rw (long, word, lt→ltb n (2 ^ 31) (omega arith)) refl

-- The text of a number below 10^9 has a digit, at most ten, and is read as that number.
pub atol-print_decimal :
    (n : ℕ)
    → n < 10 ^ 9
    → (x : ℕ) × (s : Bytes) × (print_decimal n ≡ x ∷ s) × (length s < 10) × (atol (x ∷ s) ≡ pos n)
unfolding print_decimal read_digits
atol-print_decimal n h =
    let (d, s, text, digit, value, len) = put_decimal-ReadsAs 9 n [] (omega arith) in
    (
      d + b'0',
      s,
      text,
      omega (arith, len),
      atol-digits d s digit ∙ ap positive_int value ∙ positive_int-small n h,
    )
