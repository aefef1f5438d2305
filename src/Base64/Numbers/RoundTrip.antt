-- ===== src/Base64/Numbers/RoundTrip.antt =====
-- Numbers that are written in base 64 and read back.
use omega_services.Prelude.{
  ℕ, zero, suc, ◌+◌, ◌/◌, ◌%◌, ◌^◌, ◌<◌, ◌≡◌, refl, ap, ◌∙◌, true, some, [], ◌∷◌, Bytes, lt→ltb,
  ◌==◌, ==_iff, pos, arith, passes, passes_each, Bool-cases, inl, inr,
}
use omega_services.Base64.Numbers.{
  int6_to_base64_map, base64_to_int6_map, convert2y, convert2n, put_digits, int_to_base64,
  base64enc, get_digits, base64_to_int, base64dec, to_int_loop, base64toint, to_text_loop,
  inttobase64, word,
}

digit_back : (d : ℕ) → d < 64 → base64_to_int6_map (int6_to_base64_map d) ≡ d
unfolding passes base64_to_int6_map int6_to_base64_map
digit_back d h =
    (==_iff _ d).0
      (passes_each (λ d. base64_to_int6_map (int6_to_base64_map d) == d) {bound = 64} d refl h)

digit_p10_back : (d : ℕ) → d < 64 → convert2n (convert2y d) ≡ d
unfolding passes convert2n convert2y
digit_p10_back d h =
    (==_iff _ d).0 (passes_each (λ d. convert2n (convert2y d) == d) {bound = 64} d refl h)

power : (i v : ℕ) → v < 64 ^ suc i → v / 64 < 64 ^ i
power i v h = omega arith

last_digit : (v : ℕ) → (v / 64 == 0) ≡ true → v % 64 ≡ v
last_digit v h = omega (arith, (==_iff _ _).0 h)

-- Reading the digits that were put in front of `out`, and then `out`.
get_digits-put_digits :
    (i val : ℕ) (out : Bytes)
    → val < 64 ^ suc i
    → val < word
    → (c : ℕ) × (s : Bytes) × (put_digits (suc i) val out ≡ some (c ∷ s))
      × (get_digits (base64_to_int6_map c) s ≡ get_digits val out)
unfolding put_digits get_digits
get_digits-put_digits zero val out h w =
    let last : (val / 64 == 0) ≡ true = (==_iff _ 0).1 (omega arith) in
    (
      int6_to_base64_map (val % 64),
      out,
      rw last,
      ap (λ v. get_digits v out) (digit_back (val % 64) (omega arith) ∙ omega arith),
    )
get_digits-put_digits (suc i) val out h w = elim (Bool-cases (val / 64 == 0)) [
  | inl last ↦ (
    int6_to_base64_map (val % 64),
    out,
    rw last,
    ap (λ v. get_digits v out) (digit_back (val % 64) (omega arith) ∙ last_digit val last),
  )
  | inr more ↦ rw more (
      let ih =
        get_digits-put_digits i (val / 64) (int6_to_base64_map (val % 64) ∷ out)
          (power (suc i) val h) (omega arith) in
      (
        ih.0,
        ih.1,
        ih.2,
        ih.3 ∙ ap (λ v. get_digits v out) (rw (digit_back (val % 64) (omega arith)) (omega arith)),
      ))
]

-- A number below 64^count that `inttobase64` has written is what `base64toint` reads, before `out`.
to_int_loop-to_text_loop :
    (count v n k : ℕ) (out : Bytes)
    → n ≡ k + count
    → v < 64 ^ count
    → v < word
    → to_int_loop n 0 (to_text_loop count v out) ≡ to_int_loop k v out
unfolding to_int_loop to_text_loop
to_int_loop-to_text_loop zero v n k out e h w =
    let all : n ≡ k = omega arith in
    let none_left : 0 ≡ v = omega arith in λ i. to_int_loop (all i) (none_left i) out
to_int_loop-to_text_loop (suc count) v n k out e h w =
    to_int_loop-to_text_loop count (v / 64) n (suc k) (convert2y (v % 64) ∷ out) (omega arith)
      (power count v h) (omega arith)
    ∙ ap (λ v. to_int_loop k v out) (rw (digit_p10_back (v % 64) (omega arith)) (omega arith))

-- A time stamp that `base64enc` has written is what `base64dec` reads, for every number that passes
-- its assertion; so its buffer is large enough.
pub base64dec-base64enc :
    (v : ℕ) → v < 2147483647 → (s : Bytes) × (base64enc (pos v) ≡ some s) × (base64dec s ≡ some v)
unfolding base64enc int_to_base64 base64dec base64_to_int get_digits
base64dec-base64enc v h =
    let (c, s, put, get) = get_digits-put_digits 6 v [] (omega arith) (omega arith) in
    (c ∷ s, rw (lt→ltb _ _ h) put, ap some get)

-- A number below 64^count and 2^32 that `inttobase64` has written in `count` digits is what
-- `base64toint` reads from them.
pub base64toint-inttobase64 :
    (count v : ℕ) → v < 64 ^ count → v < word → base64toint (inttobase64 v count) count ≡ v
unfolding base64toint inttobase64
base64toint-inttobase64 count v h w = to_int_loop-to_text_loop count v count 0 [] (omega arith) h w
