-- ===== src/Tools/Times/Spans.antt =====
-- What `time_to_sec` makes of a text of spans, in the terms of its own tables.
use omega_services.Prelude.{
  ℕ, zero, suc, ◌+◌, ◌*◌, ◌≤◌, ◌<◌, ◌≡◌, refl, sym, ap, ◌∙◌, true, false, ◌&&◌, none, some, List,
  [], ◌∷◌, ◌++◌, append_assoc, append-nil, Bytes, length, ltb, lt→ltb, ◌==◌, if◌then◌else◌, arith,
  All,
}
use omega_services.Tools.Times.{is_digit, atoi, factor, int_end, add_span, span_loop, time_to_sec}

-- Digits and the letter behind them.
abbrev pub Raw : Type 0
Raw = Bytes × ℕ

-- At most nine digits, and a letter that is none.
abbrev pub IsRaw : Raw → Type 0
IsRaw sp = All (λ c. is_digit c ≡ true) sp.0 × (length sp.0 ≤ 9) × (is_digit sp.1 ≡ false)

unfoldable pub print_raw : List Raw → Bytes
print_raw [] = []
print_raw ((digits, unit) ∷ sps) = digits ++ unit ∷ print_raw sps

-- Each number times what its letter stands for, a second counting as 61.
unfoldable pub raw_total : ℕ → List Raw → ℕ
raw_total n [] = n
raw_total n ((digits, unit) ∷ sps) = raw_total (n + atoi 0 digits * factor unit) sps

raw_total-ge : (n : ℕ) (sps : List Raw) → n ≤ raw_total n sps
unfolding raw_total
raw_total-ge n [] = omega arith
raw_total-ge n ((digits, unit) ∷ sps) =
    omega (arith, raw_total-ge (n + atoi 0 digits * factor unit) sps)

span_loop-digits :
    (tmp digits rest : Bytes) (n : ℕ)
    → All (λ c. is_digit c ≡ true) digits
    → span_loop tmp (digits ++ rest) (some n) ≡ span_loop (tmp ++ digits) rest (some n)
unfolding span_loop
span_loop-digits tmp [] rest n h =
    ap (λ (t : Bytes). span_loop t rest (some n)) (sym (append-nil tmp))
span_loop-digits tmp (d ∷ digits) rest n h = rw h.0 (
    span_loop-digits (tmp ++ d ∷ []) digits rest n h.1
    ∙ ap (λ (t : Bytes). span_loop t rest (some n)) (append_assoc tmp (d ∷ []) digits))

span_loop-letter :
    (tmp : Bytes) (c : ℕ) (rest : Bytes) (n : ℕ)
    → is_digit c ≡ false
    → span_loop tmp (c ∷ rest) (some n) ≡ span_loop [] rest (add_span n tmp c)
unfolding span_loop
span_loop-letter [] c rest n h = rw h refl
span_loop-letter (d ∷ tmp) c rest n h = rw h refl

pick :
    (f n a l : ℕ)
    → l ≤ 9
    → n + a * f < int_end
    → (if f == 0
        then some n
        else if ltb l 10 && ltb (n + a * f) int_end
        then some (n + a * f)
        else none)
      ≡ some (n + a * f)
pick zero n a l short fits = ap some (omega arith)
pick (suc f) n a l short fits =
    let room : ltb l 10 ≡ true = ground arith in
    let small : ltb (n + a * suc f) int_end ≡ true = lt→ltb (n + a * suc f) int_end fits in
    let some_unit : (suc f == 0) ≡ false = ground arith in rw (some_unit, room, small) refl

add_span-some :
    (n : ℕ) (tmp : Bytes) (c : ℕ)
    → length tmp ≤ 9
    → n + atoi 0 tmp * factor c < int_end
    → add_span n tmp c ≡ some (n + atoi 0 tmp * factor c)
unfolding add_span
add_span-some n tmp c short fits = pick (factor c) n (atoi 0 tmp) (length tmp) short fits

span_loop-print_raw :
    (sps : List Raw) (n : ℕ)
    → All IsRaw sps
    → raw_total n sps < int_end
    → span_loop [] (print_raw sps) (some n) ≡ some (raw_total n sps)
unfolding span_loop print_raw raw_total
span_loop-print_raw [] n h fits = refl
span_loop-print_raw ((digits, unit) ∷ sps) n h fits =
    let n' = n + atoi 0 digits * factor unit in
    let bound : n' < int_end = omega (arith, raw_total-ge n' sps) in
    span_loop-digits [] digits (unit ∷ print_raw sps) n h.0.0
    ∙ span_loop-letter digits unit (print_raw sps) n h.0.2
    ∙ ap (span_loop [] (print_raw sps)) (add_span-some n digits unit h.0.1 bound)
    ∙ span_loop-print_raw sps n' h.1 fits

-- The seconds of a text of spans of at most nine digits each: every number times its unit, where a
-- second counts as 61, if the sum fits an `int`.
pub time_to_sec-print_raw :
    (sps : List Raw)
    → All IsRaw sps
    → raw_total 0 sps < int_end
    → time_to_sec (print_raw sps) ≡ some (raw_total 0 sps)
unfolding time_to_sec
time_to_sec-print_raw sps h fits = span_loop-print_raw sps 0 h fits
