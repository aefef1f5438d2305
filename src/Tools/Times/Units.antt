-- ===== src/Tools/Times/Units.antt =====
-- `time_to_sec` against what a span of time is: decimal numbers and units of time.
use omega_services.Prelude.{
  ℕ, suc, ◌+◌, ◌-◌, ◌*◌, ◌≤◌, ◌<◌, ◌≡◌, refl, ap, ◌∙◌, sym, true, false, some, List, [], ◌∷◌, ◌++◌,
  map, Bytes, length, arith, All,
}
use omega_services.Tools.Times.{is_digit, atoi, factor, int_end, time_to_sec}
use omega_services.Tools.Times.Spans.{Raw, IsRaw, print_raw, raw_total, time_to_sec-print_raw}

pub data SpanUnit : Type 0 where
  second minute hour day month year : SpanUnit

abbrev pub letter : SpanUnit → ℕ
letter second = b's'
letter minute = b'm'
letter hour = b'h'
letter day = b'd'
letter month = b'n'
letter year = b'y'

-- A second counts as one of its own and sixty more.
abbrev pub seconds : SpanUnit → ℕ
seconds second = 1 + 60
seconds minute = 60
seconds hour = 60 * 60
seconds day = 24 * (60 * 60)
seconds month = 2629743
seconds year = 31556926

-- The place of the digit before some digits.
abbrev pub place : List ℕ → ℕ
place [] = 1
place (d ∷ ds) = 10 * place ds

-- The number that some digits stand for, the highest first.
abbrev pub number : List ℕ → ℕ
number [] = 0
number (d ∷ ds) = d * place ds + number ds

-- The digits of a number, and its unit.
abbrev pub Span : Type 0
Span = List ℕ × SpanUnit

abbrev pub IsSpan : Span → Type 0
IsSpan sp = All (λ d. d ≤ 9) sp.0 × (length sp.0 ≤ 9)

abbrev pub digit : ℕ → ℕ
digit d = b'0' + d

abbrev raw : Span → Raw
raw sp = (map digit sp.0, letter sp.1)

unfoldable pub print_spans : List Span → Bytes
print_spans [] = []
print_spans (sp ∷ sps) = map digit sp.0 ++ letter sp.1 ∷ print_spans sps

unfoldable pub total : List Span → ℕ
total [] = 0
total (sp ∷ sps) = number sp.0 * seconds sp.1 + total sps

factor-letter : (u : SpanUnit) → factor (letter u) ≡ seconds u
unfolding factor
factor-letter second = refl
factor-letter minute = refl
factor-letter hour = refl
factor-letter day = refl
factor-letter month = refl
factor-letter year = refl

letter-no_digit : (u : SpanUnit) → is_digit (letter u) ≡ false
letter-no_digit second = refl
letter-no_digit minute = refl
letter-no_digit hour = refl
letter-no_digit day = refl
letter-no_digit month = refl
letter-no_digit year = refl

shift : (n d p v : ℕ) → (n * 10 + d) * p + v ≡ n * (10 * p) + (d * p + v)
shift n d p v = grind arith

atoi-digits : (n : ℕ) (ds : List ℕ) → atoi n (map digit ds) ≡ n * place ds + number ds
unfolding atoi
atoi-digits n [] = omega arith
atoi-digits n (d ∷ ds) =
    let own : b'0' + d - b'0' ≡ d = omega arith in
    ap (λ (x : ℕ). atoi (n * 10 + x) (map digit ds)) own
    ∙ atoi-digits (n * 10 + d) ds
    ∙ shift n d (place ds) (number ds)

digits_lem : (ds : List ℕ) → All (λ d. d ≤ 9) ds → All (λ c. is_digit c ≡ true) (map digit ds)
digits_lem [] h = tt
digits_lem (d ∷ ds) h = (ground (arith, h.0), digits_lem ds h.1)

length-map-digit : (ds : List ℕ) → length (map digit ds) ≡ length ds
length-map-digit [] = refl
length-map-digit (d ∷ ds) = ap (λ (n : ℕ). suc n) (length-map-digit ds)

raw-IsRaw : (sps : List Span) → All IsSpan sps → All IsRaw (map raw sps)
raw-IsRaw [] h = tt
raw-IsRaw (sp ∷ sps) h = (
  (digits_lem sp.0 h.0.0, omega (arith, length-map-digit sp.0, h.0.1), letter-no_digit sp.1),
  raw-IsRaw sps h.1,
)

print_raw-raw : (sps : List Span) → print_raw (map raw sps) ≡ print_spans sps
unfolding print_raw print_spans
print_raw-raw [] = refl
print_raw-raw (sp ∷ sps) = ap (λ (t : Bytes). map digit sp.0 ++ letter sp.1 ∷ t) (print_raw-raw sps)

-- What one span adds.
added : (sp : Span) → atoi 0 (map digit sp.0) * factor (letter sp.1) ≡ number sp.0 * seconds sp.1
added sp =
    ap (λ (f : ℕ). atoi 0 (map digit sp.0) * f) (factor-letter sp.1)
    ∙ ap (λ (n : ℕ). n * seconds sp.1) (atoi-digits 0 sp.0 ∙ omega arith)

raw_total-raw : (n : ℕ) (sps : List Span) → raw_total n (map raw sps) ≡ n + total sps
unfolding raw_total total
raw_total-raw n [] = omega arith
raw_total-raw n (sp ∷ sps) =
    ap (λ (t : ℕ). raw_total (n + t) (map raw sps)) (added sp)
    ∙ raw_total-raw (n + number sp.0 * seconds sp.1) sps
    ∙ omega arith

-- Decimal numbers of at most nine digits, each with the letter of a unit of time behind it, are read as
-- the sum of the numbers times their units in seconds, where a second itself counts as 61, if the
-- sum fits an `int`.
pub time_to_sec-print_spans :
    (sps : List Span)
    → All IsSpan sps
    → total sps < int_end
    → time_to_sec (print_spans sps) ≡ some (total sps)
time_to_sec-print_spans sps h fits =
    ap (λ (t : Bytes). time_to_sec t) (sym (print_raw-raw sps))
    ∙ time_to_sec-print_raw (map raw sps) (raw-IsRaw sps h)
        (omega (arith, raw_total-raw 0 sps, fits))
    ∙ ap (λ (n : ℕ). some n) (raw_total-raw 0 sps ∙ omega arith)
