-- ===== src/Samples/Times.antt =====
-- Spans of time.
use omega_services.Prelude.{◌≡◌, refl, none, some, List, [], ◌∷◌, codes, arith, All}
use omega_services.Tools.Times.{time_to_sec}
use omega_services.Tools.Times.Units.{
  Span, hour, minute, second, IsSpan, print_spans, total, time_to_sec-print_spans,
}

abbrev spans : List Span
spans = (1 ∷ [], hour) ∷ (3 ∷ 0 ∷ [], minute) ∷ (1 ∷ 0 ∷ [], second) ∷ []

spans-IsSpan : All IsSpan spans
spans-IsSpan = ground arith

spans_runs : total spans ≡ 6010
unfolding total
spans_runs = refl

-- An hour, 30 minutes and 10 seconds, which count as 610.
time_to_sec-print_spans_example : time_to_sec (codes "1h30m10s") ≡ some 6010
unfolding print_spans total
time_to_sec-print_spans_example =
    time_to_sec-print_spans spans spans-IsSpan (omega (arith, spans_runs))

-- A text that ends in a digit is read past its end.
no_unit_runs : time_to_sec (codes "30") ≡ none
unfolding time_to_sec
no_unit_runs = refl
