-- ===== src/Tools/Times.antt =====
-- `time_to_sec` of src/tools.c: a span of time such as `1d12h` in seconds. `none` is a run that C gives
-- no meaning: a text that ends in a digit, since the loop steps over its NUL; ten digits or more before
-- a letter that counts, which `tmp[10]` has no room for; and a sum that does not fit an `int`.
pub mod Spans
pub mod Units
use omega_services.Prelude.{
  ℕ, zero, suc, ◌+◌, ◌*◌, ◌-◌, ◌^◌, Bool, true, false, ◌&&◌, Option, none, some, List, [], ◌∷◌,
  ◌++◌, Bytes, length, ltb, leb, ◌==◌, if◌then◌else◌,
}

abbrev pub is_digit : ℕ → Bool
is_digit c = leb b'0' c && leb c b'9'

-- `atoi` of a text of digits, after the value of those before.
unfoldable pub atoi : ℕ → Bytes → ℕ
atoi n [] = n
atoi n (c ∷ s) = atoi (n * 10 + (c - b'0')) s

-- What the `switch` adds for each unit of a letter: 's' falls through into 'm', and another letter
-- adds nothing.
unfoldable pub factor : ℕ → ℕ
factor c =
    if c == b's'
    then 61
    else if c == b'm'
    then 60
    else if c == b'h'
    then 3600
    else if c == b'd'
    then 86400
    else if c == b'n'
    then 2629743
    else if c == b'y'
    then 31556926
    else 0

abbrev pub int_end : ℕ
int_end = 2 ^ 31

-- The `switch` with the digits before the letter.
unfoldable pub add_span : ℕ → Bytes → ℕ → Option ℕ
unfolding atoi factor
add_span cur_time tmp c =
    let sum = cur_time + atoi 0 tmp * factor c in
    if factor c == 0
    then some cur_time
    else if ltb (length tmp) 10 && ltb sum int_end
    then some sum
    else none

-- The loop, behind the digits `tmp`.
unfoldable pub span_loop : Bytes → Bytes → Option ℕ → Option ℕ
unfolding add_span
span_loop tmp time none = none
span_loop [] [] (some cur_time) = some cur_time
span_loop (d ∷ tmp) [] (some cur_time) = none
span_loop tmp (c ∷ time) (some cur_time) =
    let more = span_loop (tmp ++ c ∷ []) time (some cur_time) in
    let next = span_loop [] time (add_span cur_time tmp c) in if is_digit c then more else next

unfoldable pub time_to_sec : Bytes → Option ℕ
unfolding span_loop
time_to_sec time = span_loop [] time (some 0)
