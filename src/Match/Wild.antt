-- ===== src/Match/Wild.antt =====
-- `match_wild` of src/match.c. The `for` loop consumes one byte of the pattern in each round, so
-- it is a recursion on the pattern; each case of the `switch` is a function that is given the rest
-- of the loop. The arguments are texts, so the tests for NULL have no counterpart here.
pub mod Language
pub mod Decides
use omega_services.Prelude.{
  ℕ, Bool, true, false, ◌&&◌, ◌||◌, [], ◌∷◌, Bytes, tolower, ◌==◌, if◌then◌else◌,
}

-- `docase ? (a == b) : (tolower (a) == tolower (b))`
unfoldable pub same_char : Bool → ℕ → ℕ → Bool
unfolding tolower
same_char docase a b = if docase then a == b else tolower a == tolower b

-- The test at the entry of `match_wild`: neither text is empty.
unfoldable pub enter : Bytes → (Bytes → Bool) → Bytes → Bool
enter [] rest s = false
enter (c ∷ p) rest [] = false
enter (c ∷ p) rest (x ∷ s) = rest (x ∷ s)

-- `case '?'`
unfoldable pub any_char : (Bytes → Bool) → Bytes → Bool
any_char rest [] = false
any_char rest (x ∷ s) = rest s

-- `while (*s)`, for a pattern that goes on with `c ∷ p`.
unfoldable pub scan : Bool → ℕ → (Bytes → Bool) → Bytes → Bool
scan docase c enter_here [] = false
scan docase c enter_here (x ∷ s) =
    (same_char docase x c && enter_here (x ∷ s)) || scan docase c enter_here s

-- `case '*'`: after the scan the `break` goes on with `str` where it was.
unfoldable pub star : Bool → Bytes → (Bytes → Bool) → Bytes → Bool
unfolding scan enter
star docase [] rest s = true
star docase (c ∷ p) rest s = scan docase c (enter (c ∷ p) rest) s || rest s

-- `default`; at the end of the text the NUL differs from every byte of the pattern.
unfoldable pub literal : Bool → ℕ → (Bytes → Bool) → Bytes → Bool
literal docase c rest [] = false
literal docase c rest (x ∷ s) = same_char docase x c && rest s

unfoldable pub loop : Bool → Bytes → Bytes → Bool
unfolding any_char star literal
loop docase [] [] = true
loop docase [] (x ∷ s) = false
loop docase (c ∷ p) s =
    let rest = loop docase p in
    if c == b'?'
    then any_char rest s
    else if c == b'*'
    then star docase p rest s
    else literal docase c rest s

unfoldable pub match_wild : Bytes → Bytes → Bool → Bool
unfolding enter loop
match_wild pattern str docase = enter pattern (loop docase pattern) str
