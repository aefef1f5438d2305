-- ===== src/Tools/Tokens.antt =====
-- `generictoken` and `ExpandParv` of src/tools.c: a text cut into words, and words joined to a text. The C
-- code cuts the text in place; here the words are lists.
pub mod Joined
use omega_services.Prelude.{
  ℕ, zero, suc, ◌+◌, ◌-◌, ◌*◌, ◌<◌, ◌≤◌, ◌≡◌, refl, ap, Bool, true, false, Option, none, some, List,
  [], ◌∷◌, ◌++◌, append-nil, Bytes, length, All, take, drop, take-eq_self, has_char, inl, inr,
  Bool-cases, ==_iff, ◌==◌, if◌then◌else◌, arith,
}
use omega_services.Access.{fit}

-- `while (*next == c) next++;`
unfoldable pub skip : ℕ → Bytes → Bytes
skip c [] = []
skip c (x ∷ s) = if x == c then skip c s else x ∷ s

-- What a delimiter ends: the text behind it is the next word, if there is one.
abbrev pub next_word : (Bytes → Bytes × List Bytes) → Bytes → List Bytes
next_word go [] = []
next_word go (x ∷ s) = let (w, ws) = go (x ∷ s) in w ∷ ws

-- The loop of `generictoken`, with room for so many more words: the rest of the current word, and the
-- words behind it. Without room the current word is all that is left of the text.
unfoldable pub scan : (delim room : ℕ) → Bytes → Bytes × List Bytes
unfolding skip
scan delim zero s = (s, [])
scan delim (suc room) [] = ([], [])
scan delim (suc room) (c ∷ s) =
    let behind : Bytes × List Bytes =
      ([], next_word (scan delim room) (skip b' ' (skip delim s))) in
    let (w, ws) = scan delim (suc room) s in if c == delim then behind else (c ∷ w, ws)

-- `generictoken`, for a `size` that is not 0.
unfoldable pub generictoken : (delim size : ℕ) → Bytes → List Bytes
unfolding scan
generictoken delim size message = let (w, ws) = scan delim (size - 1) message in w ∷ ws

-- The loop of `ExpandParv`: `strlcat` of a space and of each word. A text that is cut stays as it is.
unfoldable pub expand_from : (max : ℕ) → Bytes → List Bytes → Bytes
expand_from max dest [] = dest
expand_from max dest (w ∷ ws) = expand_from max (fit max (fit max (dest ++ b' ' ∷ []) ++ w)) ws

abbrev pub expand_words : (max : ℕ) → List Bytes → Option Bytes
expand_words max [] = none
expand_words max (w ∷ ws) = some (expand_from max (fit max w) ws)

-- `ExpandParv`, for an `initial` below `parc`.
unfoldable pub expand_parv : (max initial : ℕ) → List Bytes → Option Bytes
unfolding expand_from
expand_parv max initial parv = expand_words max (drop initial parv)

next_word-length :
    (go : Bytes → Bytes × List Bytes) (n : ℕ) (s : Bytes)
    → ((t : Bytes) → length (go t).1 ≤ n)
    → length (next_word go s) ≤ suc n
next_word-length go n [] h = omega arith
next_word-length go n (x ∷ s) h = omega (arith, h (x ∷ s))

scan-length : (delim room : ℕ) (s : Bytes) → length (scan delim room s).1 ≤ room
unfolding scan
scan-length delim zero s = omega arith
scan-length delim (suc room) [] = omega arith
scan-length delim (suc room) (c ∷ s) = elim (Bool-cases (c == delim)) [
  | inl end ↦
      rw end (
        next_word-length (scan delim room) room (skip b' ' (skip delim s)) (scan-length delim room))
  | inr other ↦ rw other (scan-length delim (suc room) s)
]

-- However many delimiters a text has, `generictoken` writes no more words than there is room for in
-- `parv`, if there is room for one.
pub generictoken-length :
    (delim size : ℕ) (message : Bytes) → 0 < size → length (generictoken delim size message) ≤ size
unfolding generictoken
generictoken-length delim size message h = omega (arith, scan-length delim (size - 1) message)
