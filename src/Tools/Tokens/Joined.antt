-- ===== src/Tools/Tokens/Joined.antt =====
-- Words that `ExpandParv` joins are the words that `generictoken` cuts out.
use omega_services.Prelude.{
  ℕ, zero, suc, ◌-◌, ◌<◌, ◌≤◌, ◌≡◌, refl, ap, sym, ◌∙◌, false, some, List, [], ◌∷◌, ◌++◌,
  append-nil, append_assoc, Bytes, length, length-append, All, drop, take-eq_self, has_char, spaced,
  inl, inr, Bool-cases, ◌==◌, arith,
}
use omega_services.Access.{fit}
use omega_services.Network.{◌>>=◌}
use omega_services.Tools.Tokens.{skip, next_word, scan, generictoken, expand_from, expand_parv}

-- A word: it has a byte, and no space.
abbrev pub IsWord : Bytes → Type 0
IsWord w = (0 < length w) × (has_char w b' ' ≡ false)

scan-last : (room : ℕ) (w : Bytes) → has_char w b' ' ≡ false → scan b' ' room w ≡ (w, [])
unfolding scan has_char
scan-last zero w h = refl
scan-last (suc room) [] h = refl
scan-last (suc room) (c ∷ w) h = elim (Bool-cases (c == b' ')) [
  | inl space ↦ absurd (ground (arith, h, space))
  | inr other ↦ rw (other, scan-last (suc room) w (ground (arith, h, other))) refl
]

scan-word :
    (room : ℕ) (w t : Bytes)
    → has_char w b' ' ≡ false
    → scan b' ' (suc room) (w ++ b' ' ∷ t)
      ≡ (w, next_word (scan b' ' room) (skip b' ' (skip b' ' t)))
unfolding scan has_char
scan-word room [] t h = refl
scan-word room (c ∷ w) t h = elim (Bool-cases (c == b' ')) [
  | inl space ↦ absurd (ground (arith, h, space))
  | inr other ↦ rw (other, scan-word room w t (ground (arith, h, other))) refl
]

skip-word : (w t : Bytes) → IsWord w → skip b' ' (w ++ t) ≡ w ++ t
unfolding skip has_char
skip-word [] t h = absurd (omega arith)
skip-word (c ∷ w) t h = ground arith

next_word-word :
    (go : Bytes → Bytes × List Bytes) (w t : Bytes) (ws : List Bytes)
    → IsWord w
    → go (w ++ t) ≡ (w, ws)
    → next_word go (w ++ t) ≡ w ∷ ws
next_word-word go [] t ws h e = absurd (omega arith)
next_word-word go (c ∷ w) t ws h e = rw e refl

scan-spaced :
    (room : ℕ) (w : Bytes) (ws : List Bytes)
    → IsWord w
    → All IsWord ws
    → length ws ≤ room
    → scan b' ' room (w ++ spaced ws) ≡ (w, ws)
scan-spaced room w [] h hs le = rw (append-nil w) (scan-last room w h.1)
scan-spaced zero w (v ∷ vs) h hs le = absurd (omega arith)
scan-spaced (suc room) w (v ∷ vs) h hs le =
    scan-word room w (v ++ spaced vs) h.1
    ∙ ap (λ (t : Bytes). (w, next_word (scan b' ' room) (skip b' ' t)))
        (skip-word v (spaced vs) hs.0)
    ∙ ap (λ (t : Bytes). (w, next_word (scan b' ' room) t)) (skip-word v (spaced vs) hs.0)
    ∙ ap (λ (l : List Bytes). (w, l))
        (next_word-word (scan b' ' room) v (spaced vs) vs hs.0
          (scan-spaced room v vs hs.0 hs.1 (omega arith)))

expand_from-spaced :
    (max : ℕ) (dest : Bytes) (ws : List Bytes)
    → length (dest ++ spaced ws) < max
    → expand_from max dest ws ≡ dest ++ spaced ws
unfolding expand_from
expand_from-spaced max dest [] h = sym (append-nil dest)
expand_from-spaced max dest (w ∷ ws) h =
    let dest' = (dest ++ b' ' ∷ []) ++ w in
    let same : dest' ++ spaced ws ≡ dest ++ spaced (w ∷ ws) =
      append_assoc (dest ++ b' ' ∷ []) w (spaced ws)
      ∙ append_assoc dest (b' ' ∷ []) (w ++ spaced ws) in
    let short : length (dest' ++ spaced ws) < max = rw same h in
    let fits : fit max dest' ≡ dest' =
      take-eq_self (max - 1) dest' (omega (arith, length-append dest' (spaced ws))) in
    let fits' : fit max (dest ++ b' ' ∷ []) ≡ dest ++ b' ' ∷ [] =
      take-eq_self (max - 1) (dest ++ b' ' ∷ [])
        (omega (arith, length-append dest' (spaced ws), length-append (dest ++ b' ' ∷ []) w)) in
    rw (fits', fits) (expand_from-spaced max dest' ws short ∙ same)

-- What `ExpandParv` writes of the words from `initial` on, `generictoken` cuts at its spaces into just
-- these words: if there is one, each has a byte and no space, the text with its NUL fits `dest`, and
-- `parv` has room for them.
pub generictoken-expand_parv :
    (max initial size : ℕ) (parv : List Bytes) (w : Bytes) (ws : List Bytes)
    → drop initial parv ≡ w ∷ ws
    → All IsWord (w ∷ ws)
    → length (w ++ spaced ws) < max
    → length (w ∷ ws) ≤ size
    → (expand_parv max initial parv >>= λ dest. some (generictoken b' ' size dest)) ≡ some (w ∷ ws)
unfolding expand_parv generictoken
generictoken-expand_parv max initial size parv w ws e h short room =
    let fits : fit max w ≡ w =
      take-eq_self (max - 1) w (omega (arith, length-append w (spaced ws))) in
    rw
      (
        e,
        fits,
        expand_from-spaced max w ws short,
        scan-spaced (size - 1) w ws h.0 h.1 (omega arith),
      )
      refl
