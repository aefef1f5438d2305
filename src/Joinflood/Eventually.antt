-- ===== src/Joinflood/Eventually.antt =====
-- What is left after `chk_floods` has run often enough.
use omega_services.Prelude.{
  ℕ, ◌≤◌, ◌<◌, ◌⊎◌, inl, inr, true, false, Bool, ◌&&◌, List, [], ◌∷◌, length, ltb, if◌then◌else◌,
  arith, All, Bool-cases,
}
use omega_services.Joinflood.{FloodChan, Sent, chk_floods}

-- `chk_floods` at each of these times, with no join between.
unfoldable pub checks : List ℕ → List FloodChan → List FloodChan
unfolding chk_floods
checks [] cs = cs
checks (t ∷ ts) cs = checks ts (chk_floods t cs).0

abbrev pub Lasts : ℕ → FloodChan → Type 0
Lasts now c = now ≤ c.join_floodend

one_round :
    (P : FloodChan → Type 0) (c : FloodChan) (cs : List FloodChan) (over stale : Bool)
    (rest : List FloodChan) (sent sent' : List Sent)
    → All P (c ∷ cs)
    → All P rest
    → let r : List FloodChan × List Sent =
        (if over then (rest, sent) else if stale then (cs, []) else (c ∷ rest, sent')) in
      All P r.0
one_round P c cs true stale rest sent sent' h r = r
one_round P c cs false true rest sent sent' h r = h.1
one_round P c cs false false rest sent sent' h r = (h.0, r)

chk_floods-All :
    (now t : ℕ) (cs : List FloodChan) → All (Lasts now) cs → All (Lasts now) (chk_floods t cs).0
unfolding chk_floods
chk_floods-All now t [] h = tt
chk_floods-All now t (c ∷ cs) h =
    one_round (Lasts now) c cs (c.jflood && ltb c.join_floodend t) (ltb c.join_floodend t) _ _ _ h
      (chk_floods-All now t cs h.1)

chk_floods-le : (t : ℕ) (cs : List FloodChan) → length (chk_floods t cs).0 ≤ length cs
unfolding chk_floods
chk_floods-le t [] = omega arith
chk_floods-le t (c ∷ cs) = ground (arith, chk_floods-le t cs)

chk_floods-shrinks :
    (t : ℕ) (cs : List FloodChan) → (length (chk_floods t cs).0 < length cs) ⊎ All (Lasts t) cs
unfolding chk_floods
chk_floods-shrinks t [] = inr tt
chk_floods-shrinks t (c ∷ cs) = elim (Bool-cases (ltb c.join_floodend t)) [
  | inl stale ↦ inl (ground (arith, chk_floods-le t cs))
  | inr lasting ↦ elim (chk_floods-shrinks t cs) [
    | inl fewer ↦ inl (ground (arith, fewer))
    | inr all ↦ inr (ground (arith, lasting), all)
  ]
]

Lasts-weaken : (now t : ℕ) (cs : List FloodChan) → now ≤ t → All (Lasts t) cs → All (Lasts now) cs
Lasts-weaken now t [] h a = tt
Lasts-weaken now t (c ∷ cs) h a = (omega (arith, a.0), Lasts-weaken now t cs h a.1)

checks-All :
    (now : ℕ) (ts : List ℕ) (cs : List FloodChan)
    → All (Lasts now) cs
    → All (Lasts now) (checks ts cs)
unfolding checks
checks-All now [] cs h = h
checks-All now (t ∷ ts) cs h = checks-All now ts (chk_floods t cs).0 (chk_floods-All now t cs h)

-- Though each run of `chk_floods` may leave entries that are over, as many runs as there are entries,
-- at no time before `now` and with no join between, leave none whose `join_floodend` is before `now`.
pub checks-Lasts :
    (now : ℕ) (ts : List ℕ) (cs : List FloodChan)
    → All (λ t. now ≤ t) ts
    → length cs ≤ length ts
    → All (Lasts now) (checks ts cs)
unfolding checks
checks-Lasts now [] [] late enough = tt
checks-Lasts now [] (c ∷ cs) late enough = absurd (omega arith)
checks-Lasts now (t ∷ ts) cs late enough = elim (chk_floods-shrinks t cs) [
  | inl fewer ↦ checks-Lasts now ts (chk_floods t cs).0 late.1 (omega (arith, fewer))
  | inr lasting ↦
      checks-All now ts (chk_floods t cs).0
        (chk_floods-All now t cs (Lasts-weaken now t cs late.0 lasting))
]
