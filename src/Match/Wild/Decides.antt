-- ===== src/Match/Wild/Decides.antt =====
-- `match_wild` against the language of masks: it is sound, and complete where no `*` stands right
-- before a `?`.
use omega_services.Prelude.{
  ℕ, ◌≡◌, refl, ◌≢◌, ◌↔◌, inl, inr, Bool, true, false, [], ◌∷◌, Bytes, ◌==◌, Bool-cases, arith,
  has_char,
}
use omega_services.Match.Wild.{same_char, enter, any_char, scan, star, literal, loop, match_wild}
use omega_services.Match.Wild.Language.{Matches, done, one, byte, leave, absorb, NoStarAny}

module _ (docase : Bool) where
  absorb_all :
      {c : ℕ} {p : Bytes} (s : Bytes) → c ≡ b'*' → Matches docase p [] → Matches docase (c ∷ p) s
  absorb_all [] e m = leave e m
  absorb_all (x ∷ s) e m = absorb e (absorb_all s e m)

  -- What the scan finds is a suffix of the text from which the rest of the mask matches.
  scan_sound :
      {c d : ℕ} {p : Bytes} (rest : Bytes → Bool) (s : Bytes)
      → c ≡ b'*'
      → ((t : Bytes) → rest t ≡ true → Matches docase (d ∷ p) t)
      → scan docase d (enter (d ∷ p) rest) s ≡ true
      → Matches docase (c ∷ d ∷ p) s
  unfolding scan enter
  scan_sound rest [] e sound h = cc
  scan_sound {d} {p} rest (x ∷ s) e sound h = elim (Bool-cases (rest (x ∷ s))) [
    | inl here ↦ leave e (sound (x ∷ s) here)
    | inr miss ↦ absorb e (scan_sound {p = p} rest s e sound (ground arith))
  ]

  star_sound :
      {c : ℕ} (p : Bytes) (rest : Bytes → Bool) (s : Bytes)
      → c ≡ b'*'
      → ((t : Bytes) → rest t ≡ true → Matches docase p t)
      → star docase p rest s ≡ true
      → Matches docase (c ∷ p) s
  unfolding star loop
  star_sound [] rest s e sound h = absorb_all s e done
  star_sound (d ∷ p) rest s e sound h = elim (Bool-cases (rest s)) [
    | inl here ↦ leave e (sound s here)
    | inr miss ↦ scan_sound rest s e sound (ground arith)
  ]

  any_char_sound :
      {c : ℕ} {p : Bytes} (rest : Bytes → Bool) (s : Bytes)
      → c ≡ b'?'
      → ((t : Bytes) → rest t ≡ true → Matches docase p t)
      → any_char rest s ≡ true
      → Matches docase (c ∷ p) s
  unfolding any_char
  any_char_sound rest [] e sound h = cc
  any_char_sound rest (x ∷ s) e sound h = one e (sound s h)

  literal_sound :
      {c : ℕ} {p : Bytes} (rest : Bytes → Bool) (s : Bytes)
      → c ≢ b'?'
      → c ≢ b'*'
      → ((t : Bytes) → rest t ≡ true → Matches docase p t)
      → literal docase c rest s ≡ true
      → Matches docase (c ∷ p) s
  unfolding literal
  literal_sound rest [] n m sound h = cc
  literal_sound rest (x ∷ s) n m sound h = byte n m (ground arith) (sound s (ground arith))

  loop_sound : (p s : Bytes) → loop docase p s ≡ true → Matches docase p s
  unfolding loop
  loop_sound [] [] h = done
  loop_sound [] (x ∷ s) h = cc
  loop_sound (c ∷ p) s h = elim (Bool-cases (c == b'?')) [
    | inl any ↦ any_char_sound (loop docase p) s (ground arith) (loop_sound p) (rw any at h)
    | inr not_any ↦ elim (Bool-cases (c == b'*')) [
      | inl run ↦
          star_sound p (loop docase p) s (ground arith) (loop_sound p) (rw (not_any, run) at h)
      | inr not_run ↦
          literal_sound (loop docase p) s (ground arith) (ground arith) (loop_sound p)
            (rw (not_any, not_run) at h)
    ]
  ]

  two_stars :
      {c d : ℕ} {p s : Bytes}
      → c ≡ b'*'
      → d ≡ b'*'
      → Matches docase (c ∷ d ∷ p) s
      → Matches docase (d ∷ p) s
  two_stars e f (one g m) = absurd (omega arith)
  two_stars e f (byte n k g m) = absurd (k e)
  two_stars e f (leave g m) = m
  two_stars e f (absorb g m) = absorb f (two_stars e f m)

  scan-here :
      {d : ℕ} {p s : Bytes} (rest : Bytes → Bool)
      → d ≢ b'?'
      → d ≢ b'*'
      → rest s ≡ true
      → Matches docase (d ∷ p) s
      → scan docase d (enter (d ∷ p) rest) s ≡ true
  unfolding scan enter
  scan-here rest n k h (one g m) = absurd (n g)
  scan-here rest n k h (byte _ _ g m) = ground arith
  scan-here rest n k h (leave g m) = absurd (k g)
  scan-here rest n k h (absorb g m) = absurd (k g)

  scan_complete :
      {c d : ℕ} {p s : Bytes} (rest : Bytes → Bool)
      → c ≡ b'*'
      → d ≢ b'?'
      → d ≢ b'*'
      → ((t : Bytes) → Matches docase (d ∷ p) t → rest t ≡ true)
      → Matches docase (c ∷ d ∷ p) s
      → scan docase d (enter (d ∷ p) rest) s ≡ true
  unfolding scan
  scan_complete rest e n k complete (one g m) = absurd (omega arith)
  scan_complete rest e n k complete (byte _ j g m) = absurd (j e)
  scan_complete {s} rest e n k complete (leave g m) = scan-here rest n k (complete s m) m
  scan_complete rest e n k complete (absorb g m) =
      ground (arith, scan_complete rest e n k complete m)

  star_complete :
      {c : ℕ} (p s : Bytes) (rest : Bytes → Bool)
      → c ≡ b'*'
      → NoStarAny (c ∷ p)
      → ((t : Bytes) → Matches docase p t → rest t ≡ true)
      → Matches docase (c ∷ p) s
      → star docase p rest s ≡ true
  unfolding star
  star_complete [] s rest e plain complete m = refl
  star_complete (d ∷ p) s rest e plain complete m = elim (Bool-cases (d == b'*')) [
    | inl run ↦ ground (arith, complete s (two_stars e (ground arith) m))
    | inr not_run ↦ ground (arith, scan_complete rest e (plain.0 e) (ground arith) complete m)
  ]

  any_char_complete :
      {c : ℕ} {p s : Bytes} (rest : Bytes → Bool)
      → c ≡ b'?'
      → ((t : Bytes) → Matches docase p t → rest t ≡ true)
      → Matches docase (c ∷ p) s
      → any_char rest s ≡ true
  unfolding any_char
  any_char_complete rest e complete (one {s} g m) = complete s m
  any_char_complete rest e complete (byte n _ g m) = absurd (n e)
  any_char_complete rest e complete (leave g m) = absurd (omega arith)
  any_char_complete rest e complete (absorb g m) = absurd (omega arith)

  literal_complete :
      {c : ℕ} {p s : Bytes} (rest : Bytes → Bool)
      → c ≢ b'?'
      → c ≢ b'*'
      → ((t : Bytes) → Matches docase p t → rest t ≡ true)
      → Matches docase (c ∷ p) s
      → literal docase c rest s ≡ true
  unfolding literal
  literal_complete rest n k complete (one g m) = absurd (n g)
  literal_complete rest n k complete (byte {s} _ _ g m) = ground (arith, complete s m)
  literal_complete rest n k complete (leave g m) = absurd (k g)
  literal_complete rest n k complete (absorb g m) = absurd (k g)

  NoStarAny-tail : (c : ℕ) (p : Bytes) → NoStarAny (c ∷ p) → NoStarAny p
  NoStarAny-tail c [] h = tt
  NoStarAny-tail c (d ∷ p) h = h.1

  loop_complete : (p s : Bytes) → NoStarAny p → Matches docase p s → loop docase p s ≡ true
  unfolding loop
  loop_complete [] [] plain m = refl
  loop_complete [] (x ∷ s) plain m = elim m [ ]
  loop_complete (c ∷ p) s plain m =
      let rest_complete = λ (t : Bytes). loop_complete p t (NoStarAny-tail c p plain) in
      elim (Bool-cases (c == b'?')) [
        | inl any ↦ rw any (any_char_complete (loop docase p) (ground arith) rest_complete m)
        | inr not_any ↦ elim (Bool-cases (c == b'*')) [
          | inl run ↦
              rw (not_any, run)
                (star_complete p s (loop docase p) (ground arith) plain rest_complete m)
          | inr not_run ↦
              rw (not_any, not_run)
                (literal_complete (loop docase p) (ground arith) (ground arith) rest_complete m)
        ]
      ]

  -- A text that `match_wild` accepts is in the language of the mask, whatever the mask.
  pub match_wild_sound :
      (pattern str : Bytes) → match_wild pattern str docase ≡ true → Matches docase pattern str
  unfolding match_wild
  match_wild_sound [] str h = cc
  match_wild_sound (c ∷ p) [] h = cc
  match_wild_sound (c ∷ p) (x ∷ s) h = loop_sound (c ∷ p) (x ∷ s) h

  -- For a text that is not empty, and a mask that is not empty and in which no `*` is followed at
  -- once by `?`, `match_wild` returns true exactly if the text is in the language of the mask.
  pub match_wild_iff :
      (pattern str : Bytes)
      → pattern ≢ []
      → str ≢ []
      → NoStarAny pattern
      → (match_wild pattern str docase ≡ true) ↔ Matches docase pattern str
  unfolding match_wild
  match_wild_iff [] str n k plain = absurd (n refl)
  match_wild_iff (c ∷ p) [] n k plain = absurd (k refl)
  match_wild_iff (c ∷ p) (x ∷ s) n k plain =
      (loop_sound (c ∷ p) (x ∷ s), loop_complete (c ∷ p) (x ∷ s) plain)

  scan-miss :
      (rest : Bytes → Bool) (s : Bytes) → has_char s b'?' ≡ false → scan docase b'?' rest s ≡ false
  unfolding scan has_char same_char
  scan-miss rest [] h = refl
  scan-miss rest (x ∷ s) h = ground (arith, scan-miss rest s)

  -- On a text without a question mark, a `*` right before a `?` stands for the empty run only: the
  -- mask `*?p` is matched as `?p` is.
  pub match_wild-star_any :
      (p str : Bytes)
      → has_char str b'?' ≡ false
      → match_wild (b'*' ∷ b'?' ∷ p) str docase ≡ match_wild (b'?' ∷ p) str docase
  unfolding match_wild
  match_wild-star_any p [] h = refl
  match_wild-star_any p (x ∷ s) h =
      rw (scan-miss (enter (b'?' ∷ p) (loop docase (b'?' ∷ p))) (x ∷ s) h)
