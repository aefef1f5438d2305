-- ===== src/Match/Wild/Language.antt =====
-- What a mask means, with no search order in it: `?` is one byte, `*` is any run of bytes, and any
-- other byte is itself, up to case where the comparison ignores it.
use omega_services.Prelude.{ℕ, ◌≡◌, ◌≢◌, Bool, true, [], ◌∷◌, Bytes}
use omega_services.Match.Wild.{same_char}

pub data Matches (docase : Bool) : Bytes → Bytes → Type 0 where
  done : Matches docase [] []
  one : {c x : ℕ} {p s : Bytes} → c ≡ b'?' → Matches docase p s → Matches docase (c ∷ p) (x ∷ s)
  byte :
      {c x : ℕ} {p s : Bytes}
      → c ≢ b'?'
      → c ≢ b'*'
      → same_char docase x c ≡ true
      → Matches docase p s
      → Matches docase (c ∷ p) (x ∷ s)
  leave : {c : ℕ} {p s : Bytes} → c ≡ b'*' → Matches docase p s → Matches docase (c ∷ p) s
  absorb :
      {c x : ℕ} {p s : Bytes} → c ≡ b'*' → Matches docase (c ∷ p) s → Matches docase (c ∷ p) (x ∷ s)

-- No `*` is followed at once by a `?`.
abbrev pub NoStarAny : Bytes → Type 0
NoStarAny [] = Unit
NoStarAny (c ∷ []) = Unit
NoStarAny (c ∷ d ∷ p) = (c ≡ b'*' → d ≢ b'?') × NoStarAny (d ∷ p)
