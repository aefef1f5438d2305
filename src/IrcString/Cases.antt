-- ===== src/IrcString/Cases.antt =====
-- The tables `ToLowerTab` and `ToUpperTab` of src/irc_string.c, as functions of a byte. The four bytes
-- behind the letters go with the four behind the small ones, as in the rules of IRC.
use omega_services.Prelude.{
  ℕ, ◌+◌, ◌-◌, ◌<◌, ◌≡◌, refl, true, ◌&&◌, leb, ◌==◌, passes, passes_each, if◌then◌else◌, ==_iff,
}

-- `ToLowerTab[c]`
unfoldable pub to_lower : ℕ → ℕ
to_lower c = if leb b'A' c && leb c b'^' then c + 32 else c

-- `ToUpperTab[c]`
unfoldable pub to_upper : ℕ → ℕ
to_upper c = if leb b'a' c && leb c b'~' then c - 32 else c

to_lower-to_upper_table : passes (λ c. to_lower (to_upper c) == to_lower c) 256 ≡ true
unfolding passes to_lower to_upper
to_lower-to_upper_table = refl

-- A byte and its capital have one small form.
pub to_lower-to_upper : (c : ℕ) → c < 256 → to_lower (to_upper c) ≡ to_lower c
to_lower-to_upper c h =
    (==_iff _ _).0
      (passes_each (λ d. to_lower (to_upper d) == to_lower d) c to_lower-to_upper_table h)
