-- ===== src/Prelude/Chars.antt =====
-- C strings: the bytes before the terminating NUL. `tolower`, `strcasecmp` and `strchr` are those
-- of the C locale.
use Prim.Native.Nat.{ℕ, suc, ◌+◌}
use Prim.Native.Char.{code}
use Prim.Native.String.{String}
use mathlib.Core.Path.{◌≡◌, refl, ap, sym, ◌∙◌}
use mathlib.Core.Logic.{◌↔◌}
use mathlib.Core.Bool.{Bool, true, false, ◌&&◌}
use mathlib.Core.List.{List, [], ◌∷◌, ◌++◌, map}
use native.Mathlib.Omega.{arith}
use omega_services.Prelude.Lists.{length}
use omega_services.Prelude.Tests.{leb, ◌==◌, if◌then◌else◌}

abbrev pub Bytes : Type 0
Bytes = List ℕ

-- The code points of a text: its bytes, since every text used here is ASCII.
abbrev pub codes : String → Bytes
codes String.[] = []
codes (String.◌∷◌ c s) = code c ∷ codes s

unfoldable pub tolower : ℕ → ℕ
tolower c = if leb b'A' c && leb c b'Z' then c + 32 else c

unfoldable pub eq_bytes : Bytes → Bytes → Bool
eq_bytes [] [] = true
eq_bytes [] (b ∷ bs) = false
eq_bytes (a ∷ as') [] = false
eq_bytes (a ∷ as') (b ∷ bs) = (a == b) && eq_bytes as' bs

-- `strcasecmp (a, b) == 0`
unfoldable pub eq_nocase : Bytes → Bytes → Bool
unfolding eq_bytes tolower
eq_nocase a b = eq_bytes (map tolower a) (map tolower b)

-- `strchr (s, c) != NULL` for a byte `c` that is not NUL
unfoldable pub has_char : Bytes → ℕ → Bool
has_char [] c = false
has_char (x ∷ xs) c = if x == c then true else has_char xs c

-- Words with one space before each.
abbrev pub spaced : List Bytes → Bytes
spaced [] = []
spaced (w ∷ ws) = b' ' ∷ w ++ spaced ws

pub eq_bytes_iff : (a b : Bytes) → (eq_bytes a b ≡ true) ↔ (a ≡ b)
unfolding eq_bytes
eq_bytes_iff [] [] = ground arith
eq_bytes_iff [] (b ∷ bs) = ground arith
eq_bytes_iff (a ∷ as') [] = ground arith
eq_bytes_iff (a ∷ as') (b ∷ bs) = ground (arith, eq_bytes_iff as' bs)

-- Two texts are equal up to case exactly if they have one lower-case form.
pub eq_nocase_iff : (a b : Bytes) → (eq_nocase a b ≡ true) ↔ (map tolower a ≡ map tolower b)
unfolding eq_nocase
eq_nocase_iff a b = eq_bytes_iff (map tolower a) (map tolower b)

pub eq_nocase_refl : (a : Bytes) → eq_nocase a a ≡ true
eq_nocase_refl a = (eq_nocase_iff a a).1 refl

-- A third text cannot tell two texts apart that are equal up to case.
pub eq_nocase-congruence : (a b c : Bytes) → eq_nocase a b ≡ true → eq_nocase a c ≡ eq_nocase b c
unfolding eq_nocase
eq_nocase-congruence a b c h =
    ap (λ (t : Bytes). eq_bytes t (map tolower c)) ((eq_nocase_iff a b).0 h)

pub eq_nocase_sym : (a b : Bytes) → eq_nocase a b ≡ true → eq_nocase b a ≡ true
eq_nocase_sym a b h = (eq_nocase_iff b a).1 (sym ((eq_nocase_iff a b).0 h))

pub eq_nocase_comm : (a b : Bytes) → eq_nocase a b ≡ eq_nocase b a
eq_nocase_comm a b = ground (arith, eq_nocase_sym a b, eq_nocase_sym b a)

-- Two texts that are equal to a third one up to case are equal up to case.
pub eq_nocase_join :
    (a b c : Bytes) → eq_nocase a c ≡ true → eq_nocase b c ≡ true → eq_nocase a b ≡ true
eq_nocase_join a b c h k =
    (eq_nocase_iff a b).1 ((eq_nocase_iff a c).0 h ∙ sym ((eq_nocase_iff b c).0 k))

length-map : (f : ℕ → ℕ) (s : Bytes) → length (map f s) ≡ length s
length-map f [] = refl
length-map f (c ∷ s) = ap (λ (n : ℕ). suc n) (length-map f s)

-- Texts that are equal up to case have one length.
pub length-eq_nocase : (a b : Bytes) → eq_nocase a b ≡ true → length a ≡ length b
length-eq_nocase a b h =
    sym (length-map tolower a)
    ∙ ap (λ (t : Bytes). length t) ((eq_nocase_iff a b).0 h)
    ∙ length-map tolower b
