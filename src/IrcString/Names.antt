-- ===== src/IrcString/Names.antt =====
-- What the validators of src/irc_string.c accept.
use omega_services.Prelude.{
  ℕ, suc, ◌+◌, ◌*◌, ◌<◌, ◌≡◌, refl, ◌↔◌, Bool, true, false, ◌&&◌, [], ◌∷◌, Bytes, length, sym, ap,
  ◌∙◌, ltb→lt, lt→ltb, inl, inr, Bool-cases, ltb, ◌==◌, if◌then◌else◌, arith,
}
use omega_services.IrcString.{
  is_sep, host_loop, valid_hostname, byte_behind, valid_username, serv_loop, valid_servername,
}
use omega_services.IrcString.Attrs.{is_host_char, is_user_char, is_serv_char}

abbrev pub count_if : (ℕ → Bool) → Bytes → ℕ
count_if test [] = 0
count_if test (c ∷ s) = if test c then suc (count_if test s) else count_if test s

-- How many dots a text has.
abbrev pub dots_of : Bytes → ℕ
dots_of s = count_if (λ c. c == b'.') s

abbrev pub each : (ℕ → Bool) → Bytes → Bool
each test [] = true
each test (c ∷ s) = test c && each test s

ltb_congr : (a b c d : ℕ) → (a < b → c < d) → (c < d → a < b) → ltb a b ≡ ltb c d
ltb_congr a b c d f g = elim (Bool-cases (ltb a b)) [
  | inl h ↦ h ∙ sym (lt→ltb c d (f (ltb→lt a b h)))
  | inr h ↦ elim (Bool-cases (ltb c d)) [
    | inl k ↦ absurd (ground (arith, h, g (ltb→lt c d k)))
    | inr k ↦ h ∙ sym k
  ]
]

and_congr : (e : Bool) {p q p' q' : Bool} → p ≡ p' → q ≡ q' → (e && (p && q)) ≡ (e && (p' && q'))
and_congr e h k = rw (h, k) refl

serv_loop-eq :
    (s : Bytes) (dots norm : ℕ)
    → serv_loop s dots norm ≡ (
        each is_serv_char s
        && (ltb 0 (dots + dots_of s) && ltb (dots + 2 * dots_of s) (norm + length s)))
unfolding serv_loop
serv_loop-eq [] dots norm = ground arith
serv_loop-eq (c ∷ s) dots norm = elim (Bool-cases (is_serv_char c)) [
  | inr h ↦ rw h refl
  | inl h ↦ rw h (elim (Bool-cases (c == b'.')) [
    | inl dot ↦
        rw (dot, serv_loop-eq s (dots + 1) norm)
          (and_congr (each is_serv_char s)
            (ltb_congr 0 (dots + 1 + dots_of s) 0 (dots + suc (dots_of s)) (λ k. omega arith)
              (λ k. omega arith))
            (ltb_congr (dots + 1 + 2 * dots_of s) (norm + length s) (dots + 2 * suc (dots_of s))
              (norm + suc (length s)) (λ k. omega arith) (λ k. omega arith)))
    | inr other ↦
        rw (other, serv_loop-eq s dots (norm + 1))
          (ap (λ (b : Bool). each is_serv_char s && (ltb 0 (dots + dots_of s) && b))
            (ltb_congr (dots + 2 * dots_of s) (norm + 1 + length s) (dots + 2 * dots_of s)
              (norm + suc (length s)) (λ k. omega arith) (λ k. omega arith)))
  ])
]

-- A server's name is valid exactly if all its bytes are of the class of server names, it has a dot,
-- and fewer than half of its bytes are dots.
pub valid_servername_iff :
    (servername : Bytes)
    → (valid_servername servername ≡ true) ↔ (
        (each is_serv_char servername ≡ true)
        × (0 < dots_of servername)
        × (2 * dots_of servername < length servername))
unfolding valid_servername
valid_servername_iff servername = ground (arith, serv_loop-eq servername 0 0)

host_loop-eq :
    (c : ℕ) (s : Bytes) (found_sep : ℕ)
    → host_loop c s found_sep
      ≡ (each is_host_char (c ∷ s) && ltb 0 (found_sep + count_if is_sep (c ∷ s)))
unfolding host_loop
host_loop-eq c [] found_sep = elim (Bool-cases (is_host_char c)) [
  | inr h ↦ rw h refl
  | inl h ↦ rw h (ground arith)
]
host_loop-eq c (d ∷ s) found_sep = elim (Bool-cases (is_host_char c)) [
  | inr h ↦ rw h refl
  | inl h ↦ rw h (elim (Bool-cases (is_sep c)) [
    | inl sep ↦ rw (sep, host_loop-eq d s (found_sep + 1)) (ground arith)
    | inr other ↦ rw (other, host_loop-eq d s found_sep) (ground arith)
  ])
]

three :
    (e : Bool) (k n : ℕ)
    → ((e && ltb 0 (0 + k)) ≡ true)
      ↔ ((0 < suc n) × (e ≡ true) × (0 < k) × (◌≡◌ {A = Bool} false false))
three e k n = ground arith

-- The first byte of a text, or the NUL of an empty one.
abbrev pub first_byte : Bytes → ℕ
first_byte [] = 0
first_byte (c ∷ s) = c

-- A host's name is valid exactly if it is not empty, all its bytes are of the class of host names,
-- it has a dot or a colon, and none stands first.
pub valid_hostname_iff :
    (hostname : Bytes)
    → (valid_hostname hostname ≡ true) ↔ (
        (0 < length hostname)
        × (each is_host_char hostname ≡ true)
        × (0 < count_if is_sep hostname)
        × (is_sep (first_byte hostname) ≡ false))
unfolding valid_hostname host_loop
valid_hostname_iff [] = ground arith
valid_hostname_iff (c ∷ s) = elim (Bool-cases (is_sep c)) [
  | inl sep ↦ rw sep ((λ h. cc), (λ h. cc (h.3)))
  | inr other ↦
      rw (host_loop-eq c s 0, other)
        (three (each is_host_char (c ∷ s)) (count_if is_sep s) (length s))
]

byte_behind_lem : (s : Bytes) → byte_behind s ≡ 0
byte_behind_lem [] = refl
byte_behind_lem (c ∷ s) = byte_behind_lem s

-- `valid_username` tests the NUL behind the name only, so it accepts no name at all.
pub valid_username-never : (username : Bytes) → valid_username username ≡ false
unfolding valid_username is_user_char
valid_username-never username = rw (byte_behind_lem username)
