-- ===== src/Tools/Uid/Counter.antt =====
-- The user ids are a counter: `generate_uid` adds one, so no id comes twice before all have come.
use native.Mathlib.Nat.{mod-add-mod, mod-eq_of_lt, add-zero, div-add-mod}
use native.Mathlib.Decide.{dec_le}
use omega_services.Prelude.{
  ℕ, zero, suc, ◌+◌, ◌-◌, ◌*◌, ◌%◌, ◌≤◌, ◌<◌, ◌≡◌, ◌≢◌, refl, ◌⊎◌, Bool, true, false, not, ◌&&◌,
  none, some, [], ◌∷◌, Bytes, ltb, ◌==◌, if◌then◌else◌, arith, ap, sym, ◌∙◌, ◌/◌, All, Bool-cases,
  inl, inr,
}
use omega_services.Tools.Uid.{
  UidArray, init_uid, bump_char, bump_digits, bump_lead, next_uid, wraps, generate_uid,
}

-- The place of a digit in the order A to Z, 0 to 9.
abbrev pub digit_value : ℕ → ℕ
digit_value c = if ltb c b'A' then c - b'0' + 26 else c - b'A'

abbrev pub IsDigit : ℕ → Type 0
IsDigit c = ((b'A' ≤ c) × (c ≤ b'Z')) ⊎ ((b'0' ≤ c) × (c ≤ b'9'))

-- 36 to the number of digits
abbrev pub weight : Bytes → ℕ
weight [] = 1
weight (d ∷ ds) = 36 * weight ds

abbrev pub digits_value : Bytes → ℕ
digits_value [] = 0
digits_value (d ∷ ds) = digit_value d * weight ds + digits_value ds

-- The number that an id stands for.
abbrev pub uid_value : UidArray → ℕ
uid_value u = (u.lead - b'A') * weight u.digits + digits_value u.digits

pub record IsUid (u : UidArray) : Type 0 where
  pub lead_low : b'A' ≤ u.lead
  pub lead_high : u.lead ≤ b'Z'
  pub digits : All IsDigit u.digits

bump_char_lem :
    (c : ℕ)
    → IsDigit c
    → IsDigit (bump_char c).0
      × (digit_value (bump_char c).0 + (if (bump_char c).1 then 36 else 0) ≡ digit_value c + 1)
unfolding bump_char
bump_char_lem c h = ground arith

weight-bump : (ds : Bytes) → weight (bump_digits ds).0 ≡ weight ds
unfolding bump_digits
weight-bump [] = refl
weight-bump (d ∷ ds) = ground (arith, weight-bump ds)

bump_digits-IsDigit : (ds : Bytes) → All IsDigit ds → All IsDigit (bump_digits ds).0
unfolding bump_digits
bump_digits-IsDigit [] h = tt
bump_digits-IsDigit (d ∷ ds) h = ground (arith, bump_digits-IsDigit ds, bump_char_lem d)

carry_value :
    (d : ℕ) (ds : Bytes)
    → digits_value (bump_digits ds).0 + weight ds ≡ digits_value ds + 1
    → (digit_value (bump_char d).0 + (if (bump_char d).1 then 36 else 0)) * weight ds
      ≡ (digit_value d + 1) * weight ds
    → digit_value (bump_char d).0 * weight ds
        + digits_value (bump_digits ds).0
        + (if (bump_char d).1 then 36 * weight ds else 0)
      ≡ digit_value d * weight ds + digits_value ds + 1
carry_value d ds all one = elim (Bool-cases (bump_char d).1) [
  | inl c ↦ rw c (carried (rw c at one))
  | inr c ↦ rw c (stopped (rw c at one))
]
  where
    carried :
        (digit_value (bump_char d).0 + 36) * weight ds ≡ (digit_value d + 1) * weight ds
        → digit_value (bump_char d).0 * weight ds + digits_value (bump_digits ds).0 + 36 * weight ds
          ≡ digit_value d * weight ds + digits_value ds + 1
    carried e = omega arith

    stopped :
        (digit_value (bump_char d).0 + 0) * weight ds ≡ (digit_value d + 1) * weight ds
        → digit_value (bump_char d).0 * weight ds + digits_value (bump_digits ds).0 + 0
          ≡ digit_value d * weight ds + digits_value ds + 1
    stopped e = omega arith

bump_digits-value :
    (ds : Bytes)
    → All IsDigit ds
    → digits_value (bump_digits ds).0 + (if (bump_digits ds).1 then weight ds else 0)
      ≡ digits_value ds + 1
unfolding bump_digits
bump_digits-value [] h = refl
bump_digits-value (d ∷ ds) h = elim (Bool-cases (bump_digits ds).1) [
  | inl carry ↦
      let all = bump_digits-value ds h.1 in
      let one = ap (λ (t : ℕ). t * weight ds) (bump_char_lem d h.0).1 in
      rw (carry, weight-bump ds) (carry_value d ds (rw carry at all) one)
  | inr stop ↦
      let all = rw stop at (bump_digits-value ds h.1) in rw (stop, weight-bump ds) (omega arith)
]

-- How many ids there are before the leading letter starts over.
abbrev pub id_count : UidArray → ℕ
id_count u = 26 * weight u.digits

bump_lead_lem :
    (c w : ℕ)
    → b'A' ≤ c
    → c ≤ b'Z'
    → (b'A' ≤ bump_lead c)
      × (bump_lead c ≤ b'Z')
      × ((bump_lead c - b'A') * w + (if c == b'Z' then 26 * w else 0) ≡ (c - b'A') * w + w)
unfolding bump_lead
bump_lead_lem c w low high = elim (Bool-cases (c == b'Z')) [
  | inl last ↦ rw last (omega arith, omega arith, at_last c w (ground arith))
  | inr more ↦ rw more (omega arith, ground arith, ap (λ (t : ℕ). t) (below c w low))
]
  where
    at_last : (c w : ℕ) → c ≡ b'Z' → (b'A' - b'A') * w + 26 * w ≡ (c - b'A') * w + w
    at_last c w e = rw e (omega arith)

    below : (c w : ℕ) → b'A' ≤ c → (c + 1 - b'A') * w + 0 ≡ (c - b'A') * w + w
    below c w l = let e : c + 1 - b'A' ≡ suc (c - b'A') = omega arith in rw e (omega arith)

mul_mono : (a b w : ℕ) → a ≤ b → a * w ≤ b * w
mul_mono a b w h = grind arith

digits_value-lt : (ds : Bytes) → All IsDigit ds → digits_value ds < weight ds
digits_value-lt [] h = omega arith
digits_value-lt (d ∷ ds) h =
    omega (arith, digits_value-lt ds h.1, mul_mono (digit_value d) 35 (weight ds) (digit-le d h.0))
  where
    digit-le : (d : ℕ) → IsDigit d → digit_value d ≤ 35
    digit-le d h = ground arith

-- The number of an id is below the number of ids.
pub uid_value-lt : (u : UidArray) → IsUid u → uid_value u < id_count u
uid_value-lt u h = omega (
  arith,
  digits_value-lt u.digits h.digits,
  mul_mono (u.lead - b'A') 25 (weight u.digits) (omega arith),
)

mod_step : (v v' n : ℕ) → v' < n → (v + 1 ≡ v') ⊎ (v + 1 ≡ n + v') → v' ≡ (v + 1) % n
mod_step v v' n h (inl e) = rw (e) (grind arith)
mod_step v v' n h (inr e) = rw (e) (grind arith)

next_uid-IsUid : (u : UidArray) → IsUid u → IsUid (next_uid u)
unfolding next_uid
next_uid-IsUid u h = ground (arith, bump_lead_lem u.lead 0, bump_digits-IsDigit u.digits)

weight-next_uid : (u : UidArray) → weight (next_uid u).digits ≡ weight u.digits
unfolding next_uid
weight-next_uid u = ground (arith, weight-bump u.digits)

next_uid-next :
    (u : UidArray)
    → IsUid u
    → (uid_value u + 1 ≡ uid_value (next_uid u))
      ⊎ (uid_value u + 1 ≡ id_count u + uid_value (next_uid u))
unfolding next_uid
next_uid-next u h = ground (
  arith,
  bump_lead_lem u.lead (weight u.digits),
  bump_digits-value u.digits,
  weight-bump u.digits,
)

sid-next_uid : (u : UidArray) → (next_uid u).sid ≡ u.sid
unfolding next_uid
sid-next_uid u = ground arith

next_uid-value : (u : UidArray) → IsUid u → uid_value (next_uid u) ≡ (uid_value u + 1) % id_count u
next_uid-value u h =
    mod_step (uid_value u) (uid_value (next_uid u)) (id_count u)
      (omega (arith, uid_value-lt (next_uid u) (next_uid-IsUid u h), weight-next_uid u))
      (next_uid-next u h)

next_uid-wraps :
    (u : UidArray)
    → IsUid u
    → uid_value u + 1 ≡ uid_value (next_uid u) + (if wraps u then id_count u else 0)
unfolding next_uid wraps
next_uid-wraps u h = ground (
  arith,
  bump_lead_lem u.lead (weight u.digits),
  bump_digits-value u.digits,
  weight-bump u.digits,
)

==-refuted : (a b : ℕ) → a < b → (a == b) ≡ false
==-refuted a b h = ground arith

==-met : (a b : ℕ) → a ≡ b → (a == b) ≡ true
==-met a b h = ground arith

-- The array starts over exactly after the last id.
wraps_lem : (u : UidArray) → IsUid u → wraps u ≡ (uid_value u + 1 == id_count u)
wraps_lem u h =
    let next = next_uid-wraps u h in
    let small = uid_value-lt u h in
    let bound : uid_value (next_uid u) < id_count u =
      omega (arith, uid_value-lt (next_uid u) (next_uid-IsUid u h), weight-next_uid u) in
    elim (Bool-cases (wraps u)) [
      | inl over ↦
          over ∙ sym (==-met (uid_value u + 1) (id_count u) (omega (arith, rw over at next, small)))
      | inr on ↦
          on ∙ sym (==-refuted (uid_value u + 1) (id_count u) (omega (arith, rw on at next, bound)))
    ]

-- One call of `generate_uid` on a well-formed id that is not the last one adds one to its number. On the
-- last one its assertion aborts, unless assertions only write to the log, in which case the number
-- starts over at zero. The id stays well formed and its server part is left alone.
pub generate_uid-value :
    (soft_assert : Bool) (u : UidArray)
    → IsUid u
    → (generate_uid soft_assert u
        ≡ (if (uid_value u + 1 == id_count u) && not soft_assert then none else some (next_uid u)))
      × IsUid (next_uid u)
      × (uid_value (next_uid u) ≡ (uid_value u + 1) % id_count u)
      × ((next_uid u).sid ≡ u.sid)
unfolding generate_uid
generate_uid-value soft_assert u h =
    (rw (wraps_lem u h) refl, next_uid-IsUid u h, next_uid-value u h, sid-next_uid u)

-- The array after `n` calls, with assertions that only write to the log.
pub nth_uid : ℕ → UidArray → UidArray
nth_uid zero u = u
nth_uid (suc n) u = next_uid (nth_uid n u)

nth_uid-IsUid : (n : ℕ) (u : UidArray) → IsUid u → IsUid (nth_uid n u)
unfolding nth_uid
nth_uid-IsUid zero u h = h
nth_uid-IsUid (suc n) u h = next_uid-IsUid (nth_uid n u) (nth_uid-IsUid n u h)

weight-nth_uid : (n : ℕ) (u : UidArray) → weight (nth_uid n u).digits ≡ weight u.digits
unfolding nth_uid
weight-nth_uid zero u = refl
weight-nth_uid (suc n) u = weight-next_uid (nth_uid n u) ∙ weight-nth_uid n u

-- After `n` calls the number has grown by `n`, modulo the number of ids.
pub nth_uid-value :
    (n : ℕ) (u : UidArray) → IsUid u → uid_value (nth_uid n u) ≡ (uid_value u + n) % id_count u
unfolding nth_uid
nth_uid-value zero u h = rw add-zero (sym (mod-eq_of_lt (uid_value-lt u h)))
nth_uid-value (suc n) u h =
    let step = next_uid-value (nth_uid n u) (nth_uid-IsUid n u h) in
    step
    ∙ ap (λ (w : ℕ). (uid_value (nth_uid n u) + 1) % (26 * w)) (weight-nth_uid n u)
    ∙ ap (λ (v : ℕ). (v + 1) % id_count u) (nth_uid-value n u h)
    ∙ mod-add-mod (uid_value u + n) (id_count u) 1
    ∙ ap (λ (t : ℕ). t % id_count u) (omega arith)

same_rest : (a b n : ℕ) → a < b → b < a + n → a % n ≢ b % n
same_rest a b n lo hi e = omega (arith, div-add-mod a n, div-add-mod b n, apart)
  where
    apart : (n * (b / n) ≤ n * (a / n)) ⊎ (n * (a / n) + n ≤ n * (b / n))
    apart = elim (dec_le (b / n) (a / n)) [
      | yes p ↦ inl (omega (arith, mul_mono (b / n) (a / n) n p))
      | no p ↦ inr (omega (arith, mul_mono (a / n + 1) (b / n) n (omega arith)))
    ]

-- The ids that two calls hand out differ, if the first id is well formed and fewer calls lie
-- between them than there are ids.
pub nth_uid-ne :
    (u : UidArray) (i j : ℕ) → IsUid u → i < j → j < i + id_count u → nth_uid i u ≢ nth_uid j u
nth_uid-ne u i j h lo hi e =
    same_rest (uid_value u + i) (uid_value u + j) (id_count u) (omega arith) (omega arith)
      (sym (nth_uid-value i u h) ∙ ap uid_value e ∙ nth_uid-value j u h)

pub init_uid-IsUid : (sid : Bytes) → IsUid (init_uid sid) × (uid_value (init_uid sid) ≡ 0)
unfolding init_uid
init_uid-IsUid sid = ground arith
