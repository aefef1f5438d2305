-- ===== src/Tools/Uid.antt =====
-- `init_uid`, `generate_uid` and `generate_p10_uid` of src/tools.c. Both ids are a prefix that
-- never changes, one leading letter (index 3, or 2 for P10), and digits in the order A to Z, 0 to 9
-- (indices 4 to 8, or 3 and 4). The loop runs from the last digit to the first one and stops at
-- the first digit that does not carry.
pub mod Counter
use omega_services.Prelude.{
  ℕ, ◌+◌, Bool, true, false, Option, none, some, [], ◌∷◌, ◌++◌, Bytes, take, ◌==◌, if◌then◌else◌,
  not, ◌&&◌,
}

-- The array `current_uid`, or `p10_uid`, without its NUL.
pub record UidArray : Type 0 where
  pub sid : Bytes
  pub lead : ℕ
  pub digits : Bytes

pub init_uid : Bytes → UidArray
init_uid sid = record {
  sid = take 3 sid;
  lead = b'A';
  digits = b'A' ∷ b'A' ∷ b'A' ∷ b'A' ∷ b'A' ∷ [];
}

-- The body of the loop on one byte; true means that the loop goes on.
unfoldable pub bump_char : ℕ → ℕ × Bool
bump_char c =
    if c == b'Z' then (b'0', false) else if not (c == b'9') then (c + 1, false) else (b'A', true)

unfoldable pub bump_digits : Bytes → Bytes × Bool
unfolding bump_char
bump_digits [] = ([], true)
bump_digits (d ∷ ds) =
    let (ds', carry) = bump_digits ds in
    let (d', carry') = bump_char d in if carry then (d' ∷ ds', carry') else (d ∷ ds', false)

-- What stands behind the loop: the leading letter, which starts over after Z.
unfoldable pub bump_lead : ℕ → ℕ
bump_lead c = if c == b'Z' then b'A' else c + 1

-- What the array holds after the changes of `generate_uid`, where its assertion lets it go on.
unfoldable pub next_uid : UidArray → UidArray
unfolding bump_digits bump_lead
next_uid u =
    let (ds, carry) = bump_digits u.digits in
    if carry
    then record { sid = u.sid; lead = bump_lead u.lead; digits = ds }
    else record { sid = u.sid; lead = u.lead; digits = ds }

-- Whether `s_assert (0)` is reached: all digits carry, and the leading letter is Z.
unfoldable pub wraps : UidArray → Bool
unfolding bump_digits
wraps u = (bump_digits u.digits).1 && (u.lead == b'Z')

-- `generate_uid`: `none` is the abort of `s_assert (0)`, which with `SOFT_ASSERT` only writes to the log.
unfoldable pub generate_uid : (soft_assert : Bool) → UidArray → Option UidArray
unfolding next_uid wraps
generate_uid soft_assert u = if wraps u && not soft_assert then none else some (next_uid u)

-- `p10_uid[0] == '\0'` is `none`: the first call fills the array in and hands it out as it is.
unfoldable pub generate_p10_uid : (soft_assert : Bool) → Bytes → Option UidArray → Option UidArray
unfolding generate_uid
generate_p10_uid soft_assert p10_id none =
    some (record { sid = take 2 p10_id; lead = b'A'; digits = b'A' ∷ b'A' ∷ [] })
generate_p10_uid soft_assert p10_id (some u) = generate_uid soft_assert u
