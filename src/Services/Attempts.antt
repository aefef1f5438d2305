-- ===== src/Services/Attempts.antt =====
-- The attempts that omega_svskill and omega_skill of modules/protocol/unreal32.c count, over the kills that come in.
use omega_services.Prelude.{
  ℕ, ◌≤◌, ◌≡◌, ◌⊎◌, true, List, [], ◌∷◌, Bool-cases, inl, inr, if◌then◌else◌, arith,
}
use omega_services.Services.{Services}
use omega_services.Services.Unreal.Kills.{start_clock, reset_attempts, count_attempt}

-- A kill at that time, unless `exit` was called.
unfoldable pub kill_at : ℕ → Services → Services
unfolding count_attempt
kill_at now st = if st.exited then st else count_attempt now st

-- The kills at these times.
unfoldable pub count_kills : List ℕ → Services → Services
unfolding kill_at
count_kills [] st = st
count_kills (now ∷ times) st = count_kills times (kill_at now st)

kill_at-attempts :
    (now : ℕ) (st : Services) → st.introduce_attempts ≤ 4 → (kill_at now st).introduce_attempts ≤ 4
unfolding kill_at start_clock reset_attempts
kill_at-attempts now st h = ground arith

kill_at-exited : (now : ℕ) (st : Services) → st.exited ≡ true → (kill_at now st).exited ≡ true
unfolding kill_at
kill_at-exited now st h = ground arith

third :
    (now : ℕ) (st : Services)
    → 3 ≤ st.introduce_attempts
    → ((kill_at now st).exited ≡ true) ⊎ (4 ≤ (kill_at now st).introduce_attempts)
unfolding kill_at start_clock reset_attempts
third now st h = elim (Bool-cases (kill_at now st).exited) [
  | inl over ↦ inl over
  | inr on ↦ inr (ground arith)
]

fourth : (now : ℕ) (st : Services) → 4 ≤ st.introduce_attempts → (kill_at now st).exited ≡ true
unfolding kill_at start_clock reset_attempts
fourth now st h = ground arith

-- Whatever the times of the kills, no more than four attempts are counted, if no more were before.
count_kills-attempts :
    (times : List ℕ) (st : Services)
    → st.introduce_attempts ≤ 4
    → (count_kills times st).introduce_attempts ≤ 4
unfolding count_kills
count_kills-attempts [] st h = h
count_kills-attempts (now ∷ times) st h =
    count_kills-attempts times (kill_at now st) (kill_at-attempts now st h)

count_kills-exited :
    (times : List ℕ) (st : Services) → st.exited ≡ true → (count_kills times st).exited ≡ true
unfolding count_kills
count_kills-exited [] st h = h
count_kills-exited (now ∷ times) st h =
    count_kills-exited times (kill_at now st) (kill_at-exited now st h)

-- Once three attempts are counted the counters are never reset: two more kills end the services,
-- however late they come.
pub count_kills-exits :
    (first second : ℕ) (times : List ℕ) (st : Services)
    → 3 ≤ st.introduce_attempts
    → (count_kills (first ∷ second ∷ times) st).exited ≡ true
unfolding count_kills
count_kills-exits first second times st h =
    count_kills-exited times (kill_at second (kill_at first st)) (elim (third first st h) [
      | inl over ↦ kill_at-exited second (kill_at first st) over
      | inr more ↦ fourth second (kill_at first st) more
    ])
