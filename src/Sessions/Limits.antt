-- ===== src/Sessions/Limits.antt =====
-- When a host is reported for its sessions, and how exemptions are taken out.
use omega_services.Prelude.{
  ℕ, ◌≡◌, ◌≢◌, refl, true, false, ◌&&◌, Option, none, some, List, [], ◌∷◌, Bytes, ltb,
  if◌then◌else◌, arith, All,
}
use omega_services.Match.Wild.{match_wild}
use omega_services.Sessions.{
  Session, SessionExempt, find_exempt, exempt_matches, del_exempt, reported_limit,
}

-- The limit for a session: that of the first exemption that fits the host, or the common one.
abbrev pub limit_for : ℕ → Option SessionExempt → ℕ
limit_for limit none = limit
limit_for limit (some se) = se.count

-- A session is reported exactly if its count is above both the common limit and the limit for its
-- host, and what is reported is the limit for its host.
pub reported_limit_lem :
    (limit : ℕ) (exempts : List SessionExempt) (s : Session)
    → reported_limit limit exempts s ≡ (
        let own = limit_for limit (find_exempt s.host exempts) in
        if ltb limit s.count && ltb own s.count then some own else none)
unfolding reported_limit
reported_limit_lem limit exempts s = ground arith

match_wild-star : (host : Bytes) → host ≢ [] → match_wild (b'*' ∷ []) host false ≡ true
unfolding match_wild
match_wild-star [] n = absurd (n refl)
match_wild-star (x ∷ host) n = refl

-- `del_exempt ("*")` clears a list in which every exemption has a mask that is not empty.
pub del_exempt-star :
    (exempts : List SessionExempt)
    → All (λ se. se.host ≢ []) exempts
    → del_exempt (b'*' ∷ []) exempts ≡ []
unfolding del_exempt exempt_matches
del_exempt-star [] h = refl
del_exempt-star (se ∷ ses) h =
    rw (match_wild-star se.host h.0, del_exempt-star ses h.1) (ground arith)
