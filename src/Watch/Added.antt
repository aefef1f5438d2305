-- ===== src/Watch/Added.antt =====
-- A channel that add_watch of modules/client/g_watch.c puts on the list, and the search for it afterwards.
use omega_services.Prelude.{
  ◌<◌, ◌≤◌, ◌≡◌, refl, ◌∙◌, Bool, true, false, Option, none, some, List, [], ◌∷◌, ◌++◌, Bytes,
  length, length-take, All, eq_nocase, length-eq_nocase, ==_iff, ◌==◌, Bool-cases, inl, inr,
  if◌then◌else◌, arith,
}
use omega_services.Access.{fit}
use omega_services.Network.{Ptr, update}
use omega_services.Network.Members.{>>=-eq-some}
use omega_services.Services.{Services, Config, Env}
use omega_services.Services.Keeps.Rules.{Gives, Gives-some, Gives-bind, Gives-then}
use omega_services.Services.Unreal.Channels.{channel_for, is_channel}
use omega_services.Watch.Add.{act_on, guard_channel, watch_channel, add_watch}
use omega_services.Watch.Entries.{Watches, key_of, is_watched_in, is_watched}
use omega_services.Watch.Actions.{Watch}

-- Texts of two lengths differ.
eq_nocase-length : (a b : Bytes) → length a < length b → eq_nocase a b ≡ false
eq_nocase-length a b h = elim (Bool-cases (eq_nocase a b)) [
  | inr differ ↦ differ
  | inl same ↦ absurd (omega (arith, length-eq_nocase a b same))
]

is_watched_in-append :
    (watch : Ptr → Option Watch) (fresh : Ptr) (w : Watch) (ch : Bytes) (ps : List Ptr)
    → All (λ p. (p == fresh) ≡ false) ps
    → is_watched_in watch ch ps ≡ some none
    → is_watched_in (update watch fresh (some w)) ch (ps ++ fresh ∷ [])
      ≡ some (if eq_nocase (key_of w) ch then some fresh else none)
unfolding is_watched_in
is_watched_in-append watch fresh w ch [] new unknown =
    rw ((==_iff fresh fresh).1 refl) (elim (Bool-cases (eq_nocase (key_of w) ch)) [
      | inl same ↦ rw same refl
      | inr other ↦ rw other refl
    ])
is_watched_in-append watch fresh w ch (p ∷ ps) new unknown =
    let (v, here, h) = >>=-eq-some (watch p) _ unknown in
    let other : (fresh == p) ≡ false = ground (arith, new.0) in
    elim (Bool-cases (eq_nocase (key_of v) ch)) [
      | inl same ↦ absurd (not_found (is_watched_in watch ch ps) same h)
      | inr differ ↦
          rw (other, here, differ)
            (is_watched_in-append watch fresh w ch ps new.1
              (goes_on (is_watched_in watch ch ps) differ h))
    ]
  where
    not_found :
        {b : Bool} (rest : Option (Option Ptr))
        → b ≡ true
        → ◌≡◌ {A = Option (Option Ptr)} (if b then some (some p) else rest) (some none)
        → ⊥
    not_found rest same h = ground (arith, same, h)

    goes_on :
        {b : Bool} (rest : Option (Option Ptr))
        → b ≡ false
        → ◌≡◌ {A = Option (Option Ptr)} (if b then some (some p) else rest) (some none)
        → rest ≡ some none
    goes_on rest differ h = ground (arith, differ, h)

module _ (cfg : Config) (env : Env) (guardian : Ptr) (regx : Bytes → Bytes → Bool) where
  -- The name of a watched channel is cut to the size of a pointer.
  watch_channel-short :
      (pattern : Bytes) (w : Watch) (s : Services)
      → w.nickpattern ≡ []
      → Gives
          (λ (made : Watch × Services). length (key_of made.0) ≤ 7)
          (watch_channel cfg env guardian regx pattern w s)
  unfolding watch_channel
  watch_channel-short pattern w s plain = Gives-bind (channel_for env (some pattern) s) _ λ found _.
      Gives-bind (found.1.links.net.chan found.0) _ λ ch _.
        Gives-bind (guard_channel cfg env guardian regx found.0 found.1) _ λ joined _.
          Gives-bind (joined.1.links.net.chan found.0) _ λ ch' _.
            let w' = record w {
              channel = some found.0;
              channame = fit 8 ch.name;
              existing = joined.0;
            } in
            Gives-bind (act_on cfg env guardian regx w' ch'.users joined.1) _
              λ s' _. Gives-some (w', s') (rw plain (omega (arith, length-take 7 ch.name)))

  -- The name of a watched channel is cut to seven bytes, so a channel with a longer name is not found
  -- again: after `add_watch` of such a name that was not on the list, in an entry at an address that is
  -- not in the list, the search for it still answers NULL.
  pub add_watch-long :
      (fresh p : Ptr) (pattern : Bytes) (w : Watch) (st st' : Watches)
      → w.nickpattern ≡ []
      → is_channel pattern ≡ true
      → 7 < length pattern
      → All (λ q. (q == fresh) ≡ false) st.watchlist
      → is_watched pattern st ≡ some none
      → add_watch cfg env guardian regx fresh pattern w st ≡ some (p, st')
      → is_watched pattern st' ≡ some none
  unfolding add_watch is_watched
  add_watch-long fresh p pattern w st st' plain chan long new unknown e = (kept.at (p, st') e)
    where
      kept :
          Gives
            (λ (r : Ptr × Watches). is_watched pattern r.1 ≡ some none)
            (add_watch cfg env guardian regx fresh pattern w st)
      kept =
          rw (unknown, chan)
            (Gives-then (watch_channel cfg env guardian regx pattern w st.services) _
              (watch_channel-short pattern w st.services plain)
              λ made short. Gives-some _ (
                is_watched_in-append st.watch fresh made.0 pattern st.watchlist new unknown
                ∙ rw (eq_nocase-length (key_of made.0) pattern (omega arith)) refl))
