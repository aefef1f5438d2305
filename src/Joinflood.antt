-- ===== src/Joinflood.antt =====
-- modules/client/g_joinflood.c: the channels whose joins are counted, and the defence against a flood
-- of joins. All reads of the clock in one call give the same `now`; `join_floodend` of a new entry
-- is what `malloc` left there (`junk`). A bound that is not positive acts as 0.
pub mod Window
pub mod Cleanup
pub mod Eventually
use omega_services.Prelude.{
  ℕ, ◌+◌, Bool, true, false, ◌&&◌, Option, none, some, List, [], ◌∷◌, ◌++◌, Bytes, take, eq_nocase,
  ltb, leb, ◌==◌, if◌then◌else◌,
}

-- `struct floodchan_`
pub record FloodChan : Type 0 where
  pub name : Bytes
  pub join_duration : ℕ
  pub join_floodend : ℕ
  pub joincnt : ℕ
  pub jflood : Bool

-- What is sent: the warning with the count, and the lines that lock, unlock and leave the channel.
pub data Sent : Type 0 where
  flood_detected : Bytes → ℕ → Sent
  join_line lock_line unlock_line part_line : Bytes → Sent

-- The settings of the module: `join_duration` and `join_flood_cnt`.
pub record Settings : Type 0 where
  pub join_duration : ℕ
  pub join_flood_cnt : ℕ

-- `Find_FloodChan`
unfoldable pub find_flood_chan : Bytes → List FloodChan → Option FloodChan
find_flood_chan chan [] = none
find_flood_chan chan (c ∷ cs) = if eq_nocase c.name chan then some c else find_flood_chan chan cs

-- A join to a channel that has no entry.
unfoldable pub first_join : ℕ → Settings → ℕ → Bytes → FloodChan
first_join junk cfg now chan = record {
  name = take 33 chan;
  join_duration = now + cfg.join_duration;
  join_floodend = junk;
  joincnt = 1;
  jflood = false;
}

-- A join to a channel that has one.
unfoldable pub next_join : Settings → ℕ → FloodChan → FloodChan × List Sent
next_join cfg now c =
    if c.jflood
    then (c, [])
    else if leb c.join_duration now
    then (record c { join_duration = now + cfg.join_duration; joincnt = 1 }, [])
    else if ltb (c.joincnt + 1) cfg.join_flood_cnt
    then (record c { joincnt = c.joincnt + 1 }, [])
    else (
      record c { joincnt = c.joincnt + 1; jflood = true; join_floodend = now + 120 },
      flood_detected c.name (c.joincnt + 1) ∷ join_line c.name ∷ lock_line c.name ∷ [],
    )

-- `m_sjoin` on the list, once the services run.
unfoldable pub count_join : ℕ → Settings → ℕ → Bytes → List FloodChan → List FloodChan × List Sent
unfolding first_join next_join
count_join junk cfg now chan [] = (first_join junk cfg now chan ∷ [], [])
count_join junk cfg now chan (c ∷ cs) =
    let rest = count_join junk cfg now chan cs in
    let here = next_join cfg now c in
    if eq_nocase c.name chan then (here.0 ∷ cs, here.1) else (c ∷ rest.0, rest.1)

-- `m_sjoin`; nothing unless `sync_state` is 3.
unfoldable pub m_sjoin : ℕ → ℕ → Settings → ℕ → Bytes → List FloodChan → List FloodChan × List Sent
unfolding count_join
m_sjoin sync_state junk cfg now chan cs =
    if sync_state == 3 then count_join junk cfg now chan cs else (cs, [])

-- `chk_floods`: a flood that is over is lifted; the first other entry whose `join_floodend` has
-- passed goes too, and ends the walk.
unfoldable pub chk_floods : ℕ → List FloodChan → List FloodChan × List Sent
chk_floods thistime [] = ([], [])
chk_floods thistime (c ∷ cs) =
    let rest = chk_floods thistime cs in
    if c.jflood && ltb c.join_floodend thistime
    then (rest.0, unlock_line c.name ∷ part_line c.name ∷ rest.1)
    else if ltb c.join_floodend thistime
    then (cs, [])
    else (c ∷ rest.0, rest.1)
