-- ===== src/Joinflood/Cleanup.antt =====
-- What `chk_floods` takes out of the list.
use omega_services.Prelude.{
  ℕ, ◌≤◌, ◌<◌, ◌≡◌, true, false, ◌||◌, not, some, List, [], ◌∷◌, ◌++◌, Bytes, ltb, if◌then◌else◌,
  arith, All,
}
use omega_services.Joinflood.{FloodChan, find_flood_chan, chk_floods}

-- A channel in flood keeps its entry as long as the flood's end has not passed, whatever other
-- entries `chk_floods` takes out.
pub chk_floods-holds :
    (now : ℕ) (chan : Bytes) (cs : List FloodChan) (c : FloodChan)
    → find_flood_chan chan cs ≡ some c
    → now ≤ c.join_floodend
    → find_flood_chan chan (chk_floods now cs).0 ≡ some c
unfolding chk_floods find_flood_chan
chk_floods-holds now chan [] c h late = cc
chk_floods-holds now chan (d ∷ cs) c h late = ground (arith, chk_floods-holds now chan cs c)

-- What is left of entries up to the first one that is stale.
unfoldable pub not_over : ℕ → List FloodChan → List FloodChan
not_over now [] = []
not_over now (c ∷ cs) = (if ltb c.join_floodend now then [] else c ∷ []) ++ not_over now cs

-- `chk_floods` takes out the channels whose flood is over up to the first entry that is not in flood
-- and whose `join_floodend` has passed; that one goes, and all entries behind it stay, also those
-- whose flood is over.
pub chk_floods-stops :
    (now : ℕ) (before : List FloodChan) (c : FloodChan) (after : List FloodChan)
    → All (λ b. (b.jflood || not (ltb b.join_floodend now)) ≡ true) before
    → c.jflood ≡ false
    → c.join_floodend < now
    → (chk_floods now (before ++ c ∷ after)).0 ≡ not_over now before ++ after
unfolding chk_floods not_over
chk_floods-stops now [] c after h quiet stale = ground arith
chk_floods-stops now (b ∷ before) c after h quiet stale =
    let tail = chk_floods-stops now before c after h.1 quiet stale in ground (arith, tail)
