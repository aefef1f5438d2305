-- ===== src/Joinflood/Window.antt =====
-- When a run of joins counts as a flood.
use omega_services.Prelude.{
  ℕ, ◌+◌, ◌≤◌, ◌<◌, ◌≡◌, refl, ap, ◌∙◌, Bool, true, false, Option, none, some, List, [], ◌∷◌, Bytes,
  take-eq_self, length, eq_nocase, eq_nocase-congruence, ltb, leb, arith, All, Bool-cases, inl, inr,
}
use omega_services.Joinflood.{
  FloodChan, Settings, find_flood_chan, first_join, next_join, count_join, m_sjoin,
}

-- The flood mark of an entry.
abbrev pub in_flood : Option FloodChan → Bool
in_flood none = false
in_flood (some c) = c.jflood

module _ (junk : ℕ) (cfg : Settings) (chan : Bytes) where
  -- The entries after joins to the channel at the given times, while the services run.
  unfoldable pub sjoins : List ℕ → List FloodChan → List FloodChan
  sjoins [] cs = cs
  sjoins (t ∷ ts) cs = sjoins ts (m_sjoin 3 junk cfg t chan cs).0

  next_join-name : (now : ℕ) (c : FloodChan) → (next_join cfg now c).0.name ≡ c.name
  unfolding next_join
  next_join-name now c = ground arith

  find_flood_chan-count_join :
      (now : ℕ) (cs : List FloodChan) (c : FloodChan)
      → find_flood_chan chan cs ≡ some c
      → find_flood_chan chan (count_join junk cfg now chan cs).0 ≡ some (next_join cfg now c).0
  unfolding find_flood_chan count_join
  find_flood_chan-count_join now [] c h = cc
  find_flood_chan-count_join now (d ∷ cs) c h =
      ground (arith, next_join-name now d, find_flood_chan-count_join now cs c)

  find_flood_chan-m_sjoin :
      (now : ℕ) (cs : List FloodChan) (c : FloodChan)
      → find_flood_chan chan cs ≡ some c
      → find_flood_chan chan (m_sjoin 3 junk cfg now chan cs).0 ≡ some (next_join cfg now c).0
  unfolding m_sjoin
  find_flood_chan-m_sjoin now cs c h = find_flood_chan-count_join now cs c h

  -- Once a channel is in flood, no join changes its entry.
  sjoins-flooded :
      (ts : List ℕ) (cs : List FloodChan) (c : FloodChan)
      → find_flood_chan chan cs ≡ some c
      → c.jflood ≡ true
      → find_flood_chan chan (sjoins ts cs) ≡ some c
  unfolding sjoins next_join
  sjoins-flooded [] cs c h f = h
  sjoins-flooded (t ∷ ts) cs c h f =
      sjoins-flooded ts (m_sjoin 3 junk cfg t chan cs).0 c
        (find_flood_chan-m_sjoin t cs c h ∙ rw f refl) f

  next_join-below :
      (now : ℕ) (c : FloodChan)
      → c.jflood ≡ false
      → now < c.join_duration
      → c.joincnt + 1 < cfg.join_flood_cnt
      → (next_join cfg now c).0 ≡ record c { joincnt = c.joincnt + 1 }
  unfolding next_join
  next_join-below now c f early low = ground arith

  next_join-bound :
      (now : ℕ) (c : FloodChan)
      → c.jflood ≡ false
      → now < c.join_duration
      → cfg.join_flood_cnt ≤ c.joincnt + 1
      → (next_join cfg now c).0.jflood ≡ true
  unfolding next_join
  next_join-bound now c f early high = ground arith

  -- If the services run, all joins come before the window of a channel's entry closes, and the
  -- entry is not in flood and its count below the bound, then the channel is in flood afterwards
  -- exactly if the joins bring the count to the bound.
  pub sjoins-flood :
      (ts : List ℕ) (cs : List FloodChan) (c : FloodChan)
      → find_flood_chan chan cs ≡ some c
      → c.jflood ≡ false
      → c.joincnt < cfg.join_flood_cnt
      → All (λ t. t < c.join_duration) ts
      → in_flood (find_flood_chan chan (sjoins ts cs))
        ≡ leb cfg.join_flood_cnt (c.joincnt + length ts)
  unfolding sjoins
  sjoins-flood [] cs c h f low early = rw h (ground arith)
  sjoins-flood (t ∷ ts) cs c h f low early =
      let now_there = find_flood_chan-m_sjoin t cs c h in
      elim (Bool-cases (ltb (c.joincnt + 1) cfg.join_flood_cnt)) [
        | inl below ↦
            sjoins-flood ts (m_sjoin 3 junk cfg t chan cs).0 (record c { joincnt = c.joincnt + 1 })
              (now_there ∙ ap some (next_join-below t c f early.0 (ground arith))) f (ground arith)
              early.1
            ∙ ap (leb cfg.join_flood_cnt) (omega arith)
        | inr bound ↦
            rw
              (sjoins-flooded ts (m_sjoin 3 junk cfg t chan cs).0 (next_join cfg t c).0 now_there
                (next_join-bound t c f early.0 (ground arith)))
              (ground (arith, next_join-bound t c f early.0))
      ]

count_join-other :
    (junk : ℕ) (cfg : Settings) (now : ℕ) (chan other : Bytes) (cs : List FloodChan)
    → length chan ≤ 33
    → eq_nocase chan other ≡ false
    → find_flood_chan other (count_join junk cfg now chan cs).0 ≡ find_flood_chan other cs
unfolding count_join find_flood_chan first_join
count_join-other junk cfg now chan other [] fits differ =
    rw (take-eq_self 33 chan fits, differ) refl
count_join-other junk cfg now chan other (c ∷ cs) fits differ =
    elim (Bool-cases (eq_nocase c.name chan)) [
      | inl hit ↦
          rw
            (
              hit,
              next_join-name junk cfg chan now c,
              eq_nocase-congruence c.name chan other hit,
              differ,
            )
            refl
      | inr miss ↦ rw (miss, count_join-other junk cfg now chan other cs fits differ) refl
    ]

-- A join to a channel changes the entry of no other channel, for names of at most 33 bytes.
pub m_sjoin-other :
    (sync_state junk : ℕ) (cfg : Settings) (now : ℕ) (chan other : Bytes) (cs : List FloodChan)
    → length chan ≤ 33
    → eq_nocase chan other ≡ false
    → find_flood_chan other (m_sjoin sync_state junk cfg now chan cs).0 ≡ find_flood_chan other cs
unfolding m_sjoin
m_sjoin-other sync_state junk cfg now chan other cs fits differ =
    ground (arith, count_join-other junk cfg now chan other cs fits differ)
