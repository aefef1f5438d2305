-- ===== src/Samples/Floods.antt =====
-- Floods of joins.
use omega_services.Prelude.{◌≡◌, refl, true, false, [], ◌∷◌, codes, eq_nocase, arith, All}
use omega_services.Joinflood.{FloodChan, Settings, find_flood_chan}
use omega_services.Joinflood.Window.{sjoins, in_flood, sjoins-flood}
use omega_services.Joinflood.Eventually.{checks, checks-Lasts, Lasts}

abbrev settings : Settings
settings = record { join_duration = 5; join_flood_cnt = 3 }

abbrev busy : FloodChan
busy = record {
  name = codes "#busy";
  join_duration = 105;
  join_floodend = 0;
  joincnt = 1;
  jflood = false;
}

abbrev flooded : FloodChan
flooded = record {
  name = codes "#flood";
  join_duration = 20;
  join_floodend = 110;
  joincnt = 3;
  jflood = true;
}

sjoins-flood_example :
    in_flood (
      find_flood_chan
        (codes "#Busy")
        (sjoins 0 settings (codes "#Busy") (101 ∷ 104 ∷ []) (busy ∷ [])))
    ≡ true
unfolding find_flood_chan eq_nocase
sjoins-flood_example =
    sjoins-flood 0 settings (codes "#Busy") (101 ∷ 104 ∷ []) (busy ∷ []) busy refl refl
      (omega arith) (omega arith)

-- One run leaves the third entry, three do not.
checks-Lasts_example :
    All (Lasts 200) (checks (200 ∷ 230 ∷ 260 ∷ []) (flooded ∷ busy ∷ flooded ∷ []))
checks-Lasts_example =
    checks-Lasts 200 (200 ∷ 230 ∷ 260 ∷ []) (flooded ∷ busy ∷ flooded ∷ []) (omega arith)
      (omega arith)
