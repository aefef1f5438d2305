-- ===== src/Samples/Chains.antt =====
-- The event list.
use omega_services.Prelude.{
  ℕ, ◌≡◌, refl, Bool, some, none, List, [], ◌∷◌, ◌++◌, Bytes, codes, ℤ, pos, negsuc, All, ◌==◌,
  if◌then◌else◌, arith,
}
use omega_services.Events.{
  Handler, EventStatus, event_ok, event_stop, Event, run_timed_events, count_down,
}
use omega_services.Events.Timed.{run_timed_events-due, DueAfter, HasInterval, due_state, all_left}

-- The handlers write their address down; handler 9 asks to stop.
abbrev run_log : Handler → List ℕ → EventStatus × List ℕ
run_log h w = (if h == 9 then event_stop else event_ok, w ++ h ∷ [])

abbrev event : Bytes → Handler → ℤ → ℤ → ℕ → Event
event name handler recall interval when = record {
  age = 1;
  name = name;
  handler = handler;
  recall = recall;
  when = when;
  interval = interval;
  last = 0;
}

-- Called once, for ever, and never since it is timed.
abbrev once : Event
once = event (codes "USERCONN") 5 (pos 1) (negsuc 0) 0

abbrev always : Event
always = event (codes "userconn") 6 (negsuc 0) (negsuc 0) 0

abbrev stopper : Event
stopper = event (codes "USERCONN") 9 (negsuc 0) (negsuc 0) 0

abbrev timer : Event
timer = event (codes "USERCONN") 7 (negsuc 0) (pos 30) 100

-- The timed handlers write their address down too; handler 8 deletes its own event.
abbrev run_timed : Handler → List ℕ → Bool × List ℕ
run_timed h w = (h == 8, w ++ h ∷ [])

-- At time 120 the timer is due; it comes back at 150.
run_timed_events-due_example :
    (run_timed_events run_timed 120 (once ∷ timer ∷ []) []
      ≡ some (once ∷ record timer { when = 150; last = 100 } ∷ [], 7 ∷ []))
    × All (DueAfter 120) (once ∷ record timer { when = 150; last = 100 } ∷ [])
    × All HasInterval (once ∷ record timer { when = 150; last = 100 } ∷ [])
unfolding due_state all_left count_down
run_timed_events-due_example =
    run_timed_events-due run_timed 120 (once ∷ timer ∷ []) [] (omega arith) (refl, (refl, tt))

-- A handler that deletes its own event, as that of the watch list does.
queue_runs : run_timed_events run_timed 120 (record timer { handler = 8 } ∷ []) [] ≡ none
unfolding run_timed_events
queue_runs = refl
