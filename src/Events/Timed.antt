-- ===== src/Events/Timed.antt =====
-- What `RunTimedEvents` does: which handlers run, and when the events that are left are due next.
use omega_services.Prelude.{
  ℕ, ◌≡◌, ◌≢◌, refl, Bool, true, false, ◌&&◌, ◌||◌, not, Option, none, some, List, [], ◌∷◌, ◌++◌,
  ◌+◌, to_ℕ, ◌==◌, leb, ltb, if◌then◌else◌, is_zero, is_positive, is_minus_one, arith, All,
  All-append,
}
use omega_services.Network.{◌>>=◌}
use omega_services.Events.{
  Handler, Event, count_down, call_timed, timed_turn, timed_loop, run_timed_events,
}

-- `AddEventEx` gives each event an interval that is positive, or -1 if it is not timed.
abbrev pub HasInterval : Event → Type 0
HasInterval e = (is_positive e.interval || is_minus_one e.interval) ≡ true

-- An event that is not timed, or is due only after `now`.
abbrev pub DueAfter : ℕ → Event → Type 0
DueAfter now e = (is_minus_one e.interval || ltb now e.when) ≡ true

-- A timed event whose hour has come and which may still be called.
abbrev pub is_due : ℕ → Event → Bool
is_due now e = not (is_minus_one e.interval) && not (is_zero e.recall) && leb e.when now

-- What a timed event that was called becomes: due after its interval, with one call less.
abbrev pub called : ℕ → Event → Event
called now e = count_down (record e { last = e.when; when = now + to_ℕ e.interval })

-- What is left of an event: a timed one goes once its calls are used up.
abbrev pub left_of : ℕ → Event → List Event
left_of now e =
    if is_due now e
    then called now e ∷ []
    else if is_minus_one e.interval || not (is_zero e.recall)
    then e ∷ []
    else []

unfoldable pub all_left : ℕ → List Event → List Event
all_left now [] = []
all_left now (e ∷ es) = left_of now e ++ all_left now es

left_of-DueAfter :
    (now : ℕ) (e : Event)
    → HasInterval e
    → All (DueAfter now) (left_of now e) × All HasInterval (left_of now e)
unfolding count_down
left_of-DueAfter now e h = ground arith

all_left-DueAfter :
    (now : ℕ) (es : List Event)
    → All HasInterval es
    → All (DueAfter now) (all_left now es) × All HasInterval (all_left now es)
unfolding all_left
all_left-DueAfter now [] h = (tt, tt)
all_left-DueAfter now (e ∷ es) h =
    let here = left_of-DueAfter now e h.0 in
    let there = all_left-DueAfter now es h.1 in
    (All-append (DueAfter now) _ _ here.0 there.0, All-append HasInterval _ _ here.1 there.1)

module _ {W : Type 0} (run : Handler → W → Bool × W) where
  abbrev kept : Bool × W → Option W
  kept (deleted, w) = if deleted then none else some w

  -- The state after the handlers of the events that are due, in the order of the list, unless one of them
  -- deletes its own event.
  unfoldable pub due_state : ℕ → List Event → W → Option W
  due_state now [] w = some w
  due_state now (e ∷ es) w =
      (if is_due now e then kept (run e.handler w) else some w) >>= due_state now es

  turn_lem :
      (untimed spent due deleted : Bool) (here called : List Event) (w w' : W)
      → ◌≡◌ {A = Option (List Event × W)}
          (if untimed
            then some (here, w)
            else if spent
            then some ([], w)
            else if due
            then (if deleted then none else some (called, w'))
            else some (here, w))
          ((if not untimed && not spent && due then (if deleted then none else some w') else some w)
            >>= λ v. some (
              if not untimed && not spent && due
                  then called
                  else if untimed || not spent
                  then here
                  else [],
              v,
            ))
  turn_lem true spent due deleted here called w w' = refl
  turn_lem false true due deleted here called w w' = refl
  turn_lem false false false deleted here called w w' = refl
  turn_lem false false true true here called w w' = refl
  turn_lem false false true false here called w w' = refl

  timed_turn-eq :
      (now : ℕ) (e : Event) (w : W)
      → timed_turn run now e w ≡ (
          (if is_due now e then kept (run e.handler w) else some w) >>= λ w'.
          some (left_of now e, w'))
  unfolding timed_turn call_timed
  timed_turn-eq now e w =
      turn_lem (is_minus_one e.interval) (is_zero e.recall) (leb e.when now) (run e.handler w).0
        (e ∷ []) (called now e ∷ []) w (run e.handler w).1

  abbrev put_before : List Event → List Event × W → List Event × W
  put_before here (left, w) = (here ++ left, w)

  abbrev with_list : List Event → W → Option (List Event × W)
  with_list left w = some (left, w)

  -- The rest of the list behind one turn.
  loop_step :
      (turn : Option W) (rest : W → Option W) (go : W → Option (List Event × W))
      (here behind : List Event)
      → ((v : W) → go v ≡ (rest v >>= λ w'. some (behind, w')))
      → (turn >>= with_list here >>= λ r. go r.1 >>= λ t. some (put_before r.0 t))
        ≡ (turn >>= rest >>= with_list (here ++ behind))
  loop_step none rest go here behind h = refl
  loop_step (some v) rest go here behind h = rw (h v) (put_front (rest v))
    where
      put_front :
          (end : Option W)
          → (end >>= with_list behind >>= λ t. some (put_before here t))
            ≡ (end >>= with_list (here ++ behind))
      put_front none = refl
      put_front (some w') = refl

  timed_loop-eq :
      (now : ℕ) (es : List Event) (w : W)
      → timed_loop run now es w ≡ (due_state now es w >>= λ w'. some (all_left now es, w'))
  unfolding timed_loop due_state all_left
  timed_loop-eq now [] w = refl
  timed_loop-eq now (e ∷ es) w = rw (timed_turn-eq now e w) (
      loop_step (if is_due now e then kept (run e.handler w) else some w) (due_state now es)
        (timed_loop run now es) (left_of now e) (all_left now es) (timed_loop-eq now es))

  -- At a server time that is set, `RunTimedEvents` runs the handlers of exactly the events that are due,
  -- once each and in order; if one of them deletes its own event, it reads that event when it is freed.
  -- Else each event that was called stays, due after its interval and with one call less, timed
  -- events without calls left go, and the others stay as they were; so each timed event that is left is
  -- due only after that time, and the events keep the form that `AddEventEx` gives them, if they had
  -- it before. This is for handlers that change the list of events in no other way.
  pub run_timed_events-due :
      (now : ℕ) (es : List Event) (w : W)
      → now ≢ 0
      → All HasInterval es
      → (run_timed_events run now es w ≡ (due_state now es w >>= λ w'. some (all_left now es, w')))
        × All (DueAfter now) (all_left now es)
        × All HasInterval (all_left now es)
  unfolding run_timed_events
  run_timed_events-due now es w n h =
      let set_clock : (now == 0) ≡ false = ground arith in
      let left = all_left-DueAfter now es h in rw set_clock (timed_loop-eq now es w, left.0, left.1)
