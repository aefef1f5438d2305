-- ===== src/Events/Chain.antt =====
-- What `EventEx` does with the events of a name: who runs, who is left, and what a stop means.
use omega_services.Prelude.{
  ◌≡◌, refl, Bool, true, false, ◌&&◌, ◌||◌, not, Option, none, List, [], ◌∷◌, ◌++◌, Bytes,
  if◌then◌else◌, eq_nocase, is_zero, is_positive, arith, append_assoc,
}
use omega_services.Events.{
  Handler, EventStatus, Event, count_down, is_stop, settle, call_handler, skips, survivors,
  event_ex,
}

module _ {W : Type 0} (run : Handler → W → EventStatus × W) where
  -- The handler of an event that `EventEx` does not pass over is called if `recall` is not 0.
  abbrev is_called : Bytes → Event → Bool
  is_called event e =
      not (is_positive e.interval) && eq_nocase e.name event && not (is_zero e.recall)

  -- The state after the handlers of all those events, in the order of the list.
  unfoldable pub chain_state : Bytes → List Event → W → W
  chain_state event [] w = w
  chain_state event (e ∷ es) w =
      chain_state event es (if is_called event e then (run e.handler w).1 else w)

  -- The events that are left when the whole chain has run: each of that name has counted down and
  -- has gone if it came to 0; the others are as they were.
  unfoldable pub chain_left : Bytes → List Event → List Event
  chain_left event [] = []
  chain_left event (e ∷ es) =
      (if is_positive e.interval || not (eq_nocase e.name event)
        then e ∷ []
        else if is_zero (count_down e).recall
        then []
        else count_down e ∷ [])
      ++ chain_left event es

  -- No handler of the chain asks to stop, in the states in which they are called.
  abbrev pub NoStop : Bytes → List Event → W → Type 0
  NoStop event [] w = Unit
  NoStop event (e ∷ es) w =
      (is_called event e ≡ true → is_stop (run e.handler w).0 ≡ false)
      × NoStop event es (if is_called event e then (run e.handler w).1 else w)

  turn :
      (event : Bytes) (e : Event) (w : W)
      → (is_called event e ≡ true → is_stop (run e.handler w).0 ≡ false)
      → (if skips event e then (false, w) else call_handler run none e w)
        ≡ (false, if is_called event e then (run e.handler w).1 else w)
  unfolding skips call_handler settle
  turn event e w h = ground arith

  halted_turn :
      (event : Bytes) (e : Event) (w : W)
      → is_called event e ≡ true
      → is_stop (run e.handler w).0 ≡ true
      → (if skips event e then (false, w) else call_handler run none e w)
        ≡ (true, (run e.handler w).1)
  unfolding skips call_handler settle
  halted_turn event e w called stop = ground arith

  -- If the handler of one event asks to stop and none before it does, `Event` counts down the events
  -- before it as far as they are called, keeps that event and all later ones as they were, and runs
  -- no later handler.
  pub event_ex-stop :
      (event : Bytes) (before : List Event) (e : Event) (after : List Event) (w : W)
      → NoStop event before w
      → is_called event e ≡ true
      → is_stop (run e.handler (chain_state event before w)).0 ≡ true
      → event_ex run none event (before ++ e ∷ after) w ≡ (
        chain_left event before ++ e ∷ after,
        true,
        (run e.handler (chain_state event before w)).1,
      )
  unfolding event_ex chain_left chain_state call_handler settle
  event_ex-stop event [] e after w h called stop = rw (halted_turn event e w called stop)
  event_ex-stop event (b ∷ before) e after w h called stop =
      rw
        (
          turn event b w h.0,
          event_ex-stop event before e after (if is_called event b then (run b.handler w).1 else w)
              h.1 called stop,
        )
        (simp append_assoc)

-- The timed events of a list.
unfoldable pub timed_part : List Event → List Event
timed_part [] = []
timed_part (e ∷ es) = (if is_positive e.interval then e ∷ [] else []) ++ timed_part es

module _ {W : Type 0} (run : Handler → W → EventStatus × W) where
  timed_part-append : (es fs : List Event) → timed_part (es ++ fs) ≡ timed_part es ++ timed_part fs
  unfolding timed_part
  timed_part-append [] fs = refl
  timed_part-append (e ∷ es) fs = rw (timed_part-append es fs, append_assoc)

  timed_part-left :
      (event : Bytes) (e : Event)
      → timed_part (if skips event e then e ∷ [] else survivors e)
        ≡ (if is_positive e.interval then e ∷ [] else [])
  unfolding timed_part skips survivors
  timed_part-left event e = ground arith

  one_turn :
      (halted : Bool) (left : List Event) (e : Event) (es : List Event)
      (rest : List Event × Bool × W) (w : W)
      → timed_part left ≡ (if is_positive e.interval then e ∷ [] else [])
      → timed_part rest.0 ≡ timed_part es
      → timed_part
          (if◌then◌else◌ {A = List Event × Bool × W} halted
            (e ∷ es, true, w)
            (left ++ rest.0, rest.1, rest.2)).0
        ≡ timed_part (e ∷ es)
  unfolding timed_part
  one_turn true left e es rest w p q = refl
  one_turn false left e es rest w p q = rw (timed_part-append left rest.0, p, q)

  -- `EventEx` leaves the timed events as they are, and in their order, whatever the handlers and the
  -- error handler return.
  pub timed_part-event_ex :
      (on_error : Option (Event → W → Bool × W)) (event : Bytes) (es : List Event) (w : W)
      → timed_part (event_ex run on_error event es w).0 ≡ timed_part es
  unfolding event_ex
  timed_part-event_ex on_error event [] w = refl
  timed_part-event_ex on_error event (e ∷ es) w =
      one_turn _ (if skips event e then e ∷ [] else survivors e) e es _ _ (timed_part-left event e)
        (timed_part-event_ex on_error event es
          (if skips event e then (false, w) else call_handler run on_error e w).1)
