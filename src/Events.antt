-- ===== src/Events.antt =====
-- The event list of src/eventhandler.c. A handler is named by its address; what the handlers do is
-- a parameter, since they belong to the loadable modules: `run` takes the state of the rest of the
-- program to the status that the handler returns and the next state, at the arguments of the event. A handler
-- that itself adds or deletes events while `EventEx` walks the list is outside this model; for the timed
-- events, a handler may delete its own.
pub mod Chain
pub mod Timed
pub mod Registry
use omega_services.Prelude.{
  ℕ, zero, suc, ◌+◌, Bool, true, false, ◌&&◌, ◌||◌, not, Option, none, some, List, [], ◌∷◌, ◌++◌,
  Bytes, take, ◌==◌, leb, if◌then◌else◌, eq_nocase, ℤ, pos, negsuc, is_zero, is_positive,
  is_minus_one, to_ℕ,
}
use omega_services.Network.{◌>>=◌}

abbrev pub Handler : Type 0
Handler = ℕ

-- `enum EventStatus`
pub data EventStatus : Type 0 where
  event_ok event_cont event_stop event_abort : EventStatus

-- `struct EventBase`; `module` and `called` are never read.
pub record Event : Type 0 where
  pub age : ℕ
  pub name : Bytes
  pub handler : Handler
  pub recall : ℤ
  pub when : ℕ
  pub interval : ℤ
  pub last : ℕ

-- `name[32]` takes 31 bytes. `every > 0` makes a timed event. For the others `when` is what `malloc`
-- left there; `last` always is.
unfoldable pub add_event_ex : (junk now : ℕ) → Bytes → ℤ → ℤ → Handler → List Event → List Event
add_event_ex junk now event every howmany fnct events =
    events
    ++ record {
      age = now;
      name = take 31 event;
      handler = fnct;
      recall = howmany;
      when = if is_positive every then now + to_ℕ every else junk;
      interval = if is_positive every then every else negsuc 0;
      last = junk;
    }
      ∷ []

-- The test of `DelEvent`: by name if there is no function, else by the function alone.
unfoldable pub selects : Bytes → Option Handler → Event → Bool
selects event none e = eq_nocase e.name event
selects event (some fnct) e = e.handler == fnct

unfoldable pub del_event : Bytes → Option Handler → List Event → List Event
unfolding selects
del_event event fnct [] = []
del_event event fnct (e ∷ es) = if selects event fnct e then es else e ∷ del_event event fnct es

-- `if (ev->recall > 0) ev->recall--;`
unfoldable pub count_down : Event → Event
count_down e = record e {
  recall = elim e.recall [ pos n ↦ elim n [ zero ↦ pos 0 | suc k ↦ pos k ] | negsuc n ↦ negsuc n ];
}

abbrev pub is_stop : EventStatus → Bool
is_stop event_ok = false
is_stop event_cont = false
is_stop event_stop = true
is_stop event_abort = true

-- The events that `EventEx` passes over: timed ones, and those of another name.
skips : Bytes → Event → Bool
skips event e = is_positive e.interval || not (eq_nocase e.name event)

-- What is left of an event after its turn: nothing, once `recall` is 0.
survivors : Event → List Event
unfolding count_down
survivors e = if is_zero (count_down e).recall then [] else count_down e ∷ []

module _ {W : Type 0} (run : Handler → W → EventStatus × W) where
  -- The status of a handler that asks to stop goes to the error handler, if there is one; its true
  -- lets the chain go on. The result tells whether the chain is halted.
  settle : Option (Event → W → Bool × W) → Event → EventStatus × W → Bool × W
  settle none e (status, w) = (is_stop status, w)
  settle (some f) e (status, w) =
      if is_stop status then (let (goes_on, w') = f e w in (not goes_on, w')) else (false, w)

  -- `if ((ev->recall != 0) || (ev->recall == -1))`
  call_handler : Option (Event → W → Bool × W) → Event → W → Bool × W
  unfolding settle
  call_handler on_error e w =
      if not (is_zero e.recall) || is_minus_one e.recall
      then settle on_error e (run e.handler w)
      else (false, w)

  -- `EventEx`: the list that is left, whether the chain was halted, and the state.
  unfoldable pub event_ex :
      Option (Event → W → Bool × W) → Bytes → List Event → W → List Event × Bool × W
  unfolding call_handler skips survivors
  event_ex on_error event [] w = ([], false, w)
  event_ex on_error event (e ∷ es) w =
      let skip = skips event e in
      let (halted, w') = if skip then (false, w) else call_handler on_error e w in
      let rest = event_ex on_error event es w' in
      if halted
      then (e ∷ es, true, w')
      else ((if skip then e ∷ [] else survivors e) ++ rest.0, rest.1, rest.2)

-- The handlers of the timed events: they take the state to the next one, and tell whether they have
-- deleted the event that runs, as a handler may by `DelTimedEvent`. A handler that deletes another event,
-- or adds one, is outside this model.
module _ {W : Type 0} (run : Handler → W → Bool × W) where
  -- `ev->recall` is read again behind the handler, so `none` is a read of an event that is freed.
  call_timed : ℕ → Event → W → Option (List Event × W)
  unfolding count_down
  call_timed server_time e w =
      let (deleted, w') = run e.handler w in
      let left = record e { last = e.when; when = server_time + to_ℕ e.interval } in
      if deleted then none else some (count_down left ∷ [], w')

  -- The turn of one event in `RunTimedEvents`: what is left of it, and the state.
  timed_turn : ℕ → Event → W → Option (List Event × W)
  unfolding call_timed
  timed_turn server_time e w =
      if is_minus_one e.interval
      then some (e ∷ [], w)
      else if is_zero e.recall
      then some ([], w)
      else if leb e.when server_time
      then call_timed server_time e w
      else some (e ∷ [], w)

  timed_loop : ℕ → List Event → W → Option (List Event × W)
  unfolding timed_turn
  timed_loop server_time [] w = some ([], w)
  timed_loop server_time (e ∷ es) w = timed_turn server_time e w >>= λ here.
      timed_loop server_time es here.1 >>= λ rest. some (here.0 ++ rest.0, rest.1)

  -- `RunTimedEvents`
  unfoldable pub run_timed_events : ℕ → List Event → W → Option (List Event × W)
  unfolding timed_loop
  run_timed_events server_time events w =
      if server_time == 0 then some (events, w) else timed_loop server_time events w
