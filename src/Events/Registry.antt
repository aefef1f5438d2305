-- ===== src/Events/Registry.antt =====
-- Adding and deleting events.
use omega_services.Prelude.{
  ℕ, ◌≡◌, ap, false, some, List, [], ◌∷◌, Bytes, ◌==◌, ℤ, arith, All, All-append,
}
use omega_services.Events.{Handler, Event, add_event_ex, selects, del_event}
use omega_services.Events.Timed.{HasInterval}

-- `DelEvent` of a handler right after `AddEventEx` of it gives the list back, if no event that was in
-- the list has that handler.
pub del_event-add_event_ex :
    (junk now : ℕ) (event : Bytes) (every howmany : ℤ) (fnct : Handler) (es : List Event)
    → All (λ e. (e.handler == fnct) ≡ false) es
    → del_event event (some fnct) (add_event_ex junk now event every howmany fnct es) ≡ es
unfolding del_event add_event_ex selects
del_event-add_event_ex junk now event every howmany fnct [] h = ground arith
del_event-add_event_ex junk now event every howmany fnct (e ∷ es) h = rw h.0 (
    ap (λ (t : List Event). e ∷ t)
      (del_event-add_event_ex junk now event every howmany fnct es h.1))

-- Every event that `AddEventEx` adds has a positive interval, or -1.
pub add_event_ex-HasInterval :
    (junk now : ℕ) (event : Bytes) (every howmany : ℤ) (fnct : Handler) (es : List Event)
    → All HasInterval es
    → All HasInterval (add_event_ex junk now event every howmany fnct es)
unfolding add_event_ex
add_event_ex-HasInterval junk now event every howmany fnct es h =
    All-append HasInterval es _ h (ground arith)
