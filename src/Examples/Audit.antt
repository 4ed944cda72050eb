-- ===== src/Examples/Audit.antt =====
-- A recorder of two events, after three.
use entra_emulator.Prelude.{String, ◌≡◌, refl, [], ◌∷◌, take}
use entra_emulator.Audit.{Event, zero_event, records, clears, capacity_of, list_events, run}
use entra_emulator.Audit.Newest.{newest, log_of, list_events-run}

abbrev event : String → Event
event id = record zero_event { event_id = id }

list_events-run_example :
    list_events 5 (
      run 2 (
        records (event "d")
        ∷ records (event "c")
        ∷ records (event "b")
        ∷ clears
        ∷ records (event "a")
        ∷ []))
    ≡ newest 5 (
        take (capacity_of 2) (
          log_of (
            records (event "d")
            ∷ records (event "c")
            ∷ records (event "b")
            ∷ clears
            ∷ records (event "a")
            ∷ [])))
list_events-run_example = list_events-run 2 5 (
    records (event "d")
    ∷ records (event "c")
    ∷ records (event "b")
    ∷ clears
    ∷ records (event "a")
    ∷ [])

log_of_two :
    newest 5 (
      take (capacity_of 2) (
        log_of (
          records (event "d")
          ∷ records (event "c")
          ∷ records (event "b")
          ∷ clears
          ∷ records (event "a")
          ∷ [])))
    ≡ event "d" ∷ event "c" ∷ []
unfolding capacity_of
log_of_two = refl
