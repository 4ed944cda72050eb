-- ===== src/Audit/Newest.antt =====
-- The ring buffer against the log of all events since it was cleared.
use entra_emulator.Prelude.{
  ℕ, zero, suc, ◌+◌, ◌-◌, ◌%◌, ◌≤◌, ◌<◌, ◌≡◌, refl, sym, ap, ◌∙◌, inl, inr, true, false, ◌&&◌, List,
  [], ◌∷◌, arith, ltb, leb, if◌then◌else◌, ltb→lt, leb→le, Bool-cases, length, take, drop,
}
use entra_emulator.Audit.Slots.{
  length-make, length-set, at-set, at-set_other, place, advance, place-zero, place-suc, place-ne,
}
use entra_emulator.Audit.{
  Event, Recorder, Call, records, clears, set, at, capacity_of, new_recorder, record_event,
  list_from, list_events, clear, run,
}

-- Every event since the last clearing, the newest first.
abbrev pub log_of : List Call → List Event
log_of [] = []
log_of (records e ∷ calls) = e ∷ log_of calls
log_of (clears ∷ calls) = []

abbrev pub newest : (limit : ℕ) → List Event → List Event
newest limit es = if ltb 0 limit then take limit es else es

-- How many events the buffer holds.
abbrev held : Recorder → ℕ
held r = if r.full then r.cap else r.next

abbrev slot : Recorder → ℕ → ℕ
slot r i = (r.next + r.cap - 1 - i) % r.cap

record Holds (r : Recorder) (log : List Event) : Type 0 where
  pos : 0 < r.cap
  size : length r.buf ≡ r.cap
  below : r.next < r.cap
  partial : r.full ≡ false → r.next ≡ length log
  whole : r.full ≡ true → r.cap ≤ length log
  slots : (i : ℕ) → i < held r → at r.buf (slot r i) ≡ at log i

held-le : (r : Recorder) (log : List Event) → Holds r log → held r ≤ length log
held-le r log h = ground (arith, h.partial, h.whole)

new-Holds : (capacity : ℕ) → Holds (new_recorder capacity) []
unfolding new_recorder capacity_of
new-Holds capacity = record {
  pos = ground arith;
  size = length-make (capacity_of capacity);
  below = ground arith;
  partial = λ e. refl;
  whole = λ e. ground arith;
  slots = λ i k. ground arith;
}

clear-Holds : (r : Recorder) (log : List Event) → Holds r log → Holds (clear r) []
unfolding clear
clear-Holds r log h = record {
  pos = h.pos;
  size = length-make r.cap;
  below = h.pos;
  partial = λ e. refl;
  whole = λ e. ground arith;
  slots = λ i k. ground arith;
}

module _ (e : Event) (r : Recorder) (log : List Event) (h : Holds r log) where
  held_before : (i : ℕ) → suc i < held (record_event e r) → (i < held r) × (suc i < r.cap)
  unfolding record_event
  held_before i k = elim (advance r.next r.cap h.below) [
    | inl (low, z) ↦ ground (arith, h.below)
    | inr (top, z) ↦ ground (arith, h.below)
  ]

  record-slots :
      (i : ℕ)
      → i < held (record_event e r)
      → at (record_event e r).buf (slot (record_event e r) i) ≡ at (e ∷ log) i
  unfolding record_event at
  record-slots zero k =
      rw (place-zero r.next r.cap h.below) (at-set r.buf r.next e (omega (arith, h.size, h.below)))
  record-slots (suc i) k =
      let (before, inside) = held_before i k in
      rw (place-suc r.next r.cap i h.below inside) (
        at-set_other r.buf r.next (place r.next r.cap i) e (place-ne r.next r.cap i h.below inside)
        ∙ h.slots i before)

  record-Holds : Holds (record_event e r) (e ∷ log)
  unfolding record_event
  record-Holds = record {
    pos = h.pos;
    size = length-set r.buf r.next e ∙ h.size;
    below = elim (advance r.next r.cap h.below) [
      | inl (low, z) ↦ rw z low
      | inr (top, z) ↦ rw z h.pos
    ];
    partial = λ f. elim (advance r.next r.cap h.below) [
      | inl (low, z) ↦ ground (arith, h.partial)
      | inr (top, z) ↦ ground arith
    ];
    whole = λ f. elim (advance r.next r.cap h.below) [
      | inl (low, z) ↦ ground (arith, h.whole)
      | inr (top, z) ↦ ground (arith, h.whole, h.partial)
    ];
    slots = record-slots;
  }

run-Holds : (capacity : ℕ) (calls : List Call) → Holds (run capacity calls) (log_of calls)
unfolding run
run-Holds capacity [] = new-Holds capacity
run-Holds capacity (records e ∷ calls) =
    record-Holds e (run capacity calls) (log_of calls) (run-Holds capacity calls)
run-Holds capacity (clears ∷ calls) =
    clear-Holds (run capacity calls) (log_of calls) (run-Holds capacity calls)

run-cap : (capacity : ℕ) (calls : List Call) → (run capacity calls).cap ≡ capacity_of capacity
unfolding run new_recorder record_event clear
run-cap capacity [] = refl
run-cap capacity (records e ∷ calls) = run-cap capacity calls
run-cap capacity (clears ∷ calls) = run-cap capacity calls

drop-at : (i : ℕ) (log : List Event) → i < length log → drop i log ≡ at log i ∷ drop (suc i) log
unfolding at
drop-at i [] h = ground arith
drop-at zero (x ∷ log) h = refl
drop-at (suc i) (x ∷ log) h = drop-at i log (omega (arith, h))

take-all : (n : ℕ) (log : List Event) → length log ≤ n → take n log ≡ log
take-all zero [] h = refl
take-all zero (x ∷ log) h = ground arith
take-all (suc n) [] h = refl
take-all (suc n) (x ∷ log) h = ap (λ l. x ∷ l) (take-all n log (omega (arith, h)))

-- What List appends at a limit, behind `i` events.
abbrev rest_of : (limit i : ℕ) → List Event → List Event
rest_of limit i es = if ltb 0 limit then take (limit - i) es else es

take-nil : (n : ℕ) → take {A = Event} n [] ≡ []
take-nil zero = refl
take-nil (suc n) = refl

rest_of-nil : (limit i : ℕ) → rest_of limit i [] ≡ []
rest_of-nil limit i = ground (arith, take-nil (limit - i))

rest_of-zero : (limit : ℕ) (es : List Event) → rest_of limit 0 es ≡ newest limit es
rest_of-zero limit es =
    ap (λ n. if ltb 0 limit then take n es else es) {x = limit - 0} {y = limit} (omega arith)

rest_of-cons :
    (limit i : ℕ) (x : Event) (es : List Event)
    → (0 < limit → i < limit)
    → rest_of limit i (x ∷ es)
      ≡ x ∷ (if ltb 0 limit && leb limit (suc i) then [] else rest_of limit (suc i) es)
rest_of-cons limit i x es h = elim (Bool-cases (ltb 0 limit)) [
  | inr none_set ↦ rw none_set refl
  | inl set ↦
      let e : limit - i ≡ suc (limit - suc i) = omega (arith, h (ltb→lt 0 limit set)) in
      elim (Bool-cases (leb limit (suc i))) [
        | inr more_left ↦ rw (set, more_left, e) refl
        | inl last ↦
            let z : limit - suc i ≡ 0 = omega (arith, leb→le limit (suc i) last) in
            rw (set, last, e, z) refl
      ]
]

module _ (r : Recorder) (log : List Event) (h : Holds r log) (limit : ℕ) where
  list_from_lem :
      (k i : ℕ)
      → i + k ≡ held r
      → (0 < limit → i < limit)
      → list_from r limit k i ≡ rest_of limit i (take k (drop i log))
  unfolding list_from
  list_from_lem zero i e b = sym (rest_of-nil limit i)
  list_from_lem (suc k) i e b =
      let inside : i < length log = omega (arith, e, held-le r log h) in
      let read = h.slots i (omega (arith, e)) in
      let right =
        ap (λ l. rest_of limit i (take (suc k) l)) (drop-at i log inside)
        ∙ rest_of-cons limit i (at log i) (take k (drop (suc i) log)) b in
      elim (Bool-cases (ltb 0 limit && leb limit (suc i))) [
        | inl stop ↦ rw (stop, read) (sym (rw stop at right))
        | inr go ↦
            rw (go, read)
              (ap (λ l. at log i ∷ l)
                  (list_from_lem k (suc i) (omega (arith, e)) (λ p. ground arith))
                ∙ sym (rw go at right))
      ]

  list_events-Holds : list_events limit r ≡ newest limit (take r.cap log)
  unfolding list_events
  list_events-Holds =
      list_from_lem (held r) 0 (omega arith) (λ p. p)
      ∙ ap (rest_of limit 0) (elim (Bool-cases r.full) [
        | inl f ↦ rw f refl
        | inr f ↦ rw f (
            take-all r.next log (omega (arith, h.partial f))
            ∙ sym (take-all r.cap log (omega (arith, h.partial f, h.below))))
      ])
      ∙ rest_of-zero limit (take r.cap log)

-- After any calls of Record and Clear on a new recorder, List returns the newest events since the
-- last Clear, the newest first: as many as the capacity (500 where the asked one is not positive),
-- and no more than a positive limit.
pub list_events-run :
    (capacity limit : ℕ) (calls : List Call)
    → list_events limit (run capacity calls)
      ≡ newest limit (take (capacity_of capacity) (log_of calls))
list_events-run capacity limit calls =
    list_events-Holds (run capacity calls) (log_of calls) (run-Holds capacity calls) limit
    ∙ ap (λ n. newest limit (take n (log_of calls))) (run-cap capacity calls)
