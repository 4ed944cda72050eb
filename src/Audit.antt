-- ===== src/Audit.antt =====
-- internal/audit/audit.go: the recorder of authorize and token exchanges, a ring buffer.
pub mod Slots
pub mod Newest
use entra_emulator.Prelude.{
  ℕ, zero, suc, ◌+◌, ◌-◌, ◌%◌, String, Bool, true, false, ◌&&◌, List, [], ◌∷◌, ◌==◌, ltb, leb, eqb,
  if◌then◌else◌,
}

pub record Event : Type 0 where
  pub event_id : String
  pub time : ℕ
  pub time_iso : String
  pub flow : String
  pub grant_type : String
  pub client_id : String
  pub user_id : String
  pub user_principal_name : String
  pub status : ℕ
  pub ok : Bool
  pub error : String
  pub reason : String

-- The zero value, which make fills the buffer with.
abbrev pub zero_event : Event
zero_event = record {
  event_id = "";
  time = 0;
  time_iso = "";
  flow = "";
  grant_type = "";
  client_id = "";
  user_id = "";
  user_principal_name = "";
  status = 0;
  ok = false;
  error = "";
  reason = "";
}

pub record Recorder : Type 0 where
  pub buf : List Event
  pub next : ℕ
  pub full : Bool
  pub cap : ℕ

-- make([]Event, n)
unfoldable pub make : ℕ → List Event
make zero = []
make (suc n) = zero_event ∷ make n

unfoldable pub capacity_of : ℕ → ℕ
capacity_of capacity = if leb capacity 0 then 500 else capacity

-- New
unfoldable pub new_recorder : ℕ → Recorder
unfolding capacity_of
new_recorder capacity = record {
  buf = make (capacity_of capacity);
  next = 0;
  full = false;
  cap = capacity_of capacity;
}

-- buf[i] = e
unfoldable pub set : List Event → ℕ → Event → List Event
set [] i e = []
set (x ∷ xs) zero e = e ∷ xs
set (x ∷ xs) (suc i) e = x ∷ set xs i e

-- buf[i], which is in range wherever the recorder reads it.
unfoldable pub at : List Event → ℕ → Event
at [] i = zero_event
at (x ∷ xs) zero = x
at (x ∷ xs) (suc i) = at xs i

-- `id` is the drawn identifier and `iso` the formatting of time.Unix.
unfoldable pub stamp : (id : String) (iso : ℕ → String) → Event → Event
stamp id iso e = record e {
  event_id = if e.event_id == "" then id else e.event_id;
  time_iso = iso e.time;
}

-- Record, behind the stamping of the event.
unfoldable pub record_event : Event → Recorder → Recorder
unfolding set
record_event e r =
    let next = (r.next + 1) % r.cap in
    record r { buf = set r.buf r.next e; next = next; full = if eqb next 0 then true else r.full }

-- The loop of List: `i` counts the events that were appended, and `k` those that are left.
unfoldable pub list_from : Recorder → (limit k i : ℕ) → List Event
unfolding at
list_from r limit zero i = []
list_from r limit (suc k) i =
    let rest = list_from r limit k (suc i) in
    at r.buf ((r.next + r.cap - 1 - i) % r.cap)
    ∷ (if ltb 0 limit && leb limit (suc i) then [] else rest)

-- List; a limit of 0 stands for every limit that is not positive.
unfoldable pub list_events : (limit : ℕ) → Recorder → List Event
unfolding list_from
list_events limit r = list_from r limit (if r.full then r.cap else r.next) 0

-- Clear
unfoldable pub clear : Recorder → Recorder
clear r = record r { buf = make r.cap; next = 0; full = false }

-- The calls that change a recorder.
pub data Call : Type 0 where
  records : Event → Call
  clears : Call

-- The recorder after calls, the latest first.
unfoldable pub run : (capacity : ℕ) → List Call → Recorder
run capacity [] = new_recorder capacity
run capacity (records e ∷ calls) = record_event e (run capacity calls)
run capacity (clears ∷ calls) = clear (run capacity calls)
