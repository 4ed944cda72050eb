-- ===== src/Faults.antt =====
-- internal/faults/faults.go: the faults that are injected at the token endpoint.
use entra_emulator.Prelude.{ℕ, String, Bool, Option, none, some, ◌==◌, if◌then◌else◌}

-- Without the probability, a floating-point number: its tests are arguments of token_fault.
pub record FaultConfig : Type 0 where
  pub token_error : String
  pub token_error_description : String
  pub token_latency_ms : ℕ

abbrev pub no_fault : FaultConfig
no_fault = record { token_error = ""; token_error_description = ""; token_latency_ms = 0 }

-- The latency, and the code and the description of an error that fires. `certain` is
-- p <= 0 || p >= 1 of the probability p, and `hit` is rand.Float64() < p.
unfoldable pub token_fault : FaultConfig → (certain hit : Bool) → ℕ × Option (String × String)
token_fault f certain hit =
    if f.token_error == ""
    then (f.token_latency_ms, none)
    else if certain
    then (f.token_latency_ms, some (f.token_error, f.token_error_description))
    else if hit
    then (f.token_latency_ms, some (f.token_error, f.token_error_description))
    else (f.token_latency_ms, none)
