-- ===== src/Store/Models/Payload.antt =====
-- The values of a `map[string]any`: a job's payload and an event's snapshots. `int` and `int64` are
-- bit patterns; a `float64` is kept as the `int64` that Go converts it to, the only use the program
-- makes of one.
use kelmor.Base.{ℕ, String, Bool}

pub data Value : Type 0 where
  int : ℕ → Value
  int64 : ℕ → Value
  float64 : ℕ → Value
  text : String → Value
  bool : Bool → Value
  null : Value
