-- ===== src/Session/Activation/Atomic/Balance.antt =====
-- Triggers and claims, counted in every interleaving.
use pipewire_native_rs.Prelude.{
  ℕ, ◌+◌, ◌-◌, List, [], ◌∷◌, get_elem?, Option, none, some, Result, ok, err, if◌then◌else◌, ◌==◌,
}
use pipewire_native_rs.Session.Activation.{
  Activation, ActivationError, not_triggered, triggered, awake, code, transition,
}
use pipewire_native_rs.Session.Activation.Atomic.{
  Access, deactivates, triggers, claims, System, RecordEvent, starts, advances, foreign, event_step,
}

-- A trigger that is not claimed yet.
abbrev pub unclaimed : Activation → ℕ
unclaimed a = if a.status == code triggered then 1 else 0

abbrev succeeded : Result ActivationError (Unit {0}) → ℕ
succeeded (ok x) = 1
succeeded (err e) = 0

-- How many cycles an access claims, how many it triggers, and how many triggers it withdraws.
abbrev pub claims_at : Activation → Access → ℕ
claims_at a (claims now) = succeeded (transition a triggered awake).1
claims_at a _ = 0

abbrev pub triggers_at : Activation → Access → ℕ
triggers_at a (triggers now) = succeeded (transition a not_triggered triggered).1
triggers_at a _ = 0

abbrev pub withdraws_at : Activation → Access → ℕ
withdraws_at a deactivates = unclaimed a
withdraws_at a _ = 0

-- The same for an event. A foreign write triggers when it leaves a trigger where none was, and
-- withdraws one in the opposite case.
abbrev pub at_access : (Activation → Access → ℕ) → Activation → Option Access → ℕ
at_access count a none = 0
at_access count a (some p) = count a p

abbrev pub claims_of : System → RecordEvent → ℕ
claims_of s (advances i) = at_access claims_at s.0 (get_elem? s.1 i)
claims_of s _ = 0

abbrev pub triggers_of : System → RecordEvent → ℕ
triggers_of s (advances i) = at_access triggers_at s.0 (get_elem? s.1 i)
triggers_of s (foreign f) = unclaimed (f s.0) - unclaimed s.0
triggers_of s (starts i call) = 0

abbrev pub withdraws_of : System → RecordEvent → ℕ
withdraws_of s (advances i) = at_access withdraws_at s.0 (get_elem? s.1 i)
withdraws_of s (foreign f) = unclaimed s.0 - unclaimed (f s.0)
withdraws_of s (starts i call) = 0

abbrev pub run : System → List RecordEvent → System
run s [] = s
run s (e ∷ es) = run (event_step s e) es

abbrev pub total : (System → RecordEvent → ℕ) → System → List RecordEvent → ℕ
total count s [] = 0
total count s (e ∷ es) = count s e + total count (event_step s e) es
