-- ===== src/Session/Activation/Atomic.antt =====
-- The operations of node/src/session/activation.rs in their single accesses to the shared record, so
-- that those of several participants can interleave between any two accesses.
pub mod Balance
use pipewire_native_rs.Prelude.{
  ℕ, zero, suc, ◌≡◌, refl, List, [], ◌∷◌, get_elem?, set, Option, none, some, Result, ok, err,
  if◌then◌else◌, arith,
}
use pipewire_native_rs.Prelude.Int.{ℤ, pos, negsuc, ◌==ℤ◌}
use pipewire_native_rs.Session.Activation.{
  Activation, ActivationError, not_triggered, triggered, awake, finished, inactive, transition,
  mark_ready, deactivate, initialize_client_v1, claim_cycle, publish_result_and_finish,
  set_required, reset_pending, decrement_pending_and_trigger, decrement_loop,
}

-- The operations that change the record.
pub data RecordCall : Type 0 where
  ready_call deactivate_call initialize_call reset_call : RecordCall
  claim_call trigger_call : ℕ → RecordCall
  finish_call : ℤ → ℕ → RecordCall
  require_call : ℤ → RecordCall

-- The access that a participant makes next; `idle` makes none.
pub data Access : Type 0 where
  idle readies deactivates initializes loads_required completes : Access
  stores_pending requires : ℤ → Access
  loads_pending triggers signals claims wakes stamps : ℕ → Access
  takes publishes : ℤ → ℕ → Access

-- The first access of an operation.
abbrev pub first : RecordCall → Access
first ready_call = readies
first deactivate_call = deactivates
first initialize_call = initializes
first reset_call = loads_required
first (claim_call now) = claims now
first (trigger_call now) = loads_pending now
first (finish_call status now) = publishes status now
first (require_call n) = requires n

-- What follows a transition: `next`, unless it failed and the operation returns.
abbrev and_then : Access → Activation × Result ActivationError (Unit {0}) → Activation × Access
and_then next (a, ok _) = (a, next)
and_then next (a, err e) = (a, idle)

-- A count of `n` was left in the record: the last dependency triggers the peer.
abbrev last_taken : ℕ → ℕ → Access
last_taken zero now = triggers now
last_taken (suc n) now = idle

-- One access, and the next one.
unfoldable pub make_access : Activation → Access → Activation × Access
unfolding transition
make_access a idle = (a, idle)
make_access a readies = and_then idle (transition a inactive finished)
make_access a deactivates = ((deactivate a).0, idle)
make_access a initializes = (initialize_client_v1 a, idle)
make_access a loads_required = elim a.required [
  | pos n ↦ (a, stores_pending (pos n))
  | negsuc n ↦ (a, idle)
]
make_access a (stores_pending n) = (record a { pending = n }, idle)
make_access a (requires n) = (set_required a n, idle)
make_access a (loads_pending now) = (a, takes a.pending now)
make_access a (takes (negsuc n) now) = (a, idle)
make_access a (takes (pos zero) now) = (a, idle)
make_access a (takes (pos (suc n)) now) =
    if a.pending ==ℤ pos (suc n)
    then (record a { pending = pos n }, last_taken n now)
    else (a, takes a.pending now)
make_access a (triggers now) = and_then (signals now) (transition a not_triggered triggered)
make_access a (signals now) = (record a { signal_time = now }, idle)
make_access a (claims now) = and_then (wakes now) (transition a triggered awake)
make_access a (wakes now) = (record a { awake_time = now }, idle)
make_access a (publishes status now) = (record a { state0_status = status }, stamps now)
make_access a (stamps now) = (record a { finish_time = now }, completes)
make_access a completes = and_then idle (transition a awake finished)

-- The record and what each participant does next.
abbrev pub System : Type 0
System = Activation × List Access

-- A participant starts an operation, perhaps giving up another, and, more than the source's types
-- allow, any one at any time; it makes its next access; or someone outside this code, such as the
-- server, writes to the record.
pub data RecordEvent : Type 0 where
  starts : ℕ → RecordCall → RecordEvent
  advances : ℕ → RecordEvent
  foreign : (Activation → Activation) → RecordEvent

-- The participant, if there is one, makes its next access.
abbrev pub access_at : Activation → List Access → ℕ → Option Access → System
access_at a ps i none = (a, ps)
access_at a ps i (some p) = ((make_access a p).0, set ps i (make_access a p).1)

unfoldable pub event_step : System → RecordEvent → System
event_step (a, ps) (starts i call) = (a, set ps i (first call))
event_step (a, ps) (advances i) = access_at a ps i (get_elem? ps i)
event_step (a, ps) (foreign f) = (f a, ps)

-- The operation as a whole, where nobody interferes.
abbrev pub undisturbed : Activation → RecordCall → Activation
undisturbed a ready_call = (mark_ready a).0
undisturbed a deactivate_call = (deactivate a).0
undisturbed a initialize_call = initialize_client_v1 a
undisturbed a reset_call = (reset_pending a).0
undisturbed a (claim_call now) = (claim_cycle a now).0
undisturbed a (trigger_call now) = (decrement_pending_and_trigger a now [] (λ b. b)).0
undisturbed a (finish_call status now) = (publish_result_and_finish a status now).0
undisturbed a (require_call n) = set_required a n

abbrev pub alone : ℕ → Activation × Access → Activation × Access
alone zero s = s
alone (suc n) (a, p) = alone n (make_access a p)

-- Four accesses are enough for every operation, and undisturbed they do what the operation does as a
-- whole.
pub alone-undisturbed :
    (a : Activation) (call : RecordCall) → alone 4 (a, first call) ≡ (undisturbed a call, idle)
unfolding make_access transition mark_ready deactivate initialize_client_v1 reset_pending
    claim_cycle publish_result_and_finish set_required decrement_pending_and_trigger decrement_loop
alone-undisturbed a ready_call = ground arith
alone-undisturbed a deactivate_call = refl
alone-undisturbed a initialize_call = refl
alone-undisturbed a reset_call = ground arith
alone-undisturbed a (claim_call now) = ground arith
alone-undisturbed a (trigger_call now) = ground arith
alone-undisturbed a (finish_call status now) = ground arith
alone-undisturbed a (require_call n) = refl
