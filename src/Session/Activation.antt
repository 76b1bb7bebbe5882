-- ===== src/Session/Activation.antt =====
-- node/src/session/activation.rs: the shared `pw_node_activation` record and its state machine.
-- The record's fields stand for the bytes at their ABI offsets; an operation takes the record as it
-- finds it and returns it as it leaves it.
pub mod Transitions
pub mod Trigger
pub mod Atomic
use pipewire_native_rs.Prelude.{
  ℕ, zero, suc, ◌%◌, ◌≡◌, List, [], ◌∷◌, Bool, true, false, Result, ok, err, ◌>>=◌, ◌>>◌, reject,
  not, ltb, ◌==◌, if◌then◌else◌,
}
use pipewire_native_rs.Prelude.Int.{ℤ, pos, negsuc, ◌==ℤ◌}

pub data ActivationStatus : Type 0 where
  not_triggered triggered awake finished inactive : ActivationStatus

-- `status as u32`
abbrev pub code : ActivationStatus → ℕ
code not_triggered = 0
code triggered = 1
code awake = 2
code finished = 3
code inactive = 4

pub data ActivationError : Type 0 where
  null : ActivationError
  undersized : ℕ → ℕ → ActivationError
  misaligned : ℕ → ℕ → ActivationError
  unsupported_version : ℕ → ActivationError
  unknown_status : ℕ → ActivationError
  invalid_transition : ActivationStatus → ActivationStatus → ActivationError
  invalid_pending : ℤ → ActivationError

abbrev pub activation_version : ℕ
activation_version = 1

-- abi::SIZE and abi::ALIGN
abbrev pub abi_size : ℕ
abi_size = 2312

abbrev pub abi_align : ℕ
abi_align = 8

unfoldable pub activation_status : ℕ → Result ActivationError ActivationStatus
activation_status value =
    if value == 0
    then ok not_triggered
    else if value == 1
    then ok triggered
    else if value == 2
    then ok awake
    else if value == 3
    then ok finished
    else if value == 4
    then ok inactive
    else err (unknown_status value)

-- The shared record.
pub record Activation : Type 0 where
  pub status : ℕ
  pub state0_status : ℤ
  pub required : ℤ
  pub pending : ℤ
  pub signal_time : ℕ
  pub awake_time : ℕ
  pub finish_time : ℕ
  pub client_version : ℕ
  pub server_version : ℕ

-- `ActivationView::from_raw_parts` at address `base`, with `len` bytes.
unfoldable pub from_raw_parts : ℕ → ℕ → Activation → Result ActivationError (Unit {0})
from_raw_parts base len a = do
  reject (base == 0) null
  reject (ltb len abi_size) (undersized len abi_size)
  reject (not (base % abi_align == 0)) (misaligned base abi_align)
  reject (not (a.server_version == activation_version)) (unsupported_version a.server_version)

unfoldable pub initialize_client_v1 : Activation → Activation
initialize_client_v1 a = record a { client_version = activation_version }

-- `ActivationView::status`
unfoldable pub read_status : Activation → Result ActivationError ActivationStatus
read_status a = activation_status a.status

-- The compare-and-swap of `ActivationView::transition`.
unfoldable pub transition :
    Activation
    → ActivationStatus
    → ActivationStatus
    → Activation × Result ActivationError (Unit {0})
transition a from to =
    if a.status == code from
    then (record a { status = code to }, ok tt)
    else (a, (activation_status a.status >>= λ actual. err (invalid_transition from actual)))

unfoldable pub mark_ready : Activation → Activation × Result ActivationError (Unit {0})
unfolding transition
mark_ready a = transition a inactive finished

-- `swap`: the status is replaced whatever it was, and the old one is returned.
unfoldable pub deactivate : Activation → Activation × Result ActivationError ActivationStatus
deactivate a = (record a { status = code inactive }, activation_status a.status)

-- `ActivationView::claim_cycle`
unfoldable pub claim_cycle : Activation → ℕ → Activation × Result ActivationError (Unit {0})
unfolding transition
claim_cycle a now_ns =
    let (a', r) = transition a triggered awake in
    elim r [ ok _ ↦ (record a' { awake_time = now_ns }, ok tt) | err e ↦ (a', err e) ]

-- `CycleClaim::publish_result_and_finish`
unfoldable pub publish_result_and_finish :
    Activation → ℤ → ℕ → Activation × Result ActivationError (Unit {0})
unfolding transition
publish_result_and_finish a process_status now_ns =
    transition (record a { state0_status = process_status; finish_time = now_ns }) awake finished

unfoldable pub set_required : Activation → ℤ → Activation
set_required a required = record a { required = required }

unfoldable pub reset_pending : Activation → Activation × Result ActivationError ℤ
reset_pending a = elim a.required [
  | pos n ↦ (record a { pending = pos n }, ok (pos n))
  | negsuc n ↦ (a, err (invalid_pending (negsuc n)))
]

pub data TriggerOutcome : Type 0 where
  waiting : ℤ → TriggerOutcome
  triggered_peer : TriggerOutcome

-- How the loop over the peer's pending count ends: it finds the count at zero or below, or it has
-- taken one from it, and so many are left.
pub data Decrement : Type 0 where
  refused : ℤ → Activation → Decrement
  left : ℕ → Activation → Decrement

-- The loop of `decrement_pending_and_trigger`, with the count that it last read. Before each
-- compare-and-swap others change the record, as the list says; after its end they leave it alone
-- between the read and the compare-and-swap, which then succeeds.
unfoldable pub decrement_loop : ℤ → Activation → List (Activation → Activation) → Decrement
decrement_loop (negsuc n) a others = refused (negsuc n) a
decrement_loop (pos zero) a others = refused (pos zero) a
decrement_loop (pos (suc n)) a [] = left n (record a { pending = pos n })
decrement_loop (pos (suc n)) a (other ∷ others) =
    let a' = other a in
    let again = decrement_loop a'.pending a' others in
    if a'.pending ==ℤ pos (suc n) then left n (record a' { pending = pos n }) else again

-- `ActivationView::decrement_pending_and_trigger`; `between` is what others do to the record
-- between the end of the loop and the transition.
unfoldable pub decrement_pending_and_trigger :
    Activation
    → ℕ
    → List (Activation → Activation)
    → (Activation → Activation)
    → Activation × Result ActivationError TriggerOutcome
unfolding transition
decrement_pending_and_trigger a now_ns others between = elim (decrement_loop a.pending a others) [
  | refused current a' ↦ (a', err (invalid_pending current))
  | left (suc n) a' ↦ (a', ok (waiting (pos (suc n))))
  | left zero a' ↦
      let (a'', r) = transition (between a') not_triggered triggered in
      elim r [
        | ok _ ↦ (record a'' { signal_time = now_ns }, ok triggered_peer)
        | err e ↦ (a'', err e)
      ]
]
