-- ===== src/Session/Activation/Transitions.antt =====
-- The activation's state machine: which operation may change the status, and to what.
use pipewire_native_rs.Prelude.{
  ℕ, ◌≤◌, ◌≡◌, ◌≢◌, ◌⊎◌, inl, inr, refl, ap, ◌%◌, ok, err, arith, Result-cases,
}
use native.Mathlib.Decide.{ℕ_discrete}
use pipewire_native_rs.Session.Activation.{
  Activation, ActivationStatus, not_triggered, triggered, awake, finished, inactive, code,
  ActivationError, invalid_transition, activation_status, transition, from_raw_parts, abi_size,
  abi_align, activation_version,
}

-- `activation_status` undoes `as u32`.
pub activation_status-code : (s : ActivationStatus) → activation_status (code s) ≡ ok s
unfolding activation_status
activation_status-code not_triggered = refl
activation_status-code triggered = refl
activation_status-code awake = refl
activation_status-code finished = refl
activation_status-code inactive = refl

-- Memory of which a view is made is not null, aligned, large enough and of version 1.
pub from_raw_parts-ok :
    (base len : ℕ) (a : Activation)
    → from_raw_parts base len a ≡ ok tt
    → (base ≢ 0)
      × (base % abi_align ≡ 0)
      × (abi_size ≤ len)
      × (a.server_version ≡ activation_version)
unfolding from_raw_parts
from_raw_parts-ok base len a e = ground arith

-- A transition succeeds exactly from its predecessor, and then changes the status alone; from any
-- other status it changes nothing, and reports the status found or that this is no status.
transition_lem :
    (a : Activation) (from to : ActivationStatus)
    → (a.status ≡ code from) × (transition a from to ≡ (record a { status = code to }, ok tt))
      ⊎ (a.status ≢ code from)
        × ((e : ActivationError) × (transition a from to ≡ (a, err e))
            × ((actual : ActivationStatus)
                → a.status ≡ code actual
                → e ≡ invalid_transition from actual))
unfolding transition
transition_lem a from to = elim (ℕ_discrete a.status (code from)) [
  | yes e ↦ inl (e, ground arith)
  | no ne ↦ inr (
    ne,
    elim (Result-cases (activation_status a.status)) [
      | inl (actual, e) ↦ (
        invalid_transition from actual,
        ground arith,
        λ other f.
            let known = activation_status-code other in let here = ap activation_status f in cc,
      )
      | inr (x, e) ↦ (
        x,
        ground arith,
        λ other f.
            let known = activation_status-code other in let here = ap activation_status f in cc,
      )
    ],
  )
]
