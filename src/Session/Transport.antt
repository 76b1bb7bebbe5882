-- ===== src/Session/Transport.antt =====
-- node/src/session/transport.rs: a cycle as the transport runs it, from the claim to the finish.
-- What the callback and the clock do is a parameter, and so is what the other participants do to
-- the activation record while they run.
pub mod Finish
use pipewire_native_rs.Prelude.{ℕ, ◌≡◌, Option, none, some, Result, ok, err}
use pipewire_native_rs.Prelude.Int.{ℤ, pos, negsuc}
use pipewire_native_rs.Session.Activation.{
  Activation, ActivationError, ActivationStatus, triggered, invalid_transition, from_raw_parts,
  claim_cycle, publish_result_and_finish,
}

-- `SessionError`, with the application's failures of type `E`.
pub data SessionError {ℓ} (E : Type ℓ) : Type ℓ where
  activation : ActivationError → SessionError E
  failure : E → SessionError E
  callback_panicked finish_clock_panicked : SessionError E

-- `catch_unwind(process)`
pub data Processed {ℓ κ} (T : Type ℓ) (E : Type κ) : Type (ℓ ⊔ κ) where
  processed : T → ℤ → Processed T E
  failed : SessionError E → Processed T E
  panicked : Processed T E

pub data ClaimCompletion {ℓ κ} (T : Type ℓ) (E : Type κ) : Type (ℓ ⊔ κ) where
  not_claimed : ClaimCompletion T E
  finished : Result (SessionError E) T → ℕ → ClaimCompletion T E

-- -EIO
abbrev pub minus_eio : ℤ
minus_eio = negsuc 4

-- The result and the status of the callback, before the clock is read.
abbrev pub outcome {ℓ κ} : {T : Type ℓ} {E : Type κ} → Processed T E → Result (SessionError E) T × ℤ
outcome (processed value status) = (ok value, status)
outcome (failed error) = (err error, minus_eio)
outcome panicked = (err callback_panicked, minus_eio)

-- The result, the status and the time of completion; `none` stands for a clock that panics.
abbrev pub stamped {ℓ κ} :
    {T : Type ℓ} {E : Type κ} → Processed T E → Option ℕ → ℕ → Result (SessionError E) T × ℤ × ℕ
stamped p (some finish_ns) awake_ns = ((outcome p).0, (outcome p).1, finish_ns)
stamped p none awake_ns = (err finish_clock_panicked, minus_eio, awake_ns)

-- `TransportGeneration::claim_and_finish` on the record at address `base`, with `len` bytes.
unfoldable pub claim_and_finish {ℓ κ} :
    {T : Type ℓ} {E : Type κ}
    → ℕ
    → ℕ
    → Activation
    → ℕ
    → (Activation → Activation)
    → Option ℕ
    → Processed T E
    → Activation × Result (SessionError E) (ClaimCompletion T E)
unfolding from_raw_parts claim_cycle publish_result_and_finish
claim_and_finish base len a awake_ns during finish_time p = elim (from_raw_parts base len a) [
  | err e ↦ (a, err (activation e))
  | ok _ ↦
      let (a', claim) = claim_cycle a awake_ns in
      elim claim [
        | err (invalid_transition triggered actual) ↦ (a', ok not_claimed)
        | err e ↦ (a', err (activation e))
        | ok _ ↦
            let (result, status, finish_ns) = stamped p finish_time awake_ns in
            let (a'', done) = publish_result_and_finish (during a') status finish_ns in
            elim done [
              | err e ↦ (a'', err (activation e))
              | ok _ ↦ (a'', ok (finished result finish_ns))
            ]
      ]
]
