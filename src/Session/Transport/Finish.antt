-- ===== src/Session/Transport/Finish.antt =====
-- A claimed cycle is finished however its callback ends.
use pipewire_native_rs.Prelude.{
  ℕ, ◌≡◌, ◌≢◌, ◌⊎◌, Option, none, some, ok, err, inl, inr, Result-cases, arith,
}
use pipewire_native_rs.Prelude.Int.{ℤ, negsuc}
use pipewire_native_rs.Session.Activation.{
  Activation, ActivationStatus, unknown_status, invalid_transition, code, triggered, awake,
  finished, from_raw_parts, transition, claim_cycle, publish_result_and_finish, activation_status,
}
use pipewire_native_rs.Session.Transport
use pipewire_native_rs.Session.Transport.{
  SessionError, activation, callback_panicked, finish_clock_panicked, Processed, processed, failed,
  panicked, ClaimCompletion, not_claimed, stamped, claim_and_finish,
}

-- The record right after the claim.
abbrev pub claimed_at : Activation → ℕ → Activation
claimed_at a awake_ns = record a { status = code awake; awake_time = awake_ns }

-- The record after the finish of a cycle with this status.
abbrev pub finished_at : Activation → ℤ → ℕ → Activation
finished_at a status finish_ns = record a {
  status = code finished;
  state0_status = status;
  finish_time = finish_ns;
}

claim-triggered :
    (a : Activation) (awake_ns : ℕ)
    → a.status ≡ code triggered
    → claim_cycle a awake_ns ≡ (claimed_at a awake_ns, ok tt)
unfolding claim_cycle transition
claim-triggered a awake_ns e = ground arith

claim-untriggered :
    (a : Activation) (awake_ns : ℕ)
    → a.status ≢ code triggered
    → ((actual : ActivationStatus) × (claim_cycle a awake_ns
          ≡ (a, err (invalid_transition triggered actual))))
      ⊎ (claim_cycle a awake_ns ≡ (a, err (unknown_status a.status)))
unfolding claim_cycle transition activation_status
claim-untriggered a awake_ns ne = elim (Result-cases (activation_status a.status)) [
  | inl (actual, e) ↦ inl (actual, ground arith)
  | inr (x, e) ↦ inr (ground arith)
]

finish-awake :
    (a : Activation) (status : ℤ) (finish_ns : ℕ)
    → a.status ≡ code awake
    → publish_result_and_finish a status finish_ns ≡ (finished_at a status finish_ns, ok tt)
unfolding publish_result_and_finish transition
finish-awake a status finish_ns e = ground arith

module _ {ℓ κ} {T : Type ℓ} {E : Type κ} (base len : ℕ) (a : Activation) (awake_ns : ℕ)
    (during : Activation → Activation) (finish_time : Option ℕ) (p : Processed T E)
    (view : from_raw_parts base len a ≡ ok tt) where
  -- Without a trigger the callback's outcome goes unused and the record stays as it was.
  pub claim_and_finish-untriggered :
      a.status ≢ code triggered
      → ((claim_and_finish base len a awake_ns during finish_time p) ≡ (a, ok not_claimed))
        ⊎ (claim_and_finish base len a awake_ns during finish_time p
            ≡ (a, err (activation (unknown_status a.status))))
  unfolding claim_and_finish
  claim_and_finish-untriggered ne = elim (claim-untriggered a awake_ns ne) [
    | inl (actual, e) ↦ inl (ground arith)
    | inr e ↦ inr (ground arith)
  ]

  claim_and_finish-stamped :
      a.status ≡ code triggered
      → (during (claimed_at a awake_ns)).status ≡ code awake
      → let (result, status, finish_ns) = stamped p finish_time awake_ns in
        claim_and_finish base len a awake_ns during finish_time p ≡ (
          finished_at (during (claimed_at a awake_ns)) status finish_ns,
          ok (Transport.finished result finish_ns),
        )
  unfolding claim_and_finish
  claim_and_finish-stamped e kept =
      let claim = claim-triggered a awake_ns e in
      let done =
        finish-awake (during (claimed_at a awake_ns)) (stamped p finish_time awake_ns).1
          (stamped p finish_time awake_ns).2 kept in
      ground arith

-- On a record that can be viewed, after a trigger, as long as the others leave the record awake
-- meanwhile, the cycle is finished however it goes. When the clock tells the time of the finish, the
-- record ends up finished at that time, with the callback's status and its value passed on, or with
-- the status -EIO = -5 and the error passed on when the callback fails, and the panic reported when
-- it panics. When the clock panics, the record ends up finished at the time of the wakeup with the
-- status -EIO, and the clock's panic is reported, whatever the callback did.
pub claim_and_finish-triggered {ℓ κ} :
    {T : Type ℓ} {E : Type κ} (base len : ℕ) (a : Activation) (awake_ns finish_ns : ℕ)
    (during : Activation → Activation) (value : T) (status : ℤ) (error : SessionError E)
    (p : Processed T E)
    → from_raw_parts base len a ≡ ok tt
    → a.status ≡ code triggered
    → (during (claimed_at a awake_ns)).status ≡ code awake
    → let run = claim_and_finish {T = T} {E = E} base len a awake_ns during in
      let left = finished_at (during (claimed_at a awake_ns)) in
      (run (some finish_ns) (processed value status)
        ≡ (left status finish_ns, ok (Transport.finished (ok value) finish_ns)))
      × (run (some finish_ns) (failed error)
          ≡ (left (negsuc 4) finish_ns, ok (Transport.finished (err error) finish_ns)))
      × (run (some finish_ns) panicked
          ≡ (left (negsuc 4) finish_ns, ok (Transport.finished (err callback_panicked) finish_ns)))
      × (run none p ≡ (
        left (negsuc 4) awake_ns,
        ok (Transport.finished (err finish_clock_panicked) awake_ns),
      ))
claim_and_finish-triggered base len a awake_ns finish_ns during value status error p view e kept =
    let run = claim_and_finish-stamped base len a awake_ns during in
    (
      run (some finish_ns) (processed value status) view e kept,
      run (some finish_ns) (failed error) view e kept,
      run (some finish_ns) panicked view e kept,
      run none p view e kept,
    )
