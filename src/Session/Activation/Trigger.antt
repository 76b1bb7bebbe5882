-- ===== src/Session/Activation/Trigger.antt =====
-- The peer's pending count: one decrement among others, and the last one that triggers.
use pipewire_native_rs.Prelude.{
  true, false, ℕ, zero, suc, ◌≤◌, ◌≡◌, inl, inr, refl, ap, List, [], ◌∷◌, ◌++◌, Result, ok, length,
  arith, Bool-cases,
}
use pipewire_native_rs.Prelude.Int.{ℤ, pos, negsuc, ◌==ℤ◌, ==ℤ-eq}
use pipewire_native_rs.Session.Activation.{
  Activation, not_triggered, triggered, code, transition, ActivationError, Decrement, refused, left,
  decrement_loop, decrement_pending_and_trigger, TriggerOutcome, waiting, triggered_peer,
}

-- The record after the first `k` of the others' changes.
abbrev pub after : ℕ → List (Activation → Activation) → Activation → Activation
after zero others a = a
after (suc k) [] a = a
after (suc k) (other ∷ others) a = after k others (other a)

abbrev IsSpent : ℤ → Type 0
IsSpent (pos zero) = Unit {0}
IsSpent (pos (suc n)) = ⊥
IsSpent (negsuc n) = Unit {0}

-- The one moment at which the loop takes effect: the record `b` stood there after some of the
-- others' changes, and the loop took one from its count, or found none there to take.
abbrev pub Linearized : Activation → List (Activation → Activation) → Decrement → Type 0
Linearized a others (left n a') =
    (k : ℕ) × (k ≤ length others)
    × ((after k others a).pending ≡ pos (suc n))
    × (a' ≡ record (after k others a) { pending = pos n })
Linearized a others (refused current a') =
    (k : ℕ) × (k ≤ length others)
    × (a' ≡ after k others a)
    × ((after k others a).pending ≡ current)
    × IsSpent current

module _ (n : ℕ) (a : Activation) (other : Activation → Activation)
    (others : List (Activation → Activation)) where
  decrement_loop-hit :
      ((other a).pending ==ℤ pos (suc n)) ≡ true
      → decrement_loop (pos (suc n)) a (other ∷ others)
        ≡ left n (record (other a) { pending = pos n })
  unfolding decrement_loop
  decrement_loop-hit e = rw e

  decrement_loop-miss :
      ((other a).pending ==ℤ pos (suc n)) ≡ false
      → decrement_loop (pos (suc n)) a (other ∷ others)
        ≡ decrement_loop (other a).pending (other a) others
  unfolding decrement_loop
  decrement_loop-miss e = rw e

later :
    (a : Activation) (other : Activation → Activation) (others : List (Activation → Activation))
    (d : Decrement)
    → Linearized (other a) others d
    → Linearized a (other ∷ others) d
later a other others (left n a') (k, l, p, e) = (suc k, omega arith, p, e)
later a other others (refused c a') (k, l, e, p, s) = (suc k, omega arith, e, p, s)

-- Started with the count that the record holds, however the others interfere, the loop takes effect
-- at one moment: it takes one from a positive count, the field `pending` alone is changed, or it
-- reports the count found at zero or below.
pub decrement_loop-Linearized :
    (current : ℤ) (a : Activation) (others : List (Activation → Activation))
    → a.pending ≡ current
    → Linearized a others (decrement_loop current a others)
unfolding decrement_loop
decrement_loop-Linearized (negsuc n) a others e = (0, omega arith, refl, e, tt)
decrement_loop-Linearized (pos zero) a others e = (0, omega arith, refl, e, tt)
decrement_loop-Linearized (pos (suc n)) a [] e = (0, omega arith, e, refl)
decrement_loop-Linearized (pos (suc n)) a (other ∷ others) e =
    elim (Bool-cases ((other a).pending ==ℤ pos (suc n))) [
      | inl hit ↦
          rw (decrement_loop-hit n a other others hit)
            (1, omega arith, ==ℤ-eq (other a).pending (pos (suc n)) hit, refl)
      | inr miss ↦ rw (decrement_loop-miss n a other others miss) (
          later a other others _
            (decrement_loop-Linearized (other a).pending (other a) others refl))
    ]

-- A run of undisturbed decrements: the record that it leaves, and what each returns.
abbrev pub decrements :
    Activation → List ℕ → Activation × List (Result ActivationError TriggerOutcome)
decrements a [] = (a, [])
decrements a (now ∷ times) =
    let (a', r) = decrement_pending_and_trigger a now [] (λ b. b) in
    let (last, rs) = decrements a' times in (last, r ∷ rs)

-- `n` down to 1 dependencies still pending, then the trigger.
abbrev pub countdown : ℕ → List (Result ActivationError TriggerOutcome)
countdown zero = ok triggered_peer ∷ []
countdown (suc n) = ok (waiting (pos (suc n))) ∷ countdown n

decrement-last :
    (a : Activation) (now : ℕ)
    → a.pending ≡ pos 1
    → a.status ≡ code not_triggered
    → decrement_pending_and_trigger a now [] (λ b. b) ≡ (
      record a { pending = pos 0; status = code triggered; signal_time = now },
      ok triggered_peer,
    )
unfolding decrement_pending_and_trigger decrement_loop transition
decrement-last a now e f = ground arith

decrement-more :
    (a : Activation) (now n : ℕ)
    → a.pending ≡ pos (suc (suc n))
    → decrement_pending_and_trigger a now [] (λ b. b)
      ≡ (record a { pending = pos (suc n) }, ok (waiting (pos (suc n))))
unfolding decrement_pending_and_trigger decrement_loop
decrement-more a now n e = ground arith

-- On a record that is not triggered yet, when as many dependencies as are pending report one after
-- the other, in whatever order, all but the last are told to wait, with the count that is left; the
-- last one and no other triggers the peer, and leaves the record triggered, with nothing pending and
-- its own time as the signal time, and otherwise as it was before all of them.
pub decrements-countdown :
    (n : ℕ) (a : Activation) (times : List ℕ) (now : ℕ)
    → a.pending ≡ pos (suc n)
    → a.status ≡ code not_triggered
    → length times ≡ n
    → decrements a (times ++ (now ∷ []))
      ≡ (record a { pending = pos 0; status = code triggered; signal_time = now }, countdown n)
decrements-countdown zero a [] now e f l = rw (decrement-last a now e f) refl
decrements-countdown zero a (time ∷ times) now e f l = absurd (omega arith)
decrements-countdown (suc n) a [] now e f l = absurd (omega arith)
decrements-countdown (suc n) a (time ∷ times) now e f l = rw (decrement-more a time n e) (
    ap (λ q. (q.0, ok (waiting (pos (suc n))) ∷ q.1))
      (decrements-countdown n (record a { pending = pos (suc n) }) times now refl f (omega arith)))
