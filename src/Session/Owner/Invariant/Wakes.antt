-- ===== src/Session/Owner/Invariant/Wakes.antt =====
-- A wake keeps the invariant and never unwraps nothing.
use pipewire_native_rs.Prelude.{
  ℕ, ◌≡◌, ◌≢◌, refl, sym, ap, ap₂, subst, ◌∙◌, inl, inr, Bool, true, ◌==◌, Bool-cases, Option, none,
  some, List, [], ◌∷◌, map, Result, ok, err, arith,
}
use pipewire_native_rs.Session.Activation.{Activation}
use pipewire_native_rs.Session.Cycle.{PublishedOutput}
use pipewire_native_rs.Session.Transport as Transport
use pipewire_native_rs.Session.Transport.{
  Processed, ClaimCompletion, not_claimed, finished, failure, claim_and_finish,
}
use pipewire_native_rs.Session.Peer.{PeerActivation, PeerError, trigger, trigger_all}
use pipewire_native_rs.Session.Peer.Visit.{trigger_all_lem}
use pipewire_native_rs.Session.Owner.{
  Error, OwnerError, unwrapped_none, SessionState, configuring, ready, running, cycle_claimed,
  stopped, failed, disconnected, TransportGeneration, OutputGeneration, ClientNodeSession,
  WakeOutcome,
}
use pipewire_native_rs.Session.Owner.Effect.{fail, is_some}
use pipewire_native_rs.Session.Owner.Install.{transport_of}
use pipewire_native_rs.Session.Owner.Wake.{
  Surroundings, Drained, would_block, drained, broken, meet, triggered_peers, after_publish,
  finish_cycle, run_cycle, on_drained_in, on_drain, on_wake_of, on_wake_with_finish,
}
use pipewire_native_rs.Session.Owner.Invariant.{IsOwner, IsSound, slot, IsOwner-transport}
use pipewire_native_rs.Session.Owner.Invariant.Steps.{fail-IsOwner}

trigger-slot : (p : PeerActivation) (now_ns : ℕ) → slot (trigger p now_ns).0 ≡ slot p
unfolding trigger
trigger-slot p now_ns = ground arith

visited-slots :
    (x : Surroundings) (now_ns : ℕ) (ps : List PeerActivation)
    → map slot (map (λ p. (trigger p now_ns).0) (map (meet x) ps)) ≡ map slot ps
unfolding meet
visited-slots x now_ns [] = refl
visited-slots x now_ns (p ∷ ps) =
    ap₂ (λ y ys. y ∷ ys) (trigger-slot (meet x p) now_ns) (visited-slots x now_ns ps)

trigger_all-slots :
    (x : Surroundings) (ps : List PeerActivation) (now_ns : ℕ)
    → map slot (trigger_all (map (meet x) ps) now_ns).0 ≡ map slot ps
trigger_all-slots x ps now_ns =
    ap (map slot) (trigger_all_lem (map (meet x) ps) now_ns).0 ∙ visited-slots x now_ns ps

-- What a wake has to keep: the invariant, and no `unwrap` of nothing when `H` holds of the callback.
abbrev IsSafe : Type 0 → ClientNodeSession × Result Error WakeOutcome → Type 0
IsSafe H r = IsOwner r.0 × (H → r.1 ≢ err (failure unwrapped_none))

-- The callback's own errors are not reported as an `unwrap` of nothing.
abbrev IsHonest : Surroundings → Type 0
IsHonest x = (o : OutputGeneration) → x.process o ≢ Transport.failed (failure unwrapped_none)

-- While a cycle is claimed the session is as it was, but for its state.
abbrev IsClaimed : ClientNodeSession → Type 0
IsClaimed s = IsOwner (record s { state = running })

IsClaimed-fail : (s : ClientNodeSession) → IsClaimed s → IsOwner (fail s)
IsClaimed-fail s h = fail-IsOwner s running h

triggered_peers-IsSafe :
    {H : Type 0} (r : Result PeerError (Unit {0})) (counter : ℕ) (produced : Bool)
    (s : ClientNodeSession)
    → IsClaimed s
    → IsSafe H (triggered_peers r counter produced s)
triggered_peers-IsSafe (ok _) counter produced s h = (h, λ _ e. absurd (cc))
triggered_peers-IsSafe (err x) counter produced s h = (IsClaimed-fail s h, λ _ e. absurd (cc))

after_publish-IsSafe :
    {H : Type 0} (x : Surroundings) (counter : ℕ) (produced : Bool) (finish_ns : ℕ)
    (s : ClientNodeSession)
    → IsClaimed s
    → IsSafe H (after_publish x counter produced finish_ns s)
unfolding after_publish
after_publish-IsSafe x counter produced finish_ns s h =
    let (peers, r) = trigger_all (map (meet x) s.peers) finish_ns in
    triggered_peers-IsSafe r counter produced (record s { peers = peers })
      (subst
        (λ k.
          IsSound (transport_of s.transport) (is_some s.transport) (is_some s.format)
            (is_some s.buffer_descriptor) (is_some s.io_descriptor) s.output k running)
        (sym (trigger_all-slots x s.peers finish_ns)) h)

err-eq : {A : Type 0} {x y : Error} → ◌≡◌ {A = Result Error A} (err x) (err y) → x ≡ y
err-eq {A} {x} e = ap (λ r. elim r as (λ _. Error) [ err z ↦ z | ok a ↦ x ]) e

finish_cycle-IsSafe :
    {H : Type 0} (x : Surroundings) (counter : ℕ)
    (completion : Result Error (ClaimCompletion (Option PublishedOutput) OwnerError))
    (s : ClientNodeSession)
    → (H → completion ≢ err (failure unwrapped_none))
    → (H → (finish_ns : ℕ) → completion ≢ ok (finished (err (failure unwrapped_none)) finish_ns))
    → IsClaimed s
    → IsSafe H (finish_cycle x counter completion s)
unfolding finish_cycle
finish_cycle-IsSafe x counter (err e) s p q h = (IsClaimed-fail s h, λ z f. p z (ap err (err-eq f)))
finish_cycle-IsSafe x counter (ok not_claimed) s p q h = (h, λ _ f. absurd (cc))
finish_cycle-IsSafe x counter (ok (finished (ok published) finish_ns)) s p q h =
    after_publish-IsSafe x counter (is_some published) finish_ns s h
finish_cycle-IsSafe x counter (ok (finished (err e) finish_ns)) s p q h = (
  IsClaimed-fail s h,
  λ z f. q z finish_ns (ap (λ y. ok (finished (err y) finish_ns)) (err-eq f)),
)

module _ (base len : ℕ) (a : Activation) (awake_ns : ℕ) (during : Activation → Activation)
    (finish_time : Option ℕ) (p : Processed (Option PublishedOutput) OwnerError) where
  claim-no_unwrap :
      (claim_and_finish base len a awake_ns during finish_time p).1 ≢ err (failure unwrapped_none)
  unfolding claim_and_finish
  claim-no_unwrap e = ground arith

  finish-no_unwrap :
      p ≢ Transport.failed (failure unwrapped_none)
      → (finish_ns : ℕ)
      → (claim_and_finish base len a awake_ns during finish_time p).1
        ≢ ok (finished (err (failure unwrapped_none)) finish_ns)
  unfolding claim_and_finish
  finish-no_unwrap ne finish_ns e = ground arith

run_cycle-IsSafe :
    (x : Surroundings) (counter awake_ns : ℕ) (t : TransportGeneration)
    (output : Option OutputGeneration) (s : ClientNodeSession)
    → s.transport ≡ some t
    → is_some output ≡ true
    → IsOwner s
    → s.state ≡ running
    → IsSafe
        (IsHonest x)
        (run_cycle x counter awake_ns t output (record s { state = cycle_claimed }))
unfolding run_cycle
run_cycle-IsSafe x counter awake_ns t none s e i h r = absurd (cc)
run_cycle-IsSafe x counter awake_ns t (some o) s e i h r =
    let (a, completion) =
      claim_and_finish t.base t.len t.record_now awake_ns x.during x.finish_time (x.process o) in
    let t' = record t { record_now = a } in
    finish_cycle-IsSafe x counter completion
      (record s { state = cycle_claimed; transport = some t' })
      (λ _. claim-no_unwrap t.base t.len t.record_now awake_ns x.during x.finish_time (x.process o))
      (λ p.
        finish-no_unwrap t.base t.len t.record_now awake_ns x.during x.finish_time (x.process o)
          (p o))
      (IsOwner-transport s (some t') running (ap transport_of (sym e)) (ap is_some (sym e)) (λ _. r)
        (λ f. absurd (cc)) h)

on_drained_in-IsSafe :
    (state : SessionState) (x : Surroundings) (counter awake_ns : ℕ) (t : TransportGeneration)
    (s : ClientNodeSession)
    → s.state ≡ state
    → s.transport ≡ some t
    → IsOwner s
    → IsSafe (IsHonest x) (on_drained_in state x counter awake_ns t s)
on_drained_in-IsSafe running x counter awake_ns t s r e h =
    let (_, _, has_output) = h.scheduled r in
    run_cycle-IsSafe x counter awake_ns t s.output s e has_output h r
on_drained_in-IsSafe configuring x counter awake_ns t s r e h = (h, λ _ f. absurd (cc))
on_drained_in-IsSafe ready x counter awake_ns t s r e h = (h, λ _ f. absurd (cc))
on_drained_in-IsSafe cycle_claimed x counter awake_ns t s r e h = (h, λ _ f. absurd (cc))
on_drained_in-IsSafe stopped x counter awake_ns t s r e h = (h, λ _ f. absurd (cc))
on_drained_in-IsSafe failed x counter awake_ns t s r e h = (h, λ _ f. absurd (cc))
on_drained_in-IsSafe disconnected x counter awake_ns t s r e h = (h, λ _ f. absurd (cc))

on_drain-IsSafe :
    (d : Drained) (x : Surroundings) (awake_ns : ℕ) (t : TransportGeneration)
    (s : ClientNodeSession)
    → s.transport ≡ some t
    → IsOwner s
    → IsSafe (IsHonest x) (on_drain d x awake_ns t s)
on_drain-IsSafe would_block x awake_ns t s e h = (h, λ _ f. absurd (cc))
on_drain-IsSafe (broken code) x awake_ns t s e h = (h, λ _ f. absurd (cc))
on_drain-IsSafe (drained counter) x awake_ns t s e h =
    on_drained_in-IsSafe s.state x counter awake_ns t s refl e h

on_wake_of-IsSafe :
    (transport : Option TransportGeneration) (x : Surroundings) (generation awake_ns : ℕ)
    (s : ClientNodeSession)
    → s.transport ≡ transport
    → IsOwner s
    → IsSafe (IsHonest x) (on_wake_of transport x generation awake_ns s)
on_wake_of-IsSafe none x generation awake_ns s e h = (h, λ _ f. absurd (cc))
on_wake_of-IsSafe (some t) x generation awake_ns s e h = elim (Bool-cases (generation == t.id)) [
  | inl same ↦ rw same (on_drain-IsSafe x.drain x awake_ns t s e h)
  | inr other ↦ rw other (h, λ _ f. absurd (cc))
]

-- A wake keeps the session's invariant, however its callback, its clock and its peers behave, and
-- never unwraps a transport or an output that is not there, when the callback's own errors are not
-- reported as such.
pub on_wake_with_finish-IsOwner :
    (x : Surroundings) (generation awake_ns : ℕ) (s : ClientNodeSession)
    → ((o : OutputGeneration) → x.process o ≢ Transport.failed (failure unwrapped_none))
    → IsOwner s
    → IsOwner (on_wake_with_finish x generation awake_ns s).0
      × ((on_wake_with_finish x generation awake_ns s).1 ≢ err (failure unwrapped_none))
unfolding on_wake_with_finish
on_wake_with_finish-IsOwner x generation awake_ns s p h =
    let safe = on_wake_of-IsSafe s.transport x generation awake_ns s refl h in (safe.0, safe.1 p)

pub woken-IsOwner :
    (x : Surroundings) (generation awake_ns : ℕ) (s : ClientNodeSession)
    → IsOwner s
    → IsOwner (on_wake_with_finish x generation awake_ns s).0
unfolding on_wake_with_finish
woken-IsOwner x generation awake_ns s h =
    (on_wake_of-IsSafe s.transport x generation awake_ns s refl h).0
