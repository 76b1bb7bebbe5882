-- ===== src/Session/Owner/Settled.antt =====
-- What a command leaves: a session that is ready runs when it is asked to, one that has disconnected stays
-- so.
use pipewire_native_rs.Prelude.{
  ℕ, ◌≡◌, ◌≢◌, refl, sym, ap, subst, ◌∙◌, inl, inr, true, false, ◌&&◌, Bool-cases, none, List, [],
  ◌∷◌, Result, ok, err, arith,
}
use pipewire_native_rs.Session.Owner.{
  Error, SessionState, configuring, ready, running, cycle_claimed, stopped, failed, disconnected,
  ClientNodeSession, SessionCommand, disconnect_session, ApplyOutcome, applied,
}
use pipewire_native_rs.Session.Owner.Bind.{World}
use pipewire_native_rs.Session.Owner.Effect.{
  Step, continue, modify, give, is_start, is_ready, refresh_state, schedule_own, ensure_running,
  disconnect,
}
use pipewire_native_rs.Session.Owner.Apply.{apply, apply_in, perform, dispatch, settle}
use pipewire_native_rs.Session.Owner.Wake.{Surroundings, on_wake_of, on_wake_with_finish}
use pipewire_native_rs.Session.Owner.Reachable.{held}

continue-ok {ℓ κ} :
    {A : Type ℓ} {B : Type κ} (r : ClientNodeSession × Result Error A) (next : A → Step B)
    {s' : ClientNodeSession} {b : B}
    → continue r next ≡ (s', ok b)
    → (a : A) × (s : ClientNodeSession) × (r ≡ (s, ok a)) × (next a s ≡ (s', ok b))
continue-ok (s, ok a) next e = (a, s, refl, e)
continue-ok (s, err x) next e = absurd (cc)

ensure_running-runs :
    (s : ClientNodeSession) {s' : ClientNodeSession}
    → (s.active_requested && (is_start s.command && is_ready s)) ≡ true
    → ensure_running s ≡ (s', ok tt)
    → s'.state ≡ running
unfolding ensure_running is_ready schedule_own
ensure_running-runs s c e =
    let active : s.active_requested ≡ true = ground arith in
    let started : is_start s.command ≡ true = ground arith in
    let i : is_ready s ≡ true = ground arith in
    let known : ensure_running s
        ≡ continue (schedule_own s) (λ done. modify (λ s. record s { state = running })) =
      rw (ensure_running, active, started, i) refl in
    let (_, s1, _, last) =
      continue-ok (schedule_own s) (λ done. modify (λ s. record s { state = running }))
        (sym known ∙ e) in
    sym (ap (λ p. p.0.state) last)

settle-runs :
    (s : ClientNodeSession) {s' : ClientNodeSession}
    → settle s ≡ (s', ok tt)
    → (s'.active_requested && (is_start s'.command && is_ready s')) ≡ true
    → s'.state ≡ running
unfolding settle
settle-runs s {s'} e c =
    elim (Bool-cases (s.active_requested && (is_start s.command && is_ready s))) [
      | inl d ↦
          let known : settle s ≡ ensure_running s = rw (settle, d) refl in
          ensure_running-runs s d (sym known ∙ e)
      | inr d ↦
          let known : settle s ≡ (s, ok tt) = rw (settle, d) refl in
          let same : s ≡ s' = ap (λ p. p.0) (sym known ∙ e) in absurd (ground arith)
    ]

perform-runs :
    (w : World) (command : SessionCommand) (s : ClientNodeSession) {s' : ClientNodeSession}
    {o : ApplyOutcome}
    → perform w command s ≡ (s', ok o)
    → (s'.active_requested && (is_start s'.command && is_ready s')) ≡ true
    → s'.state ≡ running
unfolding perform
perform-runs w command s e c =
    let (outcome, s1, _, more) = continue-ok (dispatch w command s) _ e in
    let (_, s2, settled, last) = continue-ok (settle (refresh_state s1)) _ more in
    let same = ap (λ p. p.0) last in
    subst (λ k. k.state ≡ running) same
      (settle-runs (refresh_state s1) settled (
        subst (λ k. (k.active_requested && (is_start k.command && is_ready k)) ≡ true) (sym same)
          c))

apply_in-runs :
    (state : SessionState) (w : World) (command : SessionCommand) (s : ClientNodeSession)
    {s' : ClientNodeSession} {o : ApplyOutcome}
    → state ≢ disconnected
    → apply_in state w command s ≡ (s', ok o)
    → (s'.active_requested && (is_start s'.command && is_ready s')) ≡ true
    → s'.state ≡ running
apply_in-runs disconnected w command s d e c = absurd (d refl)
apply_in-runs cycle_claimed w command s d e c = absurd (cc)
apply_in-runs configuring w command s d e c = perform-runs w command s e c
apply_in-runs ready w command s d e c = perform-runs w command s e c
apply_in-runs running w command s d e c = perform-runs w command s e c
apply_in-runs stopped w command s d e c = perform-runs w command s e c
apply_in-runs failed w command s d e c = perform-runs w command s e c

-- A command that succeeds on a session that has not disconnected leaves it running, if it then is
-- active, started and ready: no command leaves a complete session waiting, in whatever state, ready,
-- running, stopped or failed, it was before. In particular a command that succeeds restarts a failed
-- session.
pub apply-runs :
    (w : World) (command : SessionCommand) (s : ClientNodeSession) {s' : ClientNodeSession}
    {o : ApplyOutcome}
    → s.state ≢ disconnected
    → apply w command s ≡ (s', ok o)
    → (s'.active_requested && (is_start s'.command && is_ready s')) ≡ true
    → s'.state ≡ running
unfolding apply
apply-runs w command s d e c = apply_in-runs s.state w command s d e c

-- The commands one after the other, and the wakes between them.
pub data Event : Type 0 where
  command_event : World → SessionCommand → Event
  wake_event : Surroundings → ℕ → ℕ → Event

abbrev pub after_events : List Event → ClientNodeSession → ClientNodeSession
after_events [] s = s
after_events (command_event w command ∷ events) s = after_events events (apply w command s).0
after_events (wake_event x generation awake_ns ∷ events) s =
    after_events events (on_wake_with_finish x generation awake_ns s).0

settle-unready : (s : ClientNodeSession) → is_ready s ≡ false → settle s ≡ (s, ok tt)
unfolding settle
settle-unready s e =
    let idle : (s.active_requested && (is_start s.command && is_ready s)) ≡ false = ground arith in
    rw (settle, idle) refl

perform-disconnect :
    (w : World) (s : ClientNodeSession) → (perform w disconnect_session s).0 ≡ disconnect s
unfolding perform dispatch refresh_state disconnect is_ready
perform-disconnect w s =
    ap (λ r. (continue r (λ done. give applied)).0) (settle-unready (disconnect s) refl)

apply_in-disconnect :
    (state : SessionState) (w : World) (s : ClientNodeSession)
    → state ≢ cycle_claimed
    → state ≢ disconnected
    → (apply_in state w disconnect_session s).0 ≡ disconnect s
apply_in-disconnect configuring w s c d = perform-disconnect w s
apply_in-disconnect ready w s c d = perform-disconnect w s
apply_in-disconnect running w s c d = perform-disconnect w s
apply_in-disconnect stopped w s c d = perform-disconnect w s
apply_in-disconnect failed w s c d = perform-disconnect w s
apply_in-disconnect cycle_claimed w s c d = absurd (c refl)
apply_in-disconnect disconnected w s c d = absurd (d refl)

-- A session that holds nothing, and has ended.
pub record IsEnded (s : ClientNodeSession) : Type 0 where
  pub state : s.state ≡ disconnected
  pub mappings : held s ≡ []
  pub leases : s.available_memory ≡ []
  pub transport : s.transport ≡ none
  pub waiting_transport : s.pending_transport ≡ none
  pub waiting_peers : s.pending_peers ≡ []

disconnect-IsEnded : (s : ClientNodeSession) → IsEnded (disconnect s)
unfolding disconnect
disconnect-IsEnded s = record {
  state = refl;
  mappings = refl;
  leases = refl;
  transport = refl;
  waiting_transport = refl;
  waiting_peers = refl;
}

apply-ended :
    (w : World) (command : SessionCommand) (s : ClientNodeSession)
    → s.state ≡ disconnected
    → (apply w command s).0 ≡ s
unfolding apply
apply-ended w command s e = ap (λ k. (apply_in k w command s).0) e

wake-ended :
    (x : Surroundings) (generation awake_ns : ℕ) (s : ClientNodeSession)
    → s.transport ≡ none
    → (on_wake_with_finish x generation awake_ns s).0 ≡ s
unfolding on_wake_with_finish
wake-ended x generation awake_ns s e = ap (λ k. (on_wake_of k x generation awake_ns s).0) e

after_events-ended :
    (events : List Event) (s : ClientNodeSession)
    → s.state ≡ disconnected
    → s.transport ≡ none
    → after_events events s ≡ s
after_events-ended [] s d e = refl
after_events-ended (command_event w command ∷ events) s d e =
    ap (after_events events) (apply-ended w command s d) ∙ after_events-ended events s d e
after_events-ended (wake_event x generation awake_ns ∷ events) s d e =
    ap (after_events events) (wake-ended x generation awake_ns s e)
    ∙ after_events-ended events s d e

-- A session that is told to disconnect, and is neither in a callback nor disconnected already, ends: it
-- holds no mapping, no lease and nothing that waits, and no later command or wake changes it.
pub disconnect-final :
    (w : World) (s : ClientNodeSession) (events : List Event)
    → s.state ≢ cycle_claimed
    → s.state ≢ disconnected
    → IsEnded (apply w disconnect_session s).0
      × (after_events events (apply w disconnect_session s).0 ≡ (apply w disconnect_session s).0)
unfolding apply
disconnect-final w s events c d =
    let ends = subst IsEnded (sym (apply_in-disconnect s.state w s c d)) (disconnect-IsEnded s) in
    (ends, after_events-ended events _ ends.state ends.transport)
