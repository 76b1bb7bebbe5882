-- ===== src/Session/Owner/Invariant/Steps.antt =====
-- The private operations that keep the invariant.
use pipewire_native_rs.Prelude.{
  ◌≡◌, ◌≢◌, refl, sym, ap, subst, ◌∙◌, inl, inr, Bool, true, false, not, ◌||◌, ◌&&◌, Bool-cases,
  some, Option-cases, [], ◌∷◌, Result, ok, err, Result-cases, arith,
}
use pipewire_native_rs.Session.Activation.{
  ActivationStatus, not_triggered, triggered, awake, finished, inactive, from_raw_parts,
}
use pipewire_native_rs.Session.Owner.{
  Error, SessionState, configuring, ready, running, cycle_claimed, stopped, failed, disconnected,
  TransportGeneration, ClientNodeSession,
}
use pipewire_native_rs.Session.Owner.Effect.{
  continue, modify, is_some, is_ready, is_start, refreshed, refresh_state, mark_transport_ready,
  transport_status, schedule, schedule_from, schedule_some, schedule_own, fail, disconnect,
  ensure_running,
}
use pipewire_native_rs.Session.Owner.Apply.{settle}
use pipewire_native_rs.Session.Owner.Install.{transport_of}
use pipewire_native_rs.Session.Owner.Invariant.{IsOwner, Keeps, own-cases, IsOwner-transport}

-- A change of the state alone.
IsOwner-state :
    (s : ClientNodeSession) (state : SessionState)
    → (state ≡ running → is_ready s ≡ true)
    → state ≢ cycle_claimed
    → IsOwner s
    → IsOwner (record s { state = state })
unfolding is_ready
IsOwner-state s state runs unclaimed h = record {
  scheduled = λ e. let r = runs e in ground arith;
  unclaimed = unclaimed;
  described = h.described;
  sorted = h.sorted;
  transport_output = h.transport_output;
  transport_peers = h.transport_peers;
  output_peers = h.output_peers;
  within_output = h.within_output;
  within_peers = h.within_peers;
}

refreshed-runs : (state : SessionState) (i : Bool) → refreshed state i ≡ running → state ≡ running
refreshed-runs running i e = refl
refreshed-runs cycle_claimed i e = absurd (cc)
refreshed-runs failed i e = absurd (cc)
refreshed-runs disconnected i e = absurd (cc)
refreshed-runs configuring true e = absurd (cc)
refreshed-runs configuring false e = absurd (cc)
refreshed-runs ready true e = absurd (cc)
refreshed-runs ready false e = absurd (cc)
refreshed-runs stopped true e = absurd (cc)
refreshed-runs stopped false e = absurd (cc)

refreshed-claimed :
    (state : SessionState) (i : Bool) → refreshed state i ≡ cycle_claimed → state ≡ cycle_claimed
refreshed-claimed running i e = absurd (cc)
refreshed-claimed cycle_claimed i e = refl
refreshed-claimed failed i e = absurd (cc)
refreshed-claimed disconnected i e = absurd (cc)
refreshed-claimed configuring true e = absurd (cc)
refreshed-claimed configuring false e = absurd (cc)
refreshed-claimed ready true e = absurd (cc)
refreshed-claimed ready false e = absurd (cc)
refreshed-claimed stopped true e = absurd (cc)
refreshed-claimed stopped false e = absurd (cc)

ready-of : (s : ClientNodeSession) → IsOwner s → s.state ≡ running → is_ready s ≡ true
unfolding is_ready
ready-of s h e = let r = h.scheduled e in ground arith

pub refresh_state-IsOwner : (s : ClientNodeSession) → IsOwner s → IsOwner (refresh_state s)
unfolding refresh_state
refresh_state-IsOwner s h =
    IsOwner-state s (refreshed s.state (is_ready s))
      (λ e. ready-of s h (refreshed-runs s.state (is_ready s) e))
      (λ e. h.unclaimed (refreshed-claimed s.state (is_ready s) e)) h

-- A session that disconnects holds nothing.
pub disconnect-IsOwner : (s : ClientNodeSession) → IsOwner (disconnect s)
unfolding disconnect
disconnect-IsOwner s = record {
  scheduled = λ e. absurd (cc);
  unclaimed = λ e. absurd (cc);
  described = λ e. absurd (cc);
  sorted = tt;
  transport_output = tt;
  transport_peers = tt;
  output_peers = tt;
  within_output = tt;
  within_peers = tt;
}

-- A session fails from any state.
pub fail-IsOwner :
    (s : ClientNodeSession) (state : SessionState)
    → IsOwner (record s { state = state })
    → IsOwner (fail s)
unfolding fail
fail-IsOwner s state h =
    let (t, r, own, mapping, has) = own-cases s in
    let known : fail s ≡ record s { transport = t; state = failed } =
      ap (λ x. record x.0 { state = failed }) own in
    subst IsOwner (sym known) (
      IsOwner-transport (record s { state = state }) t failed mapping has (λ e. absurd (cc))
        (λ e. absurd (cc)) h)

mark-interval : (t : TransportGeneration) → (mark_transport_ready t).0.interval ≡ t.interval
unfolding mark_transport_ready
mark-interval t = elim (Result-cases (from_raw_parts t.base t.len t.record_now)) [
  | inl (_, e) ↦ rw (mark_transport_ready, e) refl
  | inr (x, e) ↦ rw (mark_transport_ready, e) refl
]

schedule-interval :
    (r : Result Error ActivationStatus) (t : TransportGeneration)
    → (schedule_from r t).0.interval ≡ t.interval
schedule-interval (err e) t = refl
schedule-interval (ok inactive) t = mark-interval t
schedule-interval (ok finished) t = refl
schedule-interval (ok not_triggered) t = refl
schedule-interval (ok triggered) t = refl
schedule-interval (ok awake) t = refl

start-Keeps :
    (s : ClientNodeSession)
    → IsOwner s
    → is_ready s ≡ true
    → Keeps (continue (schedule_own s) (λ done. modify (λ s. record s { state = running })))
unfolding schedule_own schedule is_ready
start-Keeps s h i = elim (Option-cases s.transport) [
  | inl e ↦ absurd (ground arith)
  | inr (t, e) ↦
      let t' = (schedule t).0 in
      let mapping : transport_of (some t') ≡ transport_of s.transport =
        ap (λ k. k ∷ []) (schedule-interval (transport_status t) t) ∙ ap transport_of (sym e) in
      let has : is_some (some t') ≡ is_some s.transport = ap is_some (sym e) in
      let own : schedule_own s ≡ (record s { transport = some t' }, (schedule t).1) =
        ap (λ o. schedule_some o s) e in
      let kept = IsOwner-transport s (some t') s.state mapping has (λ e. e) h.unclaimed h in
      elim (Result-cases (schedule t).1) [
        | inl (_, f) ↦
            subst (λ r. Keeps (continue r (λ done. modify (λ s. record s { state = running }))))
              (sym (own ∙ ap (λ r. (record s { transport = some t' }, r)) f))
              (IsOwner-state (record s { transport = some t' }) running (λ e. ground arith)
                (λ e. absurd (cc)) kept)
        | inr (x, f) ↦
            subst (λ r. Keeps (continue r (λ done. modify (λ s. record s { state = running }))))
              (sym (own ∙ ap (λ r. (record s { transport = some t' }, r)) f)) kept
      ]
]

pub ensure_running-Keeps : (s : ClientNodeSession) → IsOwner s → Keeps (ensure_running s)
unfolding ensure_running
ensure_running-Keeps s h = elim (Bool-cases (not s.active_requested || not (is_start s.command))) [
  | inl e ↦ rw (ensure_running, e) h
  | inr e ↦ elim (Bool-cases (is_ready s)) [
    | inl i ↦ rw (ensure_running, e, i) (start-Keeps s h i)
    | inr i ↦
        rw (ensure_running, e, i)
          (IsOwner-state s configuring (λ e. absurd (cc)) (λ e. absurd (cc)) h)
  ]
]

pub settle-Keeps : (s : ClientNodeSession) → IsOwner s → Keeps (settle s)
unfolding settle
settle-Keeps s h = elim (Bool-cases (s.active_requested && (is_start s.command && is_ready s))) [
  | inl e ↦ rw (settle, e) (ensure_running-Keeps s h)
  | inr e ↦ rw (settle, e) h
]
