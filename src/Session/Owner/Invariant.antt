-- ===== src/Session/Owner/Invariant.antt =====
-- The invariant of a session, and how steps keep it.
pub mod Steps
pub mod Bindings
pub mod Peers
pub mod Removal
pub mod Commands
pub mod Wakes
use pipewire_native_rs.Prelude.{
  ℕ, suc, ◌+◌, ◌<◌, ◌≡◌, ◌≢◌, ◌⊎◌, refl, sym, ap, subst, ◌∙◌, inl, inr, Bool, true, false, not,
  ◌||◌, ◌&&◌, Bool-cases, Option, none, some, Option-cases, List, [], ◌∷◌, ◌++◌, map, Result, ok,
  err, Result-cases, All, if◌then◌else◌, arith,
}
use pipewire_native_rs.Prelude.Words.{checked_add}
use pipewire_native_rs.Session.Memory.{MemoryInterval, interval}
use pipewire_native_rs.Session.Activation.{from_raw_parts}
use pipewire_native_rs.Session.Transport.{failure}
use pipewire_native_rs.Session.Peer.{PeerActivation}
use pipewire_native_rs.Session.Owner.{
  Error, session_generation, SessionState, configuring, ready, running, cycle_claimed, stopped,
  failed, disconnected, TransportGeneration, OutputGeneration, ClientNodeSession, new_session,
}
use pipewire_native_rs.Session.Owner.Bind.Apart.{AreApart, Apart}
use pipewire_native_rs.Session.Owner.NodeMap.Sorted.{Pairwise, IsSorted}
use pipewire_native_rs.Session.Owner.Effect.{
  Step, continue, modify, is_some, is_ready, is_start, refreshed, halted, refresh_state,
  allocate_generation, deactivate_transport, mark_transport_ready, transport_status, schedule,
  schedule_own, deactivate_some, schedule_some, deactivate_own, halt, stop, fail, disconnect,
  ensure_running,
}
use pipewire_native_rs.Session.Owner.Apply.{settle}
use pipewire_native_rs.Session.Owner.Install.{transport_of, output_of, peer_intervals}

-- The peers' nodes and mappings.
abbrev pub Slot : Type 0
Slot = ℕ × MemoryInterval

abbrev pub slot : PeerActivation → Slot
slot p = (p.node, p.interval)

abbrev pub slot_intervals : List Slot → List MemoryInterval
slot_intervals slots = map (λ a. a.1) slots

abbrev pub SlotsApart : Slot → Slot → Type 0
SlotsApart a b = AreApart a.1 b.1

-- What holds between the parts of a session.
pub record IsSound (transport : List MemoryInterval)
    (has_transport has_format has_buffers has_io : Bool) (output : Option OutputGeneration)
    (slots : List Slot) (state : SessionState) : Type 0 where
  pub scheduled :
      state ≡ running → (has_transport ≡ true) × (has_format ≡ true) × (is_some output ≡ true)
  pub unclaimed : state ≢ cycle_claimed
  pub described :
      is_some output ≡ true → (has_format ≡ true) × (has_buffers ≡ true) × (has_io ≡ true)
  pub sorted : IsSorted (λ a. a.0) slots
  pub transport_output : Apart transport (output_of output)
  pub transport_peers : Apart transport (slot_intervals slots)
  pub output_peers : Apart (output_of output) (slot_intervals slots)
  pub within_output : Pairwise AreApart (output_of output)
  pub within_peers : Pairwise SlotsApart slots

-- A running session has a transport, a format and an output; no cycle is left claimed; an output has
-- a format, buffers and IO behind it; the peers stand in the order of their nodes; and no two of the
-- mappings that the session holds overlap.
abbrev pub IsOwner : ClientNodeSession → Type 0
IsOwner s =
    IsSound (transport_of s.transport) (is_some s.transport) (is_some s.format)
      (is_some s.buffer_descriptor) (is_some s.io_descriptor) s.output (map slot s.peers) s.state

pub new_session-IsOwner : IsOwner new_session
new_session-IsOwner = record {
  scheduled = λ e. absurd (cc);
  unclaimed = λ e. absurd (cc);
  described = λ e. absurd (cc);
  sorted = tt;
  transport_output = tt;
  transport_peers = tt;
  output_peers = tt;
  within_output = tt;
  within_peers = tt;
}

-- A step that keeps the invariant, whether it succeeds or fails.
abbrev pub Keeps {ℓ} : {A : Type ℓ} → ClientNodeSession × Result Error A → Type 0
Keeps r = IsOwner r.0

pub continue-Keeps {ℓ κ} :
    {A : Type ℓ} {B : Type κ} (r : ClientNodeSession × Result Error A) (next : A → Step B)
    → Keeps r
    → ((a : A) (s : ClientNodeSession) → r ≡ (s, ok a) → IsOwner s → Keeps (next a s))
    → Keeps (continue r next)
continue-Keeps (s, ok a) next h then_next = then_next a s refl h
continue-Keeps (s, err e) next h then_next = h

-- A computation that leaves the session alone.
pub lift-Keeps {ℓ κ} :
    {A : Type ℓ} {B : Type κ} (r : Result Error A) (next : A → Step B) (s : ClientNodeSession)
    → IsOwner s
    → ((a : A) → r ≡ ok a → Keeps (next a s))
    → Keeps (continue (s, r) next)
lift-Keeps (ok a) next s h then_next = then_next a refl
lift-Keeps (err e) next s h then_next = h

-- A step whose result is known.
pub along-Keeps {ℓ κ} :
    {A : Type ℓ} {B : Type κ} {r r' : ClientNodeSession × Result Error A} (next : A → Step B)
    → r ≡ r'
    → Keeps (continue r' next)
    → Keeps (continue r next)
along-Keeps next e h = subst (λ r. Keeps (continue r next)) (sym e) h

pub allocate-Keeps {κ} :
    {B : Type κ} (next : ℕ → Step B) (s : ClientNodeSession)
    → IsOwner s
    → ((n : ℕ) → Keeps (next s.next_generation (record s { next_generation = n })))
    → Keeps (continue (allocate_generation s) next)
unfolding allocate_generation
allocate-Keeps next s h then_next = elim (Option-cases (checked_add s.next_generation 1)) [
  | inl e ↦
      let known : allocate_generation s ≡ (s, err (failure session_generation)) =
        rw (allocate_generation, e) refl in
      along-Keeps next known h
  | inr (n, e) ↦
      let known : allocate_generation s ≡ (record s { next_generation = n }, ok s.next_generation) =
        rw (allocate_generation, e) refl in
      along-Keeps next known (then_next n)
]

pub deactivate_transport-interval :
    (t : TransportGeneration) → (deactivate_transport t).0.interval ≡ t.interval
unfolding deactivate_transport
deactivate_transport-interval t = elim (Result-cases (from_raw_parts t.base t.len t.record_now)) [
  | inl (_, e) ↦ rw (deactivate_transport, e) refl
  | inr (x, e) ↦ rw (deactivate_transport, e) refl
]

-- What `stop` can leave: a transport on the same mapping, and a state in which nothing runs.
pub record IsHalted (before after : Option TransportGeneration) (state : SessionState)
    : Type 0 where
  pub mapping : transport_of after ≡ transport_of before
  pub has : is_some after ≡ is_some before
  pub idle : state ≢ running
  pub unclaimed : state ≢ cycle_claimed

-- An exchange of the transport for another on the same mapping, without more running.
pub IsOwner-transport :
    (s : ClientNodeSession) (t : Option TransportGeneration) (state : SessionState)
    → transport_of t ≡ transport_of s.transport
    → is_some t ≡ is_some s.transport
    → (state ≡ running → s.state ≡ running)
    → state ≢ cycle_claimed
    → IsOwner s
    → IsOwner (record s { transport = t; state = state })
IsOwner-transport s t state mapping has runs unclaimed h = record {
  scheduled = λ e. let (a, b, c) = h.scheduled (runs e) in (has ∙ a, b, c);
  unclaimed = unclaimed;
  described = h.described;
  sorted = h.sorted;
  transport_output = rw mapping h.transport_output;
  transport_peers = rw mapping h.transport_peers;
  output_peers = h.output_peers;
  within_output = h.within_output;
  within_peers = h.within_peers;
}

halted-idle : (state : SessionState) (is_ready : Bool) → halted state is_ready ≢ running
halted-idle configuring true e = absurd (cc)
halted-idle configuring false e = absurd (cc)
halted-idle ready true e = absurd (cc)
halted-idle ready false e = absurd (cc)
halted-idle running true e = absurd (cc)
halted-idle running false e = absurd (cc)
halted-idle cycle_claimed true e = absurd (cc)
halted-idle cycle_claimed false e = absurd (cc)
halted-idle stopped true e = absurd (cc)
halted-idle stopped false e = absurd (cc)
halted-idle failed is_ready e = absurd (cc)
halted-idle disconnected is_ready e = absurd (cc)

halted-unclaimed : (state : SessionState) (is_ready : Bool) → halted state is_ready ≢ cycle_claimed
halted-unclaimed configuring true e = absurd (cc)
halted-unclaimed configuring false e = absurd (cc)
halted-unclaimed ready true e = absurd (cc)
halted-unclaimed ready false e = absurd (cc)
halted-unclaimed running true e = absurd (cc)
halted-unclaimed running false e = absurd (cc)
halted-unclaimed cycle_claimed true e = absurd (cc)
halted-unclaimed cycle_claimed false e = absurd (cc)
halted-unclaimed stopped true e = absurd (cc)
halted-unclaimed stopped false e = absurd (cc)
halted-unclaimed failed is_ready e = absurd (cc)
halted-unclaimed disconnected is_ready e = absurd (cc)

-- Deactivating the transport changes its shared record at most.
pub own-cases :
    (s : ClientNodeSession)
    → (t : Option TransportGeneration) × (r : Result Error (Unit {0})) × (deactivate_own s
        ≡ (record s { transport = t }, r))
      × (transport_of t ≡ transport_of s.transport)
      × (is_some t ≡ is_some s.transport)
unfolding deactivate_own
own-cases s = elim (Option-cases s.transport) [
  | inl e ↦ (s.transport, ok tt, ap (λ o. deactivate_some o s) e, refl, refl)
  | inr (t, e) ↦ (
    some (deactivate_transport t).0,
    (deactivate_transport t).1,
    ap (λ o. deactivate_some o s) e,
    ap (λ k. k ∷ []) (deactivate_transport-interval t) ∙ ap transport_of (sym e),
    ap is_some (sym e),
  )
]

-- The ways in which `stop` ends: an error leaves the state, success leaves nothing running.
pub stop-cases :
    (s : ClientNodeSession)
    → ((t : Option TransportGeneration) × (e : Error) × (stop s
          ≡ (record s { transport = t }, err e))
        × (transport_of t ≡ transport_of s.transport)
        × (is_some t ≡ is_some s.transport))
      ⊎ ((t : Option TransportGeneration) × (state : SessionState) × (stop s
            ≡ (record s { transport = t; state = state }, ok tt))
          × IsHalted s.transport t state)
unfolding stop halt
stop-cases s =
    let (t, r, own, mapping, has) = own-cases s in
    let i = is_ready (record s { transport = t }) in
    let after : (r' : Result Error (Unit {0}))
        → r ≡ r'
        → stop s ≡ continue (record s { transport = t }, r') (λ done. modify halt) =
      λ r' f.
        ap (λ x. continue x (λ done. modify halt))
          (own ∙ ap (λ r. (record s { transport = t }, r)) f) in
    elim (Result-cases r) [
      | inl (_, f) ↦ inr (
        t,
        halted s.state i,
        after (ok tt) f,
        record {
          mapping = mapping;
          has = has;
          idle = halted-idle s.state i;
          unclaimed = halted-unclaimed s.state i;
        },
      )
      | inr (x, f) ↦ inl (t, x, after (err x) f, mapping, has)
    ]

-- `stop`, and what comes after it.
pub stop-Keeps {κ} :
    {B : Type κ} (next : Unit {0} → Step B) (s : ClientNodeSession)
    → IsOwner s
    → ((t : Option TransportGeneration) (state : SessionState)
        → IsHalted s.transport t state
        → IsOwner (record s { transport = t; state = state })
        → Keeps (next tt (record s { transport = t; state = state })))
    → Keeps (continue (stop s) next)
stop-Keeps next s h then_next = elim (stop-cases s) [
  | inl (t, x, e, mapping, has) ↦
      along-Keeps next e (IsOwner-transport s t s.state mapping has (λ e. e) h.unclaimed h)
  | inr (t, state, e, halted) ↦ along-Keeps next e (
      then_next t state halted (
        IsOwner-transport s t state halted.mapping halted.has (λ e. absurd (halted.idle e))
          halted.unclaimed h))
]

-- Steps put together.
pub assoc-Keeps {ℓ κ μ} :
    {A : Type ℓ} {B : Type κ} {C : Type μ} (r : ClientNodeSession × Result Error A)
    (first : A → Step B) (next : B → Step C)
    → Keeps (continue r (λ a s. continue (first a s) next))
    → Keeps (continue (continue r first) next)
assoc-Keeps (s, ok a) first next h = h
assoc-Keeps (s, err e) first next h = h

pub if-Keeps {κ} :
    {B : Type κ} (b : Bool) (yes_step no_step : Step B) (s : ClientNodeSession)
    → Keeps (yes_step s)
    → Keeps (no_step s)
    → Keeps ((if b then yes_step else no_step) s)
if-Keeps true yes_step no_step s p q = p
if-Keeps false yes_step no_step s p q = q

pub if-continue-Keeps {ℓ κ} :
    {A : Type ℓ} {B : Type κ} (b : Bool) (yes_step no_step : Step A) (s : ClientNodeSession)
    (next : A → Step B)
    → Keeps (continue (yes_step s) next)
    → Keeps (continue (no_step s) next)
    → Keeps (continue ((if b then yes_step else no_step) s) next)
if-continue-Keeps true yes_step no_step s next p q = p
if-continue-Keeps false yes_step no_step s next p q = q
