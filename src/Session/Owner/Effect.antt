-- ===== src/Session/Owner/Effect.antt =====
-- The private operations of `ClientNodeSession` in node/src/session/owner.rs that take the session
-- as it is and leave it changed, whether they succeed or fail. An `unwrap` of nothing, which panics
-- in the source, is the error `unwrapped_none`.
use pipewire_native_rs.Prelude.{
  ℕ, Option, none, some, [], Bool, true, false, not, ◌||◌, ◌&&◌, Result, ok, err, map_err,
  if◌then◌else◌,
}
use pipewire_native_rs.Prelude.Words.{checked_add}
use pipewire_native_rs.Session.Activation as Activation
use pipewire_native_rs.Session.Activation.{
  ActivationStatus, inactive, finished, from_raw_parts, read_status,
}
use pipewire_native_rs.Session.Transport.{activation, failure}
use pipewire_native_rs.Session.Owner.{
  Error, session_generation, start_status, unwrapped_none, NodeCommandState, pause, start, suspend,
  SessionState, configuring, ready, running, cycle_claimed, stopped, failed, disconnected,
  TransportGeneration, ClientNodeSession,
}

abbrev pub Step {ℓ} : Type ℓ → Type ℓ
Step A = ClientNodeSession → ClientNodeSession × Result Error A

-- What comes after a step: `?` leaves the session as the failing step left it.
abbrev pub continue {ℓ κ} :
    {A : Type ℓ} {B : Type κ}
    → ClientNodeSession × Result Error A
    → (A → Step B)
    → ClientNodeSession × Result Error B
continue (s, ok a) next = next a s
continue (s, err e) next = (s, err e)

infixl 5 ◌>>=◌ ◌>>◌
abbrev pub ◌>>=◌ {ℓ κ} : {A : Type ℓ} {B : Type κ} → Step A → (A → Step B) → Step B
(m >>= next) s = continue (m s) next

abbrev pub ◌>>◌ {κ} : {B : Type κ} → Step (Unit {0}) → Step B → Step B
(m >> next) s = continue (m s) (λ done. next)

abbrev pub give {ℓ} : {A : Type ℓ} → A → Step A
give a s = (s, ok a)

abbrev pub fail_with {ℓ} : {A : Type ℓ} → Error → Step A
fail_with e s = (s, err e)

abbrev pub gets {ℓ} : {A : Type ℓ} → (ClientNodeSession → A) → Step A
gets f s = (s, ok (f s))

abbrev pub modify : (ClientNodeSession → ClientNodeSession) → Step (Unit {0})
modify f s = (f s, ok tt)

abbrev pub lift {ℓ} : {A : Type ℓ} → Result Error A → Step A
lift r s = (s, r)

abbrev pub is_some {ℓ} : {A : Type ℓ} → Option A → Bool
is_some none = false
is_some (some a) = true

abbrev pub is_start : NodeCommandState → Bool
is_start start = true
is_start pause = false
is_start suspend = false

unfoldable pub is_ready : ClientNodeSession → Bool
is_ready s = is_some s.transport && (is_some s.format && is_some s.output)

-- The state that `refresh_state` and `stop` choose.
abbrev pub refreshed : SessionState → Bool → SessionState
refreshed running is_ready = running
refreshed cycle_claimed is_ready = cycle_claimed
refreshed failed is_ready = failed
refreshed disconnected is_ready = disconnected
refreshed _ true = ready
refreshed _ false = configuring

abbrev pub halted : SessionState → Bool → SessionState
halted disconnected is_ready = disconnected
halted failed is_ready = failed
halted _ true = stopped
halted _ false = configuring

unfoldable pub refresh_state : ClientNodeSession → ClientNodeSession
refresh_state s = record s { state = refreshed s.state (is_ready s) }

unfoldable pub allocate_generation : Step ℕ
allocate_generation s = elim (checked_add s.next_generation 1) [
  | none ↦ (s, err (failure session_generation))
  | some next ↦ (record s { next_generation = next }, ok s.next_generation)
]

-- `TransportGeneration::deactivate`, `status` and `mark_ready`
unfoldable pub deactivate_transport :
    TransportGeneration → TransportGeneration × Result Error (Unit {0})
deactivate_transport t = elim (from_raw_parts t.base t.len t.record_now) [
  | err e ↦ (t, err (activation e))
  | ok _ ↦
      let (a, r) = Activation.deactivate t.record_now in
      (record t { record_now = a }, elim r [ ok _ ↦ ok tt | err e ↦ err (activation e) ])
]

unfoldable pub transport_status : TransportGeneration → Result Error ActivationStatus
transport_status t = elim (from_raw_parts t.base t.len t.record_now) [
  | err e ↦ err (activation e)
  | ok _ ↦ map_err activation (read_status t.record_now)
]

unfoldable pub mark_transport_ready :
    TransportGeneration → TransportGeneration × Result Error (Unit {0})
mark_transport_ready t = elim (from_raw_parts t.base t.len t.record_now) [
  | err e ↦ (t, err (activation e))
  | ok _ ↦
      let (a, r) = Activation.mark_ready t.record_now in
      (record t { record_now = a }, map_err activation r)
]

-- `if let Some(transport) = &mut self.transport { transport.deactivate()? }`
abbrev pub deactivate_some : Option TransportGeneration → Step (Unit {0})
deactivate_some none s = (s, ok tt)
deactivate_some (some t) s =
    let (t', r) = deactivate_transport t in (record s { transport = some t' }, r)

unfoldable pub deactivate_own : Step (Unit {0})
deactivate_own s = deactivate_some s.transport s

unfoldable pub halt : ClientNodeSession → ClientNodeSession
halt s = record s { state = halted s.state (is_ready s) }

unfoldable pub stop : Step (Unit {0})
stop = do deactivate_own; modify halt

unfoldable pub fail : ClientNodeSession → ClientNodeSession
unfolding deactivate_own
fail s = record (deactivate_own s).0 { state = failed }

unfoldable pub disconnect : ClientNodeSession → ClientNodeSession
unfolding stop
disconnect s = record (stop s).0 {
  pending_peers = [];
  peers = [];
  output = none;
  io_descriptor = none;
  buffer_descriptor = none;
  format = none;
  pending_transport = none;
  transport = none;
  available_memory = [];
  state = disconnected;
}

-- The `match` on the transport's status in `ensure_running`.
abbrev pub schedule_from :
    Result Error ActivationStatus
    → TransportGeneration
    → TransportGeneration × Result Error (Unit {0})
schedule_from (err e) t = (t, err e)
schedule_from (ok inactive) t = mark_transport_ready t
schedule_from (ok finished) t = (t, ok tt)
schedule_from (ok _) t = (t, err (failure start_status))

unfoldable pub schedule : TransportGeneration → TransportGeneration × Result Error (Unit {0})
schedule t = schedule_from (transport_status t) t

abbrev pub schedule_some : Option TransportGeneration → Step (Unit {0})
schedule_some none s = (s, err (failure unwrapped_none))
schedule_some (some t) s = let (t', r) = schedule t in (record s { transport = some t' }, r)

unfoldable pub schedule_own : Step (Unit {0})
schedule_own s = schedule_some s.transport s

unfoldable pub ensure_running : Step (Unit {0})
ensure_running s =
    if not s.active_requested || not (is_start s.command)
    then (s, ok tt)
    else if not (is_ready s)
    then (record s { state = configuring }, ok tt)
    else ((do schedule_own; modify (λ s. record s { state = running })) s)
