-- ===== src/Session/Peer.antt =====
-- node/src/session/peer.rs: the downstream nodes, and the visit of all of them after a cycle. The
-- set is the list of its peers in the order of their nodes. What others do to a peer's record, and
-- how its eventfd answers, is part of the peer's surroundings.
pub mod Visit
use pipewire_native_rs.Prelude.{ℕ, ◌≡◌, List, [], ◌∷◌, Option, none, some, Result, ok, err}
use pipewire_native_rs.Session.Memory.{MemoryKey, MemoryInterval}
use pipewire_native_rs.Session.Activation.{
  Activation, ActivationError, TriggerOutcome, waiting, triggered_peer, from_raw_parts,
  decrement_pending_and_trigger,
}

-- The mapping of a `PeerActivation` is at address `base` with `len` bytes, and is `interval` of its
-- backing object; `others` and `between` are the others' changes that meet its next decrement,
-- `signal` answers its eventfd's next write.
pub record PeerActivation : Type 0 where
  pub node : ℕ
  pub generation : ℕ
  pub key : MemoryKey
  pub interval : MemoryInterval
  pub base : ℕ
  pub len : ℕ
  pub activation : Activation
  pub others : List (Activation → Activation)
  pub between : Activation → Activation
  pub signal : Result ℕ (Unit {0})

-- `SessionError::PeerTrigger` and `SessionError::PeerSignal`
pub data PeerError : Type 0 where
  peer_trigger : ℕ → ActivationError → PeerError
  peer_signal : ℕ → ℕ → PeerError

-- `PeerActivation::trigger`, its errors with the node as `trigger_all` reports them.
unfoldable pub trigger : PeerActivation → ℕ → PeerActivation × Result PeerError TriggerOutcome
trigger p now_ns = elim (from_raw_parts p.base p.len p.activation) [
  | err e ↦ (p, err (peer_trigger p.node e))
  | ok _ ↦
      let (a, r) = decrement_pending_and_trigger p.activation now_ns p.others p.between in
      let p' = record p { activation = a } in
      elim r [
        | err e ↦ (p', err (peer_trigger p.node e))
        | ok (waiting n) ↦ (p', ok (waiting n))
        | ok triggered_peer ↦ elim p.signal [
          | err e ↦ (p', err (peer_signal p.node e))
          | ok _ ↦ (p', ok triggered_peer)
        ]
      ]
]

-- `first_error` after one more result.
abbrev pub keep_first : Option PeerError → Result PeerError TriggerOutcome → Option PeerError
keep_first (some e) r = some e
keep_first none (err e) = some e
keep_first none (ok x) = none

-- The loop of `trigger_all`.
unfoldable pub visit :
    ℕ → Option PeerError → List PeerActivation → List PeerActivation × Option PeerError
visit now_ns first_error [] = ([], first_error)
visit now_ns first_error (p ∷ ps) =
    let (p', r) = trigger p now_ns in
    let (ps', e) = visit now_ns (keep_first first_error r) ps in (p' ∷ ps', e)

-- `PeerSet::trigger_all`
unfoldable pub trigger_all :
    List PeerActivation → ℕ → List PeerActivation × Result PeerError (Unit {0})
trigger_all ps now_ns =
    let (ps', first_error) = visit now_ns none ps in
    elim first_error [ none ↦ (ps', ok tt) | some e ↦ (ps', err e) ]
