-- ===== src/Session/Owner/Install.antt =====
-- The bindings that `ClientNodeSession` of node/src/session/owner.rs makes and tries again.
use pipewire_native_rs.Prelude.{
  ℕ, List, [], ◌∷◌, ◌++◌, map, Option, none, some, Bool, true, false, ◌||◌, ◌&&◌, ◌==◌, Result, ok,
  err, if◌then◌else◌,
}
use pipewire_native_rs.Session.Memory.{MemoryInterval, MemoryLease, same_backing}
use pipewire_native_rs.Session.Activation.{initialize_client_v1}
use pipewire_native_rs.Session.Transport.{failure}
use pipewire_native_rs.Session.Peer.{PeerActivation}
use pipewire_native_rs.Session.Owner.{
  Error, unwrapped_none, overlapping_generations, TransportDescriptor, PeerActivationDescriptor,
  PortIoDescriptor, BufferSetDescriptor, NegotiatedAudioFormat, TransportGeneration,
  OutputGeneration, BufferDescriptor, ApplyOutcome, applied, pending_memory, already_disconnected,
}
use pipewire_native_rs.Session.Owner.Bind.{
  World, resolve_lease, unresolved, bind_transport_generation, bind_peer_activation,
  bind_output_generation, meets_any, output_intervals,
}
use pipewire_native_rs.Session.Owner.NodeMap.{find_node, remove_node, insert_node}
use pipewire_native_rs.Session.Owner.Effect.{
  Step, ◌>>=◌, ◌>>◌, give, fail_with, gets, modify, lift, is_some, allocate_generation, stop,
}

-- The mappings that a session holds.
abbrev pub transport_of : Option TransportGeneration → List MemoryInterval
transport_of none = []
transport_of (some t) = t.interval ∷ []

abbrev pub output_of : Option OutputGeneration → List MemoryInterval
output_of none = []
output_of (some o) = output_intervals o

-- `PeerSet::intervals` and `intervals_except`
abbrev pub peer_intervals : List PeerActivation → List MemoryInterval
peer_intervals peers = map (λ p. p.interval) peers

unfoldable pub intervals_except : ℕ → List PeerActivation → List MemoryInterval
unfolding remove_node
intervals_except node peers = peer_intervals (remove_node (λ p. p.node) node peers)

unfoldable pub ensure_disjoint : List MemoryInterval → List MemoryInterval → Result Error (Unit {0})
ensure_disjoint [] existing = ok tt
ensure_disjoint (left ∷ candidate) existing =
    let rest = ensure_disjoint candidate existing in
    if meets_any left existing then err (failure overlapping_generations) else rest

abbrev pub same_interval : MemoryInterval → MemoryInterval → Bool
same_interval a b = same_backing a.backing b.backing && (a.start == b.start && a.end == b.end)

-- A candidate on the region of the transport that it replaces shares that one's record, which has
-- been deactivated meanwhile.
unfoldable pub take_over : Option TransportGeneration → TransportGeneration → TransportGeneration
take_over none candidate = candidate
take_over (some t) candidate =
    if same_interval t.interval candidate.interval
    then record candidate { record_now = initialize_client_v1 t.record_now }
    else candidate

abbrev pub bind_pending : World → Option TransportDescriptor → Step ApplyOutcome
bind_pending w none = give applied
bind_pending w (some d) = do
  leases ← gets (λ s. s.available_memory)
  missing ← lift (unresolved (resolve_lease leases d.activation.memory))
  if missing then give pending_memory else (do
    modify (λ s. record s { pending_transport = none })
    generation ← allocate_generation
    candidate ← lift (bind_transport_generation w generation d leases)
    s ← gets (λ s. s)
    lift (ensure_disjoint (candidate.interval ∷ []) (output_of s.output ++ peer_intervals s.peers))
    stop
    modify (λ s. record s { transport = some (take_over s.transport candidate) })
    give applied)

unfoldable pub bind_transport : World → Step ApplyOutcome
bind_transport w = do pending ← gets (λ s. s.pending_transport); bind_pending w pending

-- The loop over the memory that an output needs, as `output_candidate` looks it up.
unfoldable pub any_unresolved : List MemoryLease → List ℕ → Result Error Bool
any_unresolved leases [] = ok false
any_unresolved leases (id ∷ ids) =
    let rest = any_unresolved leases ids in
    elim (unresolved (resolve_lease leases id)) [
      | err e ↦ err e
      | ok true ↦ ok true
      | ok false ↦ rest
    ]

abbrev pub buffer_memory_ids : List BufferDescriptor → List ℕ
buffer_memory_ids [] = []
buffer_memory_ids (b ∷ bs) = b.metadata.memory ∷ (b.media_memory ∷ buffer_memory_ids bs)

unfoldable pub output_candidate :
    World
    → NegotiatedAudioFormat
    → BufferSetDescriptor
    → PortIoDescriptor
    → Step (Option OutputGeneration)
output_candidate w format set io = do
  leases ← gets (λ s. s.available_memory)
  missing ← lift (any_unresolved leases (buffer_memory_ids set.buffers ++ (io.region.memory ∷ [])))
  if missing then give none else (do
    generation ← allocate_generation
    candidate ← lift (bind_output_generation w generation format set io leases)
    s ← gets (λ s. s)
    lift (
        ensure_disjoint (output_intervals candidate)
          (transport_of s.transport ++ peer_intervals s.peers))
    give (some candidate))

abbrev pub install_output : Option OutputGeneration → Step ApplyOutcome
install_output none = give pending_memory
install_output (some o) = do stop; modify (λ s. record s { output = some o }); give applied

abbrev pub bind_output_of :
    World
    → Option NegotiatedAudioFormat
    → Option BufferSetDescriptor
    → Option PortIoDescriptor
    → Step ApplyOutcome
bind_output_of w none set io = give applied
bind_output_of w (some format) none io = give applied
bind_output_of w (some format) (some set) none = give applied
bind_output_of w (some format) (some set) (some io) = do
  candidate ← output_candidate w format set io
  install_output candidate

unfoldable pub bind_output : World → Step ApplyOutcome
bind_output w = do s ← gets (λ s. s); bind_output_of w s.format s.buffer_descriptor s.io_descriptor

abbrev pub bind_waiting : World → ℕ → Option PeerActivationDescriptor → Step ApplyOutcome
bind_waiting w node none = fail_with (failure unwrapped_none)
bind_waiting w node (some d) = do
  leases ← gets (λ s. s.available_memory)
  missing ← lift (unresolved (resolve_lease leases d.activation.memory))
  if missing then give pending_memory else (do
    modify (λ s. record s { pending_peers = remove_node (λ d. d.node) node s.pending_peers })
    generation ← allocate_generation
    candidate ← lift (bind_peer_activation w generation d leases)
    s ← gets (λ s. s)
    lift (
        ensure_disjoint (candidate.interval ∷ [])
          (transport_of s.transport ++ (output_of s.output ++ intervals_except node s.peers)))
    modify (λ s. record s { peers = insert_node (λ p. p.node) candidate s.peers })
    give applied)

unfoldable pub bind_peer : World → ℕ → Step ApplyOutcome
bind_peer w node = do
  s ← gets (λ s. s)
  bind_waiting w node (find_node (λ d. d.node) node s.pending_peers)

abbrev pub is_pending : ApplyOutcome → Bool
is_pending pending_memory = true
is_pending applied = false
is_pending already_disconnected = false

-- The loop of `retry_pending` over the peers that wait.
unfoldable pub retry_peers : World → Bool → List ℕ → Step Bool
retry_peers w pending [] = give pending
retry_peers w pending (node ∷ nodes) = do
  outcome ← bind_peer w node
  retry_peers w (pending || is_pending outcome) nodes

unfoldable pub retry_pending : World → Step ApplyOutcome
retry_pending w = do
  s ← gets (λ s. s)
  first ← (if is_some s.pending_transport then bind_transport w else give applied)
  s ← gets (λ s. s)
  second ←
      (if is_some s.buffer_descriptor && is_some s.io_descriptor
        then bind_output w
        else give applied)
  s ← gets (λ s. s)
  pending ←
      retry_peers w (is_pending first || is_pending second) (map (λ d. d.node) s.pending_peers)
  give (if pending then pending_memory else applied)
