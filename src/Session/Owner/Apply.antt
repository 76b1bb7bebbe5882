-- ===== src/Session/Owner/Apply.antt =====
-- `ClientNodeSession::apply` of node/src/session/owner.rs and the bindings that it makes.
use pipewire_native_rs.Prelude.{
  ℕ, ◌+◌, List, [], ◌∷◌, length, Option, none, some, Bool, true, false, not, ◌||◌, ◌&&◌, leb,
  Result, ok, err, if◌then◌else◌,
}
use pipewire_native_rs.Session.Memory.{MemoryKey, MemoryLease, same_key}
use pipewire_native_rs.Session.Transport.{failure}
use pipewire_native_rs.Session.Peer.{PeerActivation}
use pipewire_native_rs.Session.Owner.{
  Error, too_many_peers, during_callback, ended, pause, start, suspend, SessionState, cycle_claimed,
  disconnected, PeerActivationDescriptor, PortIoDescriptor, BufferSetDescriptor,
  NegotiatedAudioFormat, same_format, same_buffer_set, TransportGeneration, OutputGeneration,
  ClientNodeSession, SessionCommand, replace_transport, set_format, clear_format, use_buffers,
  clear_buffers, set_port_io, clear_port_io, set_peer_activation, remove_peer_activation,
  memory_available, remove_memory_key, memory_disconnected, set_active, set_node_command,
  disconnect_session, ApplyOutcome, applied, pending_memory, already_disconnected,
}
use pipewire_native_rs.Session.Owner.Bind.{World, find_lease, remove_lease, depends_on}
use pipewire_native_rs.Session.Owner.NodeMap.{find_node, remove_node, insert_node}
use pipewire_native_rs.Session.Owner.Effect.{
  Step, ◌>>=◌, ◌>>◌, give, fail_with, gets, modify, is_some, is_start, is_ready, refresh_state,
  stop, disconnect, ensure_running,
}
use pipewire_native_rs.Session.Owner.Install.{
  bind_transport, output_candidate, bind_output, bind_peer, retry_pending,
}

-- `PeerSet::remove_memory`
unfoldable pub remove_peers_of : MemoryKey → List PeerActivation → List PeerActivation
remove_peers_of key [] = []
remove_peers_of key (p ∷ peers) =
    let rest = remove_peers_of key peers in if same_key p.key key then rest else p ∷ rest

abbrev pub drop_transport : MemoryKey → Option TransportGeneration → Step (Unit {0})
drop_transport key none = give tt
drop_transport key (some t) =
    if same_key t.activation_key key
    then (do stop; modify (λ s. record s { transport = none }))
    else give tt

abbrev pub drop_output : MemoryKey → Option OutputGeneration → Step (Unit {0})
drop_output key none = give tt
drop_output key (some o) =
    if depends_on o key then (do stop; modify (λ s. record s { output = none })) else give tt

unfoldable pub remove_memory : MemoryKey → Step (Unit {0})
remove_memory key = do
  transport ← gets (λ s. s.transport)
  drop_transport key transport
  output ← gets (λ s. s.output)
  drop_output key output
  modify (λ s. record s { peers = remove_peers_of key s.peers })

-- The lease that is available under exactly this key is forgotten.
unfoldable pub forget_lease : MemoryKey → List MemoryLease → List MemoryLease
forget_lease key leases = elim (find_lease key.id leases) [
  | none ↦ leases
  | some l ↦ if same_key l.entry.key key then remove_lease key.id leases else leases
]

abbrev pub replace_format : NegotiatedAudioFormat → Option NegotiatedAudioFormat → Step (Unit {0})
replace_format value none = give tt
replace_format value (some current) = if same_format current value then give tt else (do
  stop
  modify (λ s. record s { buffer_descriptor = none; io_descriptor = none; output = none }))

unfoldable pub apply_format : World → NegotiatedAudioFormat → Step ApplyOutcome
apply_format w value = do
  old ← gets (λ s. s.format)
  modify (λ s. record s { format = some value })
  replace_format value old
  bind_output w

-- A buffer set that replaces another: whether the memory for it is missing.
abbrev pub replacement_pending :
    World → BufferSetDescriptor → Option NegotiatedAudioFormat → Option PortIoDescriptor → Step Bool
replacement_pending w value none io = give false
replacement_pending w value (some format) none = give false
replacement_pending w value (some format) (some io) = do
  candidate ← output_candidate w format value io
  give (not (is_some candidate))

unfoldable pub replace_buffers : World → BufferSetDescriptor → Step ApplyOutcome
replace_buffers w value = do
  s ← gets (λ s. s)
  pending ← replacement_pending w value s.format s.io_descriptor
  stop
  modify (λ s. record s { output = none; io_descriptor = none; buffer_descriptor = some value })
  give (if pending then pending_memory else applied)

unfoldable pub install_buffers : World → BufferSetDescriptor → Step ApplyOutcome
install_buffers w value = do
  modify (λ s. record s { buffer_descriptor = some value })
  bind_output w

abbrev pub apply_buffers_over :
    World → BufferSetDescriptor → Option BufferSetDescriptor → Step ApplyOutcome
apply_buffers_over w value none = install_buffers w value
apply_buffers_over w value (some current) =
    if same_buffer_set current value then install_buffers w value else replace_buffers w value

unfoldable pub apply_buffers : World → BufferSetDescriptor → Step ApplyOutcome
apply_buffers w value = do old ← gets (λ s. s.buffer_descriptor); apply_buffers_over w value old

abbrev pub apply_io_with :
    World
    → PortIoDescriptor
    → Option NegotiatedAudioFormat
    → Option BufferSetDescriptor
    → Step ApplyOutcome
apply_io_with w value none set = do
  modify (λ s. record s { io_descriptor = some value })
  give applied
apply_io_with w value (some format) none = do
  modify (λ s. record s { io_descriptor = some value })
  give applied
apply_io_with w value (some format) (some set) = do
  candidate ← output_candidate w format set value
  stop
  modify (λ s. record s { io_descriptor = some value; output = candidate })
  give (if is_some candidate then applied else pending_memory)

unfoldable pub apply_io : World → PortIoDescriptor → Step ApplyOutcome
apply_io w value = do s ← gets (λ s. s); apply_io_with w value s.format s.buffer_descriptor

abbrev pub max_session_peers : ℕ
max_session_peers = 64

-- A node that is not known, when there are as many descriptors as there may be.
unfoldable pub too_many : ClientNodeSession → PeerActivationDescriptor → Bool
too_many s value =
    let known =
      is_some (find_node (λ d. d.node) value.node s.pending_peers)
      || is_some (find_node (λ p. p.node) value.node s.peers) in
    not known && leb max_session_peers (length s.pending_peers + length s.peers)

unfoldable pub install_peer : World → PeerActivationDescriptor → Step ApplyOutcome
install_peer w value = do
  modify (λ s. record s { pending_peers = insert_node (λ d. d.node) value s.pending_peers })
  bind_peer w value.node

unfoldable pub apply_peer : World → PeerActivationDescriptor → Step ApplyOutcome
apply_peer w value s =
    (if too_many s value then fail_with (failure too_many_peers) else install_peer w value) s

abbrev no_buffers : ClientNodeSession → ClientNodeSession
no_buffers s = record s { output = none; io_descriptor = none; buffer_descriptor = none }

abbrev no_configuration : ClientNodeSession → ClientNodeSession
no_configuration s = record s {
  output = none;
  io_descriptor = none;
  buffer_descriptor = none;
  format = none;
}

-- What each command does.
unfoldable pub dispatch : World → SessionCommand → Step ApplyOutcome
dispatch w (replace_transport value) = do
  modify (λ s. record s { pending_transport = some value })
  bind_transport w
dispatch w (set_format value) = apply_format w value
dispatch w clear_format = do stop; modify no_configuration; give applied
dispatch w (use_buffers value) = apply_buffers w value
dispatch w clear_buffers = do stop; modify no_buffers; give applied
dispatch w (set_port_io value) = apply_io w value
dispatch w clear_port_io = do
  stop
  modify (λ s. record s { output = none; io_descriptor = none })
  give applied
dispatch w (set_peer_activation value) = apply_peer w value
dispatch w (remove_peer_activation node) = do
  modify (λ s. record s {
    pending_peers = remove_node (λ d. d.node) node s.pending_peers;
    peers = remove_node (λ p. p.node) node s.peers;
  })
  give applied
dispatch w (memory_available l) = do
  modify (λ s. record s { available_memory = l ∷ remove_lease l.entry.key.id s.available_memory })
  retry_pending w
dispatch w (remove_memory_key key) = do
  modify (λ s. record s { available_memory = forget_lease key s.available_memory })
  remove_memory key
  give applied
dispatch w memory_disconnected = do modify disconnect; give applied
dispatch w (set_active true) = do
  modify (λ s. record s { active_requested = true })
  ensure_running
  give applied
dispatch w (set_active false) = do
  modify (λ s. record s { active_requested = false })
  stop
  give applied
dispatch w (set_node_command start) = do
  modify (λ s. record s { command = start })
  ensure_running
  give applied
dispatch w (set_node_command pause) = do
  modify (λ s. record s { command = pause })
  stop
  give applied
dispatch w (set_node_command suspend) = do
  modify (λ s. record s { command = suspend })
  stop
  modify no_configuration
  give applied
dispatch w disconnect_session = do modify disconnect; give applied

-- The end of `apply`: a session that is ready runs if it is asked to.
unfoldable pub settle : Step (Unit {0})
settle s =
    if s.active_requested && (is_start s.command && is_ready s)
    then ensure_running s
    else (s, ok tt)

abbrev pub refused_after_end : SessionCommand → Result Error ApplyOutcome
refused_after_end disconnect_session = ok already_disconnected
refused_after_end _ = err (failure ended)

unfoldable pub perform : World → SessionCommand → Step ApplyOutcome
perform w command = do outcome ← dispatch w command; modify refresh_state; settle; give outcome

-- The tests of the state come first.
abbrev pub apply_in : SessionState → World → SessionCommand → Step ApplyOutcome
apply_in disconnected w command s = (s, refused_after_end command)
apply_in cycle_claimed w command s = (s, err (failure during_callback))
apply_in _ w command s = perform w command s

unfoldable pub apply : World → SessionCommand → Step ApplyOutcome
apply w command s = apply_in s.state w command s
