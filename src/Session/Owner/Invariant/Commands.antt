-- ===== src/Session/Owner/Invariant/Commands.antt =====
-- Each command, and `apply`, keeps the invariant.
use pipewire_native_rs.Session.Owner.Invariant.Peers.{bind_peer-Keeps}
use pipewire_native_rs.Prelude.{
  ℕ, ◌≡◌, refl, Bool, true, false, not, ◌&&◌, ◌||◌, Option, none, some, List, [], ◌∷◌, map,
  if◌then◌else◌,
}
use pipewire_native_rs.Session.Memory.{MemoryInterval}
use pipewire_native_rs.Session.Transport.{failure}
use pipewire_native_rs.Session.Owner.{
  too_many_peers, SessionState, configuring, ready, running, cycle_claimed, stopped, failed,
  disconnected, pause, start, suspend, NegotiatedAudioFormat, BufferSetDescriptor, PortIoDescriptor,
  PeerActivationDescriptor, same_format, same_buffer_set, OutputGeneration, ClientNodeSession,
  SessionCommand, replace_transport, set_format, clear_format, use_buffers, clear_buffers,
  set_port_io, clear_port_io, set_peer_activation, remove_peer_activation, memory_available,
  remove_memory_key, memory_disconnected, set_active, set_node_command, disconnect_session, applied,
}
use pipewire_native_rs.Session.Owner.Bind.{World, remove_lease}
use pipewire_native_rs.Session.Owner.NodeMap.{insert_node, remove_node}
use pipewire_native_rs.Session.Owner.NodeMap.Sorted.{Thinned-remove}
use pipewire_native_rs.Session.Owner.Effect.{
  Step, continue, is_some, give, fail_with, ensure_running, refresh_state,
}
use pipewire_native_rs.Session.Owner.Apply.{
  replace_format, apply_format, replacement_pending, replace_buffers, install_buffers,
  apply_buffers_over, apply_buffers, apply_io_with, apply_io, too_many, install_peer, apply_peer,
  remove_memory, forget_lease, dispatch, settle, perform, apply_in, apply,
}
use pipewire_native_rs.Session.Owner.Install.{
  is_pending, output_candidate, bind_output, bind_peer, retry_peers, retry_pending, bind_transport,
}
use pipewire_native_rs.Session.Owner.Invariant.{
  IsOwner, IsSound, Keeps, Slot, continue-Keeps, stop-Keeps, assoc-Keeps, if-Keeps,
}
use pipewire_native_rs.Session.Owner.Invariant.Steps.{
  refresh_state-IsOwner, disconnect-IsOwner, ensure_running-Keeps, settle-Keeps,
}
use pipewire_native_rs.Session.Owner.Invariant.Bindings.{
  candidate-Keeps, IsSound-output, IsSound-no_output, bind_transport-Keeps, bind_output-Keeps,
}
use pipewire_native_rs.Session.Owner.Invariant.Removal.{IsOwner-Thinned, remove_memory-Keeps}

-- A configuration that grows.
IsSound-more :
    {T : List MemoryInterval} {t f b i f' b' i' : Bool} {o : Option OutputGeneration}
    {slots : List Slot} {state : SessionState}
    → (f ≡ true → f' ≡ true)
    → (b ≡ true → b' ≡ true)
    → (i ≡ true → i' ≡ true)
    → IsSound T t f b i o slots state
    → IsSound T t f' b' i' o slots state
IsSound-more f b i h = record {
  scheduled = λ e. let (p, q, r) = h.scheduled e in (p, f q, r);
  unclaimed = h.unclaimed;
  described = λ e. let (p, q, r) = h.described e in (f p, b q, i r);
  sorted = h.sorted;
  transport_output = h.transport_output;
  transport_peers = h.transport_peers;
  output_peers = h.output_peers;
  within_output = h.within_output;
  within_peers = h.within_peers;
}

replace_format-Keeps :
    (w : World) (value : NegotiatedAudioFormat) (old : Option NegotiatedAudioFormat)
    (s : ClientNodeSession)
    → IsOwner s
    → Keeps (replace_format value old s)
replace_format-Keeps w value none s h = h
replace_format-Keeps w value (some current) s h =
    if-Keeps (same_format current value) _ _ s h
      (stop-Keeps _ s h (λ t state halted h'. IsSound-no_output h' halted.idle))

apply_format-Keeps :
    (w : World) (value : NegotiatedAudioFormat) (s : ClientNodeSession)
    → IsOwner s
    → Keeps (apply_format w value s)
unfolding apply_format
apply_format-Keeps w value s h =
    let now = record s { format = some value } in
    let h' : IsOwner now = IsSound-more (λ e. refl) (λ e. e) (λ e. e) h in
    continue-Keeps (replace_format value s.format now) _
      (replace_format-Keeps w value s.format now h') (λ _ s' _ k. bind_output-Keeps w s' k)

replacement-Keeps {κ} :
    {B : Type κ} (w : World) (value : BufferSetDescriptor) (f : Option NegotiatedAudioFormat)
    (i : Option PortIoDescriptor) (next : Bool → Step B) (s : ClientNodeSession)
    → IsOwner s
    → ((b : Bool) (s' : ClientNodeSession) → IsOwner s' → Keeps (next b s'))
    → Keeps (continue (replacement_pending w value f i s) next)
replacement-Keeps w value none i next s h then_next = then_next false s h
replacement-Keeps w value (some f) none next s h then_next = then_next false s h
replacement-Keeps w value (some f) (some i) next s h then_next =
    assoc-Keeps (output_candidate w f value i s) (λ c. give (not (is_some c))) next
      (candidate-Keeps w f value i (λ c s. next (not (is_some c)) s) s h (then_next true s h)
        (λ o n c. then_next false (record s { next_generation = n }) h))

replace_buffers-Keeps :
    (w : World) (value : BufferSetDescriptor) (s : ClientNodeSession)
    → IsOwner s
    → Keeps (replace_buffers w value s)
unfolding replace_buffers
replace_buffers-Keeps w value s h =
    replacement-Keeps w value s.format s.io_descriptor _ s h
      (λ pending s' h'. stop-Keeps _ s' h' (λ t state halted k. IsSound-no_output k halted.idle))

install_buffers-Keeps :
    (w : World) (value : BufferSetDescriptor) (s : ClientNodeSession)
    → IsOwner s
    → Keeps (install_buffers w value s)
unfolding install_buffers
install_buffers-Keeps w value s h =
    bind_output-Keeps w (record s { buffer_descriptor = some value })
      (IsSound-more (λ e. e) (λ e. refl) (λ e. e) h)

apply_buffers_over-Keeps :
    (w : World) (value : BufferSetDescriptor) (old : Option BufferSetDescriptor)
    (s : ClientNodeSession)
    → IsOwner s
    → Keeps (apply_buffers_over w value old s)
apply_buffers_over-Keeps w value none s h = install_buffers-Keeps w value s h
apply_buffers_over-Keeps w value (some current) s h =
    if-Keeps (same_buffer_set current value) _ _ s (install_buffers-Keeps w value s h)
      (replace_buffers-Keeps w value s h)

apply_io_with-Keeps :
    (w : World) (value : PortIoDescriptor) (f : Option NegotiatedAudioFormat)
    (b : Option BufferSetDescriptor) (s : ClientNodeSession)
    → s.format ≡ f
    → s.buffer_descriptor ≡ b
    → IsOwner s
    → Keeps (apply_io_with w value f b s)
apply_io_with-Keeps w value none b s e g h = IsSound-more (λ e. e) (λ e. e) (λ e. refl) h
apply_io_with-Keeps w value (some f) none s e g h = IsSound-more (λ e. e) (λ e. e) (λ e. refl) h
apply_io_with-Keeps w value (some f) (some b) s e g h =
    candidate-Keeps w f b value _ s h
      (stop-Keeps _ s h (λ t state halted h'. IsSound-no_output h' halted.idle))
      (λ o n c.
        stop-Keeps _ (record s { next_generation = n }) h
          (λ t state halted h'.
            rw (e, g)
              (IsSound-output o h' halted.idle c.within halted.mapping c.from_transport
                c.from_peers)))

apply_peer-Keeps :
    (w : World) (value : PeerActivationDescriptor) (s : ClientNodeSession)
    → IsOwner s
    → Keeps (apply_peer w value s)
unfolding apply_peer install_peer
apply_peer-Keeps w value s h =
    if-Keeps (too_many s value) (fail_with (failure too_many_peers)) (install_peer w value) s h (
      bind_peer-Keeps w value.node
        (record s { pending_peers = insert_node (λ d. d.node) value s.pending_peers }) h)

retry_peers-Keeps :
    (w : World) (pending : Bool) (nodes : List ℕ) (s : ClientNodeSession)
    → IsOwner s
    → Keeps (retry_peers w pending nodes s)
unfolding retry_peers
retry_peers-Keeps w pending [] s h = h
retry_peers-Keeps w pending (node ∷ nodes) s h =
    continue-Keeps (bind_peer w node s) _ (bind_peer-Keeps w node s h)
      (λ outcome s' _ h'. retry_peers-Keeps w _ nodes s' h')

retry_pending-Keeps : (w : World) (s : ClientNodeSession) → IsOwner s → Keeps (retry_pending w s)
unfolding retry_pending
retry_pending-Keeps w s h =
    continue-Keeps ((if is_some s.pending_transport then bind_transport w else give applied) s) _
      (if-Keeps (is_some s.pending_transport) (bind_transport w) (give applied) s
        (bind_transport-Keeps w s h) h)
      (λ first s' _ h'.
        continue-Keeps
          ((if is_some s'.buffer_descriptor && is_some s'.io_descriptor
              then bind_output w
              else give applied)
            s')
          _
          (if-Keeps (is_some s'.buffer_descriptor && is_some s'.io_descriptor) (bind_output w)
            (give applied) s' (bind_output-Keeps w s' h') h')
          (λ second s'' _ h''.
            continue-Keeps
              (retry_peers w (is_pending first || is_pending second)
                (map (λ d. d.node) s''.pending_peers) s'')
              _
              (retry_peers-Keeps w (is_pending first || is_pending second)
                (map (λ d. d.node) s''.pending_peers) s'' h'')
              (λ pending s3 _ h3. h3)))

dispatch-Keeps :
    (w : World) (command : SessionCommand) (s : ClientNodeSession)
    → IsOwner s
    → Keeps (dispatch w command s)
unfolding dispatch apply_io apply_buffers
dispatch-Keeps w (replace_transport value) s h =
    bind_transport-Keeps w (record s { pending_transport = some value }) h
dispatch-Keeps w (set_format value) s h = apply_format-Keeps w value s h
dispatch-Keeps w clear_format s h =
    stop-Keeps _ s h (λ t state halted h'. IsSound-no_output h' halted.idle)
dispatch-Keeps w (use_buffers value) s h = apply_buffers_over-Keeps w value s.buffer_descriptor s h
dispatch-Keeps w clear_buffers s h =
    stop-Keeps _ s h (λ t state halted h'. IsSound-no_output h' halted.idle)
dispatch-Keeps w (set_port_io value) s h =
    apply_io_with-Keeps w value s.format s.buffer_descriptor s refl refl h
dispatch-Keeps w clear_port_io s h =
    stop-Keeps _ s h (λ t state halted h'. IsSound-no_output h' halted.idle)
dispatch-Keeps w (set_peer_activation value) s h = apply_peer-Keeps w value s h
dispatch-Keeps w (remove_peer_activation node) s h =
    IsOwner-Thinned s (remove_node (λ p. p.node) node s.peers)
      (Thinned-remove (λ p. p.node) node s.peers) h
dispatch-Keeps w (memory_available l) s h =
    retry_pending-Keeps w
      (record s { available_memory = l ∷ remove_lease l.entry.key.id s.available_memory }) h
dispatch-Keeps w (remove_memory_key key) s h =
    continue-Keeps
      (remove_memory key (record s { available_memory = forget_lease key s.available_memory })) _
      (remove_memory-Keeps key (record s { available_memory = forget_lease key s.available_memory })
        h)
      (λ _ s' _ h'. h')
dispatch-Keeps w memory_disconnected s h = disconnect-IsOwner s
dispatch-Keeps w (set_active true) s h =
    continue-Keeps (ensure_running (record s { active_requested = true })) _
      (ensure_running-Keeps (record s { active_requested = true }) h) (λ _ s' _ h'. h')
dispatch-Keeps w (set_active false) s h =
    stop-Keeps _ (record s { active_requested = false }) h (λ t state halted h'. h')
dispatch-Keeps w (set_node_command start) s h =
    continue-Keeps (ensure_running (record s { command = start })) _
      (ensure_running-Keeps (record s { command = start }) h) (λ _ s' _ h'. h')
dispatch-Keeps w (set_node_command pause) s h =
    stop-Keeps _ (record s { command = pause }) h (λ t state halted h'. h')
dispatch-Keeps w (set_node_command suspend) s h =
    stop-Keeps _ (record s { command = suspend }) h
      (λ t state halted h'. IsSound-no_output h' halted.idle)
dispatch-Keeps w disconnect_session s h = disconnect-IsOwner s

perform-Keeps :
    (w : World) (command : SessionCommand) (s : ClientNodeSession)
    → IsOwner s
    → Keeps (perform w command s)
unfolding perform
perform-Keeps w command s h =
    continue-Keeps (dispatch w command s) _ (dispatch-Keeps w command s h) (λ outcome s' _ h'.
      continue-Keeps (settle (refresh_state s')) _
        (settle-Keeps (refresh_state s') (refresh_state-IsOwner s' h')) (λ _ s'' _ h''. h''))

apply_in-Keeps :
    (state : SessionState) (w : World) (command : SessionCommand) (s : ClientNodeSession)
    → IsOwner s
    → Keeps (apply_in state w command s)
apply_in-Keeps disconnected w command s h = h
apply_in-Keeps cycle_claimed w command s h = h
apply_in-Keeps configuring w command s h = perform-Keeps w command s h
apply_in-Keeps ready w command s h = perform-Keeps w command s h
apply_in-Keeps running w command s h = perform-Keeps w command s h
apply_in-Keeps stopped w command s h = perform-Keeps w command s h
apply_in-Keeps failed w command s h = perform-Keeps w command s h

-- Whatever a command does, and whether it succeeds or not, it keeps the session's invariant: a
-- session that runs has a transport, a format and an output, an output has a format, buffers and IO
-- behind it, and no two mappings that the session holds overlap.
pub apply-IsOwner :
    (w : World) (command : SessionCommand) (s : ClientNodeSession)
    → IsOwner s
    → IsOwner (apply w command s).0
unfolding apply
apply-IsOwner w command s h = apply_in-Keeps s.state w command s h
