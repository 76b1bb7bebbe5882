-- ===== src/Session/Owner/Invariant/Bindings.antt =====
-- Each binding keeps the invariant.
use pipewire_native_rs.Prelude.{
  ℕ, ◌≡◌, ◌≢◌, refl, sym, ap, subst, inl, inr, Bool, true, Bool-cases, Option, none, some, List, [],
  ◌∷◌, ◌++◌, map, ok, arith,
}
use pipewire_native_rs.Session.Memory.{MemoryInterval}
use pipewire_native_rs.Session.Peer.{PeerActivation}
use pipewire_native_rs.Session.Owner.{
  SessionState, running, TransportDescriptor, NegotiatedAudioFormat, BufferSetDescriptor,
  PortIoDescriptor, TransportGeneration, OutputGeneration, ClientNodeSession,
}
use pipewire_native_rs.Session.Owner.Bind.{
  World, meets_any, output_intervals, resolve_lease, unresolved, bind_transport_generation,
  bind_output_generation,
}
use pipewire_native_rs.Session.Owner.Bind.Apart.{
  AreApart, Apart, Apart-comm, Apart-left, Apart-right, meets_any-apart,
  bind_output_generation-Pairwise,
}
use pipewire_native_rs.Session.Owner.NodeMap.Sorted.{Pairwise}
use pipewire_native_rs.Session.Owner.Effect.{Step, continue, is_some, allocate_generation}
use pipewire_native_rs.Session.Owner.Install.{
  transport_of, output_of, peer_intervals, ensure_disjoint, take_over, bind_pending, bind_transport,
  output_candidate, any_unresolved, install_output, bind_output_of, bind_output, buffer_memory_ids,
}
use pipewire_native_rs.Session.Owner.Invariant.{
  IsOwner, IsSound, Keeps, Slot, slot, slot_intervals, lift-Keeps, allocate-Keeps, stop-Keeps,
  assoc-Keeps, if-Keeps, if-continue-Keeps,
}

pub ensure_disjoint-Apart :
    (xs ys : List MemoryInterval) → ensure_disjoint xs ys ≡ ok tt → Apart xs ys
unfolding ensure_disjoint
ensure_disjoint-Apart [] ys e = tt
ensure_disjoint-Apart (x ∷ xs) ys e = elim (Bool-cases (meets_any x ys)) [
  | inl f ↦ absurd (ground arith)
  | inr f ↦ (meets_any-apart x ys f, ensure_disjoint-Apart xs ys (ground arith))
]

pub slots-intervals : (ps : List PeerActivation) → slot_intervals (map slot ps) ≡ peer_intervals ps
slots-intervals [] = refl
slots-intervals (p ∷ ps) = ap (λ t. p.interval ∷ t) (slots-intervals ps)

take_over-interval :
    (t : Option TransportGeneration) (c : TransportGeneration)
    → (take_over t c).interval ≡ c.interval
unfolding take_over
take_over-interval none c = refl
take_over-interval (some t) c = ground arith

-- A new transport, apart from everything else.
IsSound-transport :
    {T : List MemoryInterval} {t f b i : Bool} {o : Option OutputGeneration} {slots : List Slot}
    {state : SessionState} (x : MemoryInterval)
    → IsSound T t f b i o slots state
    → state ≢ running
    → Apart (x ∷ []) (output_of o ++ slot_intervals slots)
    → IsSound (x ∷ []) true f b i o slots state
IsSound-transport {o = o} {slots} x h idle apart = record {
  scheduled = λ e. absurd (idle e);
  unclaimed = h.unclaimed;
  described = h.described;
  sorted = h.sorted;
  transport_output = Apart-left (x ∷ []) (output_of o) (slot_intervals slots) apart;
  transport_peers = Apart-right (x ∷ []) (output_of o) (slot_intervals slots) apart;
  output_peers = h.output_peers;
  within_output = h.within_output;
  within_peers = h.within_peers;
}

bind_pending-Keeps :
    (w : World) (pending : Option TransportDescriptor) (s : ClientNodeSession)
    → IsOwner s
    → Keeps (bind_pending w pending s)
bind_pending-Keeps w none s h = h
bind_pending-Keeps w (some d) s h =
    lift-Keeps (unresolved (resolve_lease s.available_memory d.activation.memory)) _ s h
      (λ missing _. if-Keeps missing _ _ s h (
        allocate-Keeps _ (record s { pending_transport = none }) h
          (λ n.
            lift-Keeps (bind_transport_generation w s.next_generation d s.available_memory) _ _ h
              (λ c _.
                lift-Keeps
                  (ensure_disjoint (c.interval ∷ []) (output_of s.output ++ peer_intervals s.peers))
                  _ _ h
                  (λ _ e. stop-Keeps _ _ h (λ t state halted h'.
                    let free =
                      ensure_disjoint-Apart (c.interval ∷ [])
                        (output_of s.output ++ peer_intervals s.peers) e in
                    let all =
                      subst (λ k. Apart (c.interval ∷ []) (output_of s.output ++ k))
                        (sym (slots-intervals s.peers)) free in
                    subst
                      (λ k.
                        IsSound (k ∷ []) true (is_some s.format) (is_some s.buffer_descriptor)
                          (is_some s.io_descriptor) s.output (map slot s.peers) state)
                      (sym (take_over-interval t c))
                      (IsSound-transport c.interval h' halted.idle all)))))))

pub bind_transport-Keeps :
    (w : World) (s : ClientNodeSession) → IsOwner s → Keeps (bind_transport w s)
unfolding bind_transport
bind_transport-Keeps w s h = bind_pending-Keeps w s.pending_transport s h

-- An output that may be installed: its mappings are apart from each other and from all others.
pub record IsCandidate (o : OutputGeneration) (s : ClientNodeSession) : Type 0 where
  pub within : Pairwise AreApart (output_intervals o)
  pub from_transport : Apart (transport_of s.transport) (output_intervals o)
  pub from_peers : Apart (output_intervals o) (slot_intervals (map slot s.peers))

pub candidate-Keeps {κ} :
    {B : Type κ} (w : World) (format : NegotiatedAudioFormat) (set : BufferSetDescriptor)
    (io : PortIoDescriptor) (next : Option OutputGeneration → Step B) (s : ClientNodeSession)
    → IsOwner s
    → Keeps (next none s)
    → ((o : OutputGeneration) (n : ℕ)
        → IsCandidate o s
        → Keeps (next (some o) (record s { next_generation = n })))
    → Keeps (continue (output_candidate w format set io s) next)
unfolding output_candidate
candidate-Keeps w format set io next s h absent found =
    let leases = s.available_memory in
    let needed = any_unresolved leases (buffer_memory_ids set.buffers ++ (io.region.memory ∷ [])) in
    let taken = transport_of s.transport ++ peer_intervals s.peers in
    assoc-Keeps (s, needed) _ next
      (lift-Keeps needed _ s h (λ missing _. if-continue-Keeps missing _ _ s next absent (
        assoc-Keeps (allocate_generation s) _ next (
          allocate-Keeps _ s h (λ n.
            assoc-Keeps
              (
                record s { next_generation = n },
                bind_output_generation w s.next_generation format set io leases,
              )
              _ next
              (lift-Keeps (bind_output_generation w s.next_generation format set io leases) _ _ h
                (λ o bound.
                  assoc-Keeps
                    (record s { next_generation = n }, ensure_disjoint (output_intervals o) taken) _
                    next
                    (lift-Keeps (ensure_disjoint (output_intervals o) taken) _ _ h (λ _ e.
                      let free = ensure_disjoint-Apart (output_intervals o) taken e in
                      let peers =
                        Apart-right (output_intervals o) (transport_of s.transport)
                          (peer_intervals s.peers) free in
                      found o n (record {
                        within =
                            bind_output_generation-Pairwise w s.next_generation format set io leases
                              bound;
                        from_transport =
                            Apart-comm (output_intervals o) (transport_of s.transport) (
                              Apart-left (output_intervals o) (transport_of s.transport)
                                (peer_intervals s.peers) free);
                        from_peers =
                            subst (Apart (output_intervals o)) (sym (slots-intervals s.peers))
                              peers;
                      }))))))))))

-- An output on a session that has been stopped.
pub IsSound-output :
    {T T' : List MemoryInterval} {t f b i : Bool} {o : Option OutputGeneration} {slots : List Slot}
    {state : SessionState} (x : OutputGeneration)
    → IsSound T t f b i o slots state
    → state ≢ running
    → Pairwise AreApart (output_intervals x)
    → T ≡ T'
    → Apart T' (output_intervals x)
    → Apart (output_intervals x) (slot_intervals slots)
    → IsSound T t true true true (some x) slots state
IsSound-output x h idle within same from_transport from_peers = record {
  scheduled = λ e. absurd (idle e);
  unclaimed = h.unclaimed;
  described = λ e. (refl, refl, refl);
  sorted = h.sorted;
  transport_output = subst (λ k. Apart k (output_intervals x)) (sym same) from_transport;
  transport_peers = h.transport_peers;
  output_peers = from_peers;
  within_output = within;
  within_peers = h.within_peers;
}

-- No output, whatever the configuration.
pub IsSound-no_output :
    {T : List MemoryInterval} {t f b i f' b' i' : Bool} {o : Option OutputGeneration}
    {slots : List Slot} {state : SessionState}
    → IsSound T t f b i o slots state
    → state ≢ running
    → IsSound T t f' b' i' none slots state
IsSound-no_output {T} h idle = record {
  scheduled = λ e. absurd (idle e);
  unclaimed = h.unclaimed;
  described = λ e. absurd (cc);
  sorted = h.sorted;
  transport_output = Apart-comm [] T tt;
  transport_peers = h.transport_peers;
  output_peers = tt;
  within_output = tt;
  within_peers = h.within_peers;
}

bind_output_of-Keeps :
    (w : World) (format : Option NegotiatedAudioFormat) (set : Option BufferSetDescriptor)
    (io : Option PortIoDescriptor) (s : ClientNodeSession)
    → s.format ≡ format
    → s.buffer_descriptor ≡ set
    → s.io_descriptor ≡ io
    → IsOwner s
    → Keeps (bind_output_of w format set io s)
bind_output_of-Keeps w none set io s f b i h = h
bind_output_of-Keeps w (some format) none io s f b i h = h
bind_output_of-Keeps w (some format) (some set) none s f b i h = h
bind_output_of-Keeps w (some format) (some set) (some io) s f b i h =
    candidate-Keeps w format set io install_output s h h (λ o n c.
      stop-Keeps _ (record s { next_generation = n }) h
        (λ t state halted h'.
          rw (f, b, i)
            (IsSound-output o h' halted.idle c.within halted.mapping c.from_transport
              c.from_peers)))

pub bind_output-Keeps : (w : World) (s : ClientNodeSession) → IsOwner s → Keeps (bind_output w s)
unfolding bind_output
bind_output-Keeps w s h =
    bind_output_of-Keeps w s.format s.buffer_descriptor s.io_descriptor s refl refl refl h
