-- ===== src/Session/Owner/Invariant/Removal.antt =====
-- The removal of memory and of peers keeps the invariant.
use pipewire_native_rs.Prelude.{inl, inr, Bool-cases, Option, none, some, List, [], ◌∷◌}
use pipewire_native_rs.Session.Memory.{MemoryInterval, MemoryKey, same_key}
use pipewire_native_rs.Session.Peer.{PeerActivation}
use pipewire_native_rs.Session.Owner.{TransportGeneration, OutputGeneration, ClientNodeSession}
use pipewire_native_rs.Session.Owner.Bind.{depends_on}
use pipewire_native_rs.Session.Owner.Bind.Apart.{Apart}
use pipewire_native_rs.Session.Owner.NodeMap.Sorted.{
  Thinned, none_left, left_out, kept, Thinned-All, Thinned-Pairwise, Thinned-map,
}
use pipewire_native_rs.Session.Owner.Apply.{
  remove_peers_of, drop_transport, drop_output, remove_memory,
}
use pipewire_native_rs.Session.Owner.Install.{output_of, transport_of}
use pipewire_native_rs.Session.Owner.Invariant.{
  IsOwner, Keeps, slot, SlotsApart, continue-Keeps, stop-Keeps, if-Keeps,
}
use pipewire_native_rs.Session.Owner.Invariant.Bindings.{IsSound-no_output}

pub drop_transport-Keeps :
    (key : MemoryKey) (t : Option TransportGeneration) (s : ClientNodeSession)
    → IsOwner s
    → Keeps (drop_transport key t s)
drop_transport-Keeps key none s h = h
drop_transport-Keeps key (some t) s h =
    if-Keeps (same_key t.activation_key key) _ _ s
      (stop-Keeps _ s h (λ t' state halted h'. record {
        scheduled = λ e. absurd (halted.idle e);
        unclaimed = h'.unclaimed;
        described = h'.described;
        sorted = h'.sorted;
        transport_output = tt;
        transport_peers = tt;
        output_peers = h'.output_peers;
        within_output = h'.within_output;
        within_peers = h'.within_peers;
      }))
      h

pub drop_output-Keeps :
    (key : MemoryKey) (o : Option OutputGeneration) (s : ClientNodeSession)
    → IsOwner s
    → Keeps (drop_output key o s)
drop_output-Keeps key none s h = h
drop_output-Keeps key (some o) s h =
    if-Keeps (depends_on o key) _ _ s
      (stop-Keeps _ s h (λ t state halted h'. IsSound-no_output h' halted.idle)) h

pub Thinned-peers :
    (key : MemoryKey) (peers : List PeerActivation) → Thinned peers (remove_peers_of key peers)
unfolding remove_peers_of
Thinned-peers key [] = none_left
Thinned-peers key (p ∷ peers) = elim (Bool-cases (same_key p.key key)) [
  | inl e ↦ rw e (left_out (Thinned-peers key peers))
  | inr e ↦ rw e (kept (Thinned-peers key peers))
]

pub Apart-Thinned :
    (xs : List MemoryInterval) {ys zs : List MemoryInterval}
    → Thinned ys zs
    → Apart xs ys
    → Apart xs zs
Apart-Thinned [] t h = tt
Apart-Thinned (x ∷ xs) t (p, h) = (Thinned-All _ t p, Apart-Thinned xs t h)

-- Fewer peers.
pub IsOwner-Thinned :
    (s : ClientNodeSession) (peers : List PeerActivation)
    → Thinned s.peers peers
    → IsOwner s
    → IsOwner (record s { peers = peers })
IsOwner-Thinned s peers t h =
    let slots = Thinned-map slot t in
    let mappings = Thinned-map (λ a. a.1) slots in
    record {
      scheduled = h.scheduled;
      unclaimed = h.unclaimed;
      described = h.described;
      sorted = Thinned-Pairwise _ slots h.sorted;
      transport_output = h.transport_output;
      transport_peers = Apart-Thinned (transport_of s.transport) mappings h.transport_peers;
      output_peers = Apart-Thinned (output_of s.output) mappings h.output_peers;
      within_output = h.within_output;
      within_peers = Thinned-Pairwise SlotsApart slots h.within_peers;
    }

pub remove_memory-Keeps :
    (key : MemoryKey) (s : ClientNodeSession) → IsOwner s → Keeps (remove_memory key s)
unfolding remove_memory
remove_memory-Keeps key s h =
    continue-Keeps (drop_transport key s.transport s) _ (drop_transport-Keeps key s.transport s h)
      (λ _ s' _ h'.
        continue-Keeps (drop_output key s'.output s') _ (drop_output-Keeps key s'.output s' h')
          (λ _ s'' _ h''.
            IsOwner-Thinned s'' (remove_peers_of key s''.peers) (Thinned-peers key s''.peers) h''))
