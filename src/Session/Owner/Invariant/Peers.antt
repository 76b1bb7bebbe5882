-- ===== src/Session/Owner/Invariant/Peers.antt =====
-- The binding of a peer keeps the invariant.
use pipewire_native_rs.Prelude.{
  ℕ, ◌≡◌, refl, sym, ap, subst, ◌∙◌, inl, inr, Bool, Bool-cases, Option, none, some, List, [], ◌∷◌,
  ◌++◌, map, ◌==◌, ok, All, arith,
}
use pipewire_native_rs.Session.Memory.{MemoryInterval, MemoryLease}
use pipewire_native_rs.Session.Peer.{PeerActivation}
use pipewire_native_rs.Session.Owner.{
  SessionState, PeerActivationDescriptor, OutputGeneration, ClientNodeSession,
}
use pipewire_native_rs.Session.Owner.Bind.{World, resolve_lease, unresolved, bind_peer_activation}
use pipewire_native_rs.Session.Owner.Bind.Apart.{
  AreApart, AreApart-comm, Apart, Apart-comm, All-left, All-right,
}
use pipewire_native_rs.Session.Owner.NodeMap.{find_node, insert_node, remove_node}
use pipewire_native_rs.Session.Owner.NodeMap.Sorted.{
  All-insert, IsSorted-insert, Pairwise-insert, map-insert, map-remove,
}
use pipewire_native_rs.Session.Owner.Effect.{is_some}
use pipewire_native_rs.Session.Owner.Install.{
  transport_of, output_of, intervals_except, ensure_disjoint, bind_waiting, bind_peer,
}
use pipewire_native_rs.Session.Owner.Invariant.{
  IsOwner, IsSound, Keeps, Slot, slot, slot_intervals, SlotsApart, lift-Keeps, allocate-Keeps,
  if-Keeps,
}
use pipewire_native_rs.Session.Owner.Invariant.Bindings.{ensure_disjoint-Apart, slots-intervals}

All-of_map {ℓ κ μ} :
    {A : Type ℓ} {B : Type κ} (P : B → Type μ) (f : A → B) (xs : List A)
    → All P (map f xs)
    → All (λ a. P (f a)) xs
All-of_map P f [] h = tt
All-of_map P f (x ∷ xs) (p, h) = (p, All-of_map P f xs h)

All-map {ℓ κ μ} :
    {A : Type ℓ} {B : Type κ} (P : B → Type μ) (f : A → B) (xs : List A)
    → All (λ a. P (f a)) xs
    → All P (map f xs)
All-map P f [] h = tt
All-map P f (x ∷ xs) (p, h) = (p, All-map P f xs h)

Apart-insert :
    (ys : List MemoryInterval) (x : Slot) (slots : List Slot)
    → All (AreApart x.1) ys
    → Apart ys (slot_intervals slots)
    → Apart ys (slot_intervals (insert_node (λ a. a.0) x slots))
Apart-insert ys x slots p h =
    let swapped = Apart-comm ys (slot_intervals slots) h in
    let before = All-of_map (λ a. All (AreApart a) ys) (λ a. a.1) slots swapped in
    let after = All-insert (λ a. a.0) (λ a. All (AreApart a.1) ys) x slots p before in
    Apart-comm (slot_intervals (insert_node (λ a. a.0) x slots)) ys
      (All-map (λ a. All (AreApart a) ys) (λ a. a.1) (insert_node (λ a. a.0) x slots) after)

-- A peer in place of the one with its node.
IsSound-peer :
    {T : List MemoryInterval} {t f b i : Bool} {o : Option OutputGeneration} {slots : List Slot}
    {state : SessionState} (x : Slot)
    → IsSound T t f b i o slots state
    → All (AreApart x.1) T
    → All (AreApart x.1) (output_of o)
    → All (AreApart x.1) (slot_intervals (remove_node (λ a. a.0) x.0 slots))
    → IsSound T t f b i o (insert_node (λ a. a.0) x slots) state
IsSound-peer {T} {o = o} {slots} x h from_transport from_output from_peers = record {
  scheduled = h.scheduled;
  unclaimed = h.unclaimed;
  described = h.described;
  sorted = IsSorted-insert (λ a. a.0) x slots h.sorted;
  transport_output = h.transport_output;
  transport_peers = Apart-insert T x slots from_transport h.transport_peers;
  output_peers = Apart-insert (output_of o) x slots from_output h.output_peers;
  within_output = h.within_output;
  within_peers =
      Pairwise-insert (λ a. a.0) SlotsApart x slots (λ a b e. AreApart-comm a.1 b.1 e) h.sorted
        (All-of_map (AreApart x.1) (λ a. a.1) (remove_node (λ a. a.0) x.0 slots) from_peers)
        h.within_peers;
}

others_lem :
    (node : ℕ) (peers : List PeerActivation)
    → intervals_except node peers ≡ slot_intervals (remove_node (λ a. a.0) node (map slot peers))
unfolding intervals_except
others_lem node peers =
    sym (slots-intervals (remove_node (λ p. p.node) node peers))
    ∙ ap slot_intervals (map-remove slot (λ a. a.0) node peers)

find_node-node :
    (n : ℕ) (ds : List PeerActivationDescriptor) {d : PeerActivationDescriptor}
    → find_node (λ d. d.node) n ds ≡ some d
    → d.node ≡ n
unfolding find_node
find_node-node n [] e = absurd (cc)
find_node-node n (d ∷ ds) {d = found} e = elim (Bool-cases (d.node == n)) [
  | inl f ↦ ground arith
  | inr f ↦ find_node-node n ds {d = found} (ground arith)
]

bind_peer_activation-node :
    (w : World) (generation : ℕ) (d : PeerActivationDescriptor) (leases : List MemoryLease)
    {c : PeerActivation}
    → bind_peer_activation w generation d leases ≡ ok c
    → c.node ≡ d.node
unfolding bind_peer_activation
bind_peer_activation-node w generation d leases e = ground arith

bind_waiting-Keeps :
    (w : World) (node : ℕ) (pending : Option PeerActivationDescriptor) (s : ClientNodeSession)
    → find_node (λ d. d.node) node s.pending_peers ≡ pending
    → IsOwner s
    → Keeps (bind_waiting w node pending s)
bind_waiting-Keeps w node none s f h = h
bind_waiting-Keeps w node (some d) s f h =
    let others = intervals_except node s.peers in
    let taken = transport_of s.transport ++ (output_of s.output ++ others) in
    lift-Keeps (unresolved (resolve_lease s.available_memory d.activation.memory)) _ s h
      (λ missing _. if-Keeps missing _ _ s h (
        allocate-Keeps _
          (record s { pending_peers = remove_node (λ d. d.node) node s.pending_peers }) h
          (λ n.
            lift-Keeps (bind_peer_activation w s.next_generation d s.available_memory) _ _ h
              (λ c bound. lift-Keeps (ensure_disjoint (c.interval ∷ []) taken) _ _ h (λ _ e.
                let free = (ensure_disjoint-Apart (c.interval ∷ []) taken e).0 in
                let rest =
                  All-right (AreApart c.interval) (transport_of s.transport)
                    (output_of s.output ++ others) free in
                let named =
                  bind_peer_activation-node w s.next_generation d s.available_memory bound
                  ∙ find_node-node node s.pending_peers f in
                let peers = All-right (AreApart c.interval) (output_of s.output) others rest in
                let same : others
                    ≡ slot_intervals (remove_node (λ a. a.0) c.node (map slot s.peers)) =
                  others_lem node s.peers
                  ∙ ap (λ k. slot_intervals (remove_node (λ a. a.0) k (map slot s.peers)))
                      (sym named) in
                subst
                  (λ k.
                    IsSound (transport_of s.transport) (is_some s.transport) (is_some s.format)
                      (is_some s.buffer_descriptor) (is_some s.io_descriptor) s.output k s.state)
                  (sym (map-insert slot (λ a. a.0) c s.peers))
                  (IsSound-peer (slot c) h
                    (All-left (AreApart c.interval) (transport_of s.transport)
                      (output_of s.output ++ others) free)
                    (All-left (AreApart c.interval) (output_of s.output) others rest)
                    (subst (All (AreApart c.interval)) same peers)))))))

pub bind_peer-Keeps :
    (w : World) (node : ℕ) (s : ClientNodeSession) → IsOwner s → Keeps (bind_peer w node s)
unfolding bind_peer
bind_peer-Keeps w node s h =
    bind_waiting-Keeps w node (find_node (λ d. d.node) node s.pending_peers) s refl h
