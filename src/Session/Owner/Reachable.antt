-- ===== src/Session/Owner/Reachable.antt =====
-- The sessions that commands, wakes and the other participants can lead to.
use pipewire_native_rs.Prelude.{
  ℕ, ◌≡◌, refl, subst, true, ◌&&◌, Option, none, some, List, [], ◌∷◌, ◌++◌, map, All, All-append,
  arith,
}
use pipewire_native_rs.Session.Activation.{Activation}
use pipewire_native_rs.Session.Memory.{MemoryInterval}
use pipewire_native_rs.Session.Peer.{PeerActivation}
use pipewire_native_rs.Session.Owner.{
  running, TransportGeneration, ClientNodeSession, SessionCommand, new_session,
}
use pipewire_native_rs.Session.Owner.Bind.{World}
use pipewire_native_rs.Session.Owner.Bind.Apart.{AreApart, Apart}
use pipewire_native_rs.Session.Owner.NodeMap.Sorted.{Pairwise}
use pipewire_native_rs.Session.Owner.Effect.{is_some, is_ready}
use pipewire_native_rs.Session.Owner.Apply.{apply}
use pipewire_native_rs.Session.Owner.Install.{transport_of, output_of, peer_intervals}
use pipewire_native_rs.Session.Owner.Wake.{Surroundings, on_wake_with_finish}
use pipewire_native_rs.Session.Owner.Invariant.{
  IsOwner, slot, SlotsApart, new_session-IsOwner, IsOwner-transport,
}
use pipewire_native_rs.Session.Owner.Invariant.Bindings.{slots-intervals}
use pipewire_native_rs.Session.Owner.Invariant.Commands.{apply-IsOwner}
use pipewire_native_rs.Session.Owner.Invariant.Wakes.{woken-IsOwner}

-- What others do to the transport's shared record between two operations.
abbrev touched_transport :
    (Activation → Activation) → Option TransportGeneration → Option TransportGeneration
touched_transport f none = none
touched_transport f (some t) = some (record t { record_now = f t.record_now })

abbrev pub touched_by : (Activation → Activation) → ClientNodeSession → ClientNodeSession
touched_by f s = record s { transport = touched_transport f s.transport }

-- The operations in any order, succeeding or not.
pub data Reachable : ClientNodeSession → Type 0 where
  created : Reachable new_session
  commanded :
      {s : ClientNodeSession} (w : World) (command : SessionCommand)
      → Reachable s
      → Reachable (apply w command s).0
  woken :
      {s : ClientNodeSession} (x : Surroundings) (generation awake_ns : ℕ)
      → Reachable s
      → Reachable (on_wake_with_finish x generation awake_ns s).0
  touched :
      {s : ClientNodeSession} (f : Activation → Activation)
      → Reachable s
      → Reachable (touched_by f s)

touched-mapping :
    (f : Activation → Activation) (t : Option TransportGeneration)
    → (transport_of (touched_transport f t) ≡ transport_of t)
      × (is_some (touched_transport f t) ≡ is_some t)
touched-mapping f none = (refl, refl)
touched-mapping f (some t) = (refl, refl)

Reachable-IsOwner : {s : ClientNodeSession} → Reachable s → IsOwner s
Reachable-IsOwner created = new_session-IsOwner
Reachable-IsOwner (commanded {s} w command r) = apply-IsOwner w command s (Reachable-IsOwner r)
Reachable-IsOwner (woken {s} x generation awake_ns r) =
    woken-IsOwner x generation awake_ns s (Reachable-IsOwner r)
Reachable-IsOwner (touched {s} f r) =
    let h = Reachable-IsOwner r in
    let (mapping, has) = touched-mapping f s.transport in
    IsOwner-transport s (touched_transport f s.transport) s.state mapping has (λ e. e) h.unclaimed h

-- All mappings that a session holds.
abbrev pub held : ClientNodeSession → List MemoryInterval
held s = transport_of s.transport ++ (output_of s.output ++ peer_intervals s.peers)

Pairwise-append :
    (xs ys : List MemoryInterval)
    → Pairwise AreApart xs
    → Pairwise AreApart ys
    → Apart xs ys
    → Pairwise AreApart (xs ++ ys)
Pairwise-append [] ys p q a = q
Pairwise-append (x ∷ xs) ys (p, ps) q (a, as_apart) =
    (All-append (AreApart x) xs ys p a, Pairwise-append xs ys ps q as_apart)

Apart-append : (xs ys zs : List MemoryInterval) → Apart xs ys → Apart xs zs → Apart xs (ys ++ zs)
Apart-append [] ys zs a b = tt
Apart-append (x ∷ xs) ys zs (a, rest_a) (b, rest_b) =
    (All-append (AreApart x) ys zs a b, Apart-append xs ys zs rest_a rest_b)

slots-apart :
    (p : PeerActivation) (ps : List PeerActivation)
    → All (SlotsApart (slot p)) (map slot ps)
    → All (AreApart p.interval) (peer_intervals ps)
slots-apart p [] h = tt
slots-apart p (q ∷ qs) (a, h) = (a, slots-apart p qs h)

within-peers :
    (ps : List PeerActivation)
    → Pairwise SlotsApart (map slot ps)
    → Pairwise AreApart (peer_intervals ps)
within-peers [] h = tt
within-peers (p ∷ ps) (a, h) = (slots-apart p ps a, within-peers ps h)

within-transport : (t : Option TransportGeneration) → Pairwise AreApart (transport_of t)
within-transport none = tt
within-transport (some t) = (tt, tt)

-- Whatever commands, wakes and foreign writes have led to a session: no two of the mappings that it
-- holds overlap, it runs only with a transport, a format and an output, and it has an output only
-- with a format, buffers and IO.
pub Reachable-sound :
    {s : ClientNodeSession}
    → Reachable s
    → Pairwise AreApart (held s)
      × (s.state ≡ running → is_ready s ≡ true)
      × (is_some s.output ≡ true
          → (is_some s.format && (is_some s.buffer_descriptor && is_some s.io_descriptor)) ≡ true)
unfolding is_ready
Reachable-sound {s} r =
    let h = Reachable-IsOwner r in
    let peers = subst (Apart (output_of s.output)) (slots-intervals s.peers) h.output_peers in
    let others =
      subst (Apart (transport_of s.transport)) (slots-intervals s.peers) h.transport_peers in
    (
      Pairwise-append (transport_of s.transport) (output_of s.output ++ peer_intervals s.peers)
          (within-transport s.transport)
          (Pairwise-append (output_of s.output) (peer_intervals s.peers) h.within_output
            (within-peers s.peers h.within_peers) peers)
          (Apart-append (transport_of s.transport) (output_of s.output) (peer_intervals s.peers)
            h.transport_output others),
      λ e. let p = h.scheduled e in ground arith,
      λ e. let p = h.described e in ground arith,
    )
