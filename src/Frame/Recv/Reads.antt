-- ===== src/Frame/Recv/Reads.antt =====
-- The reading part of `receive`: what one call of `recv_once` does to the receiver.
use pipewire_native_rs.Prelude.{
  ℕ, ◌+◌, ◌≤◌, ◌<◌, ◌≡◌, ◌⊎◌, inl, inr, refl, sym, ap, ◌∙◌, List, [], ◌∷◌, ◌++◌, append-nil, Result,
  ok, err, length, is_empty, arith, length-append, take_append, All-append, List-cases,
  if◌then◌else◌,
}
use native.Mathlib.Decide.{dec_lt, ℕ_discrete}
use pipewire_native_rs.Prelude.Words.{usize_max}
use pipewire_native_rs.Frame.Limits.{
  FrameError, header_len, io, would_block, interrupted, stream_position_overflow, other,
  too_many_pending_fds, payload_too_large, unexpected_fds_at_eof, truncated_frame,
}
use pipewire_native_rs.Frame.Header.{decode}
use pipewire_native_rs.Frame.Recv.{
  FdBatch, FrameReceiver, RecvState, header, payload, eof, failed, fail, pending_fds, frame,
  blocked, closed,
}
use pipewire_native_rs.Frame.Recv.Receive.{
  Delivery, Call, chunk_len, ReadStep, more, finish, at_eof, take_in, settle, read, needed,
}
use pipewire_native_rs.Frame.Recv.Batches.{
  flat, flat-append, IsOrdered, IsOrdered-mono, IsOrdered-snoc, pending_fds-flat,
}
use pipewire_native_rs.Frame.Recv.Invariant.{AreBytes, InState, IsReceiver}
use pipewire_native_rs.Frame.Recv.Assembly.{IsOpen}

-- A delivery that fits the chunk, is made of bytes, and brings no descriptors without a byte, as
-- a stream socket gives it.
abbrev pub IsDelivery : ℕ → Delivery → Type 0
IsDelivery chunk (bytes, fds) = (length bytes ≤ chunk) × AreBytes bytes × ((bytes ≡ []) → fds ≡ [])

abbrev pub IsHonest : Call → Type 0
IsHonest call = (chunk control : ℕ) (d : Delivery) → call chunk control ≡ ok d → IsDelivery chunk d

abbrev pub ReadLaw : FrameReceiver → ReadStep → Type 0
ReadLaw r (more r' (bytes, fds)) =
    IsReceiver r'
    × IsOpen r'.state
    × (r'.bytes ≡ r.bytes ++ bytes)
    × (flat r'.fd_batches ≡ flat r.fd_batches ++ fds)
    × (0 < length bytes)
    × (r'.limits ≡ r.limits)
ReadLaw r (finish r' (ok blocked)) = r' ≡ r
ReadLaw r (finish r' (ok closed)) =
    IsReceiver r' × (r'.state ≡ eof) × (r.bytes ≡ []) × (flat r.fd_batches ≡ [])
ReadLaw r (finish r' (ok (frame f))) = ⊥
ReadLaw r (finish r' (err e)) = r' ≡ fail r

no_batches : (lo hi : ℕ) (bs : List FdBatch) → IsOrdered lo hi bs → pending_fds bs ≡ 0 → bs ≡ []
no_batches lo hi [] o e = refl
no_batches lo hi (b ∷ bs) o e = absurd (omega (arith, o.2))

at_eof-cases :
    (r : FrameReceiver)
    → (r.bytes ≡ [])
        × (pending_fds r.fd_batches ≡ 0)
        × (at_eof r ≡ finish (record r { state = eof }) (ok closed))
      ⊎ ((e : FrameError) × (at_eof r ≡ finish (fail r) (err e)))
unfolding at_eof
at_eof-cases r = elim (List-cases r.bytes) [
  | inl e ↦ elim (ℕ_discrete (pending_fds r.fd_batches) 0) [
    | yes z ↦ inl (e, z, ground arith)
    | no nz ↦ inr (unexpected_fds_at_eof (pending_fds r.fd_batches), ground arith)
  ]
  | inr (x, xs, e) ↦ inr (truncated_frame (length r.bytes) (needed r.state), ground arith)
]

at_eof-ReadLaw : (r : FrameReceiver) → IsReceiver r → ReadLaw r (at_eof r)
at_eof-ReadLaw r v = elim (at_eof-cases r) [
  | inl (e, z, f) ↦
      let none_left = no_batches 0 r.stream_end r.fd_batches v.batches z in
      rw f (
        record {
          bytes = v.bytes;
          batches = v.batches;
          room = v.room;
          fds_bound = v.fds_bound;
          pending_usize = v.pending_usize;
          in_state = (e, none_left);
        },
        refl,
        e,
        ap flat none_left,
      )
  | inr (x, f) ↦ rw f refl
]

-- The receiver that has taken a delivery in.
abbrev fed : FrameReceiver → Delivery → FrameReceiver
fed r (bytes, fds) = record r {
  stream_end = r.stream_end + length bytes;
  bytes = r.bytes ++ bytes;
  fd_batches =
      if is_empty fds
      then r.fd_batches
      else r.fd_batches ++ (record { at = r.stream_end; fds = fds } ∷ []);
}

flat-fed :
    (r : FrameReceiver) (bytes fds : List ℕ)
    → flat (fed r (bytes, fds)).fd_batches ≡ flat r.fd_batches ++ fds
flat-fed r bytes [] = sym (append-nil (flat r.fd_batches))
flat-fed r bytes (f ∷ fds) =
    flat-append r.fd_batches _ ∙ ap (λ t. flat r.fd_batches ++ (f ∷ t)) (append-nil fds)

IsOrdered-fed :
    (r : FrameReceiver) (bytes fds : List ℕ)
    → IsReceiver r
    → 0 < length bytes
    → IsOrdered 0 (fed r (bytes, fds)).stream_end (fed r (bytes, fds)).fd_batches
IsOrdered-fed r bytes [] v n =
    IsOrdered-mono 0 0 _ _ r.fd_batches (omega arith) (omega arith) v.batches
IsOrdered-fed r bytes (f ∷ fds) v n =
    IsOrdered-snoc 0 r.stream_end r.fd_batches _ _ v.batches (omega arith) refl (omega arith)
      (omega arith)

state-fed :
    (r : FrameReceiver) (bytes fds : List ℕ) (s : RecvState)
    → IsOpen s
    → InState r s
    → InState (fed r (bytes, fds)) s
state-fed r bytes fds header o c = omega (arith, length-append r.bytes bytes)
state-fed r bytes fds (payload h a b) o (p, q, l, u, w, x, y) = (
  omega (arith, length-append r.bytes bytes),
  q ∙ ap decode (sym (take_append header_len r.bytes bytes l)),
  omega (arith, length-append r.bytes bytes),
  u,
  w,
  x,
  y,
)
state-fed r bytes fds eof o c = absurd o
state-fed r bytes fds failed o c = absurd o

fed-ReadLaw :
    (r : FrameReceiver) (bytes fds : List ℕ)
    → IsReceiver r
    → IsOpen r.state
    → length r.bytes < header_len + r.limits.max_payload
    → IsDelivery (chunk_len r) (bytes, fds)
    → 0 < length bytes
    → pending_fds r.fd_batches + length fds ≤ r.limits.max_pending_fds
    → ReadLaw r (more (fed r (bytes, fds)) (bytes, fds))
fed-ReadLaw r bytes fds v o l d n f = (
  record {
    bytes = All-append _ r.bytes bytes v.bytes d.1;
    batches = IsOrdered-fed r bytes fds v n;
    room = omega (arith, d.0, length-append r.bytes bytes);
    fds_bound = omega (
      arith,
      pending_fds-flat (fed r (bytes, fds)).fd_batches,
      ap length (flat-fed r bytes fds),
      length-append (flat r.fd_batches) fds,
      pending_fds-flat r.fd_batches,
    );
    pending_usize = v.pending_usize;
    in_state = state-fed r bytes fds r.state o v.in_state;
  },
  o,
  refl,
  flat-fed r bytes fds,
  n,
  refl,
)

take_in-cases :
    (r : FrameReceiver) (bytes fds : List ℕ)
    → r.limits.max_pending_fds < usize_max
    → (pending_fds r.fd_batches + length fds ≤ r.limits.max_pending_fds)
        × (take_in r (bytes, fds) ≡ more (fed r (bytes, fds)) (bytes, fds))
      ⊎ ((e : FrameError) × (take_in r (bytes, fds) ≡ finish (fail r) (err e)))
unfolding take_in
take_in-cases r bytes fds small =
    elim (dec_lt r.limits.max_pending_fds (pending_fds r.fd_batches + length fds)) [
      | yes many ↦ inr (
        too_many_pending_fds (pending_fds r.fd_batches + length fds) r.limits.max_pending_fds,
        ground arith,
      )
      | no few ↦ elim (dec_lt usize_max (r.stream_end + length bytes)) [
        | yes over ↦ inr (io stream_position_overflow, ground arith)
        | no fits ↦ inl (omega arith, ground arith)
      ]
    ]

settle-ReadLaw :
    (r : FrameReceiver) (answer : Result FrameError Delivery)
    → IsReceiver r
    → IsOpen r.state
    → length r.bytes < header_len + r.limits.max_payload
    → ((d : Delivery) → answer ≡ ok d → IsDelivery (chunk_len r) d)
    → ReadLaw r (settle r answer)
unfolding settle
settle-ReadLaw r (ok ([], fds)) v o l h = at_eof-ReadLaw r v
settle-ReadLaw r (ok (b ∷ bytes, fds)) v o l h =
    elim (take_in-cases r (b ∷ bytes) fds v.pending_usize) [
      | inl (f, e) ↦ rw e (fed-ReadLaw r (b ∷ bytes) fds v o l (h _ refl) (omega arith) f)
      | inr (x, e) ↦ rw e refl
    ]
settle-ReadLaw r (err (io would_block)) v o l h = refl
settle-ReadLaw r (err (io interrupted)) v o l h = refl
settle-ReadLaw r (err (io stream_position_overflow)) v o l h = refl
settle-ReadLaw r (err (io (other n))) v o l h = refl
settle-ReadLaw r (err (payload_too_large a b)) v o l h = refl
settle-ReadLaw r (err e) v o l h = refl

pub read-ReadLaw :
    (r : FrameReceiver) (call : Call)
    → IsReceiver r
    → IsOpen r.state
    → length r.bytes < header_len + r.limits.max_payload
    → IsHonest call
    → ReadLaw r (read r call)
unfolding read
read-ReadLaw r call v o l h =
    settle-ReadLaw r (call (chunk_len r) r.limits.recv_control_fds) v o l
      (λ d e. h (chunk_len r) r.limits.recv_control_fds d e)
