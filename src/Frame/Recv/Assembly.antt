-- ===== src/Frame/Recv/Assembly.antt =====
-- The part of `receive` before it reads: a frame leaves the buffer whole, or more is needed.
use pipewire_native_rs.Prelude.{
  ℕ, ◌+◌, ◌-◌, ◌≤◌, ◌<◌, ◌≡◌, ◌⊎◌, inl, inr, refl, sym, ap, subst, List, ◌++◌, map, some, ok, err,
  length, take, drop, arith, take-append-drop, length-take, length-drop, length-append, lt→ltb,
  All-take, All-drop,
}
use native.Mathlib.Decide.{dec_lt}
use pipewire_native_rs.Frame.Limits.{header_len, missing_fds}
use pipewire_native_rs.Frame.Header.{Header, decode, encode}
use pipewire_native_rs.Frame.Header.RoundTrip.{encode-decode}
use pipewire_native_rs.Frame.Fds.{ReceivedFrame}
use pipewire_native_rs.Frame.Recv.{
  FdBatch, FrameReceiver, RecvState, header, payload, eof, failed, fail, available, take_fds,
  payload_stage, emit, Assembled, wait, done, returned, starved, panicked, frame, blocked, closed,
}
use pipewire_native_rs.Frame.Recv.Batches.{flat, IsOrdered, Takes, take_fds-Takes, pending_fds-flat}
use pipewire_native_rs.Frame.Recv.Invariant.{InState, IsReceiver}

-- The frame `f` left `r`, which became `r'`: its header's encoding, its payload, and what is still
-- buffered are what was buffered, and so with the descriptors. The header declares the lengths.
pub record Emits (bytes fds : List ℕ) (r' : FrameReceiver) (f : ReceivedFrame) : Type 0 where
  pub head : List ℕ
  pub rights : List ℕ
  pub encoded : encode f.header ≡ ok head
  pub bytes_split : head ++ (f.payload ++ r'.bytes) ≡ bytes
  pub fds_split : rights ++ flat r'.fd_batches ≡ fds
  pub fds_whole : f.fds ≡ map some rights
  pub payload_declared : length f.payload ≡ f.header.payload_len
  pub fds_declared : length rights ≡ f.header.n_fds

-- No whole frame is buffered.
abbrev pub IsIncomplete : List ℕ → Type 0
IsIncomplete bytes =
    (length bytes < header_len)
    ⊎ (length bytes < header_len + (decode (take header_len bytes)).payload_len)

-- A state in which the loop reads.
abbrev pub IsOpen : RecvState → Type 0
IsOpen header = Unit {0}
IsOpen (payload h a b) = Unit {0}
IsOpen eof = ⊥
IsOpen failed = ⊥

abbrev pub AssembleLaw : FrameReceiver → Assembled → Type 0
AssembleLaw r (wait r') =
    IsReceiver r'
    × IsOpen r'.state
    × (r'.bytes ≡ r.bytes)
    × (r'.fd_batches ≡ r.fd_batches)
    × IsIncomplete r.bytes
    × (length r.bytes < header_len + r.limits.max_payload)
    × (r'.limits ≡ r.limits)
AssembleLaw r (done r' (returned (ok (frame f)))) =
    IsReceiver r' × (r'.state ≡ header) × Emits r.bytes (flat r.fd_batches) r' f
AssembleLaw r (done r' (returned (ok blocked))) = ⊥
AssembleLaw r (done r' (returned (ok closed))) = ⊥
AssembleLaw r (done r' (returned (err e))) = r' ≡ fail r
AssembleLaw r (done r' starved) = ⊥
AssembleLaw r (done r' panicked) = ⊥

module _ (r : FrameReceiver) (h : Header) (frame_end : ℕ) where
  -- What `emit` leaves and yields when the descriptors are there.
  abbrev emitted : List (FdBatch) → FrameReceiver
  emitted batches = record r {
    bytes = drop h.payload_len (drop header_len r.bytes);
    byte_base = frame_end;
    fd_batches = batches;
    state = header;
  }

  abbrev emitted_frame : List ℕ → ReceivedFrame
  emitted_frame fds = record {
    header = h;
    payload = take h.payload_len (drop header_len r.bytes);
    fds = map some fds;
  }

  emit-missing :
      available frame_end r.fd_batches < h.n_fds
      → emit r h frame_end
        ≡ done (fail r) (returned (err (missing_fds h.n_fds (available frame_end r.fd_batches))))
  unfolding emit
  emit-missing l = rw (lt→ltb _ _ l)

  emit-some :
      {fds : List ℕ} {batches : List FdBatch}
      → h.n_fds ≤ available frame_end r.fd_batches
      → take_fds h.n_fds frame_end r.fd_batches ≡ some (fds, batches)
      → emit r h frame_end ≡ done (emitted batches) (returned (ok (frame (emitted_frame fds))))
  unfolding emit
  emit-some l e = ground arith

module _ (r : FrameReceiver) (h : Header) (frame_start frame_end : ℕ) (v : IsReceiver r)
    (c : InState r (payload h frame_start frame_end))
    (l : frame_end - frame_start ≤ length r.bytes) where
  emitted-IsReceiver :
      (fds : List ℕ) (batches : List FdBatch)
      → Takes h.n_fds r.stream_end r.fd_batches (fds, batches)
      → IsOrdered 0 r.stream_end batches
      → IsReceiver (emitted r h frame_end batches)
  emitted-IsReceiver fds batches t o = record {
    bytes = All-drop _ h.payload_len _ (All-drop _ header_len r.bytes v.bytes);
    batches = o;
    room = omega (
      arith,
      v.room,
      length-drop h.payload_len (drop header_len r.bytes),
      length-drop header_len r.bytes,
    );
    fds_bound = omega (
      arith,
      v.fds_bound,
      pending_fds-flat batches,
      pending_fds-flat r.fd_batches,
      ap length t.split,
      length-append fds (flat batches),
    );
    pending_usize = v.pending_usize;
    in_state = omega (
      arith,
      c,
      length-drop h.payload_len (drop header_len r.bytes),
      length-drop header_len r.bytes,
    );
  }

  emitted-Emits :
      (fds : List ℕ) (batches : List FdBatch)
      → Takes h.n_fds r.stream_end r.fd_batches (fds, batches)
      → Emits r.bytes
          (flat r.fd_batches)
          (emitted r h frame_end batches)
          (emitted_frame r h frame_end fds)
  emitted-Emits fds batches t = record {
    head = take header_len r.bytes;
    rights = fds;
    encoded =
        subst (λ x. encode x ≡ ok (take header_len r.bytes)) (sym c.1)
          (encode-decode (take header_len r.bytes)
            (omega (arith, length-take header_len r.bytes, c.2))
            (All-take _ header_len r.bytes v.bytes));
    bytes_split =
        rw (take-append-drop h.payload_len (drop header_len r.bytes))
          (take-append-drop header_len r.bytes);
    fds_split = t.split;
    fds_whole = refl;
    payload_declared = omega (
      arith,
      c,
      length-take h.payload_len (drop header_len r.bytes),
      length-drop header_len r.bytes,
    );
    fds_declared = t.count;
  }

  emit-AssembleLaw : AssembleLaw r (emit r h frame_end)
  emit-AssembleLaw = elim (dec_lt (available frame_end r.fd_batches) h.n_fds) [
    | yes few ↦ rw (emit-missing r h frame_end few) refl
    | no enough ↦
        let ((fds, batches), e, t, o) =
          take_fds-Takes h.n_fds frame_end 0 r.stream_end r.fd_batches v.batches (omega arith) in
        rw (emit-some r h frame_end (omega arith) e)
          (emitted-IsReceiver fds batches t o, refl, emitted-Emits fds batches t)
  ]

wait-AssembleLaw :
    (r : FrameReceiver)
    → IsReceiver r
    → IsOpen r.state
    → IsIncomplete r.bytes
    → length r.bytes < header_len + r.limits.max_payload
    → AssembleLaw r (wait r)
wait-AssembleLaw r v o i l = (v, o, refl, refl, i, l, refl)

payload_stage-header : (r : FrameReceiver) → r.state ≡ header → payload_stage r ≡ wait r
unfolding payload_stage
payload_stage-header r e = ground arith

module _ (r : FrameReceiver) (h : Header) (frame_start frame_end : ℕ)
    (e : r.state ≡ payload h frame_start frame_end) where
  payload_stage-whole :
      frame_end - frame_start ≤ length r.bytes → payload_stage r ≡ emit r h frame_end
  unfolding payload_stage
  payload_stage-whole l = ground arith

  payload_stage-part : length r.bytes < frame_end - frame_start → payload_stage r ≡ wait r
  unfolding payload_stage
  payload_stage-part l = ground arith

pub payload_stage-AssembleLaw :
    (r : FrameReceiver) (s : RecvState)
    → r.state ≡ s
    → IsReceiver r
    → IsOpen s
    → (s ≡ header → length r.bytes < header_len)
    → AssembleLaw r (payload_stage r)
payload_stage-AssembleLaw r header e v o k =
    rw (payload_stage-header r e)
      (wait-AssembleLaw r v (subst IsOpen (sym e) o) (inl (k refl)) (omega (arith, k refl)))
payload_stage-AssembleLaw r (payload h frame_start frame_end) e v o k =
    let c = subst (InState r) e v.in_state in
    elim (dec_lt (length r.bytes) (frame_end - frame_start)) [
      | yes few ↦ rw (payload_stage-part r h frame_start frame_end e few) (
          wait-AssembleLaw r v (subst IsOpen (sym e) o)
            (inr (subst (λ x. length r.bytes < header_len + x.payload_len) c.1 (omega (arith, c))))
            (omega (arith, c)))
      | no enough ↦
          rw (payload_stage-whole r h frame_start frame_end e (omega arith))
            (emit-AssembleLaw r h frame_start frame_end v c (omega arith))
    ]
payload_stage-AssembleLaw r eof e v o k = absurd o
payload_stage-AssembleLaw r failed e v o k = absurd o
