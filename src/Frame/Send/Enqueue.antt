-- ===== src/Frame/Send/Enqueue.antt =====
-- `OutboundFrame::new` and `FrameSender::enqueue`: what they accept, and what they leave.
use pipewire_native_rs.Prelude.{
  ℕ, ◌+◌, ◌^◌, ◌%◌, ◌≤◌, ◌<◌, ◌≡◌, ◌⊎◌, inl, inr, refl, ap, ◌∙◌, take, drop, take_append, take_all,
  drop_append, drop_all, false, List, [], ◌∷◌, ◌++◌, append-nil, ok, err, Result-cases, length,
  arith, length-append, All-append,
}
use pipewire_native_rs.Prelude.Words.{usize_max}
use pipewire_native_rs.Frame.Limits.{FrameLimits, FrameError, payload_limit, header_len}
use pipewire_native_rs.Frame.Header.{Header, IsHeader, decode, encode}
use pipewire_native_rs.Frame.Header.RoundTrip.{decode-encode}
use pipewire_native_rs.Frame.Send.{FrameSender, admit, enqueue}
use pipewire_native_rs.Frame.Send.Outbound.{OutboundFrame, new}
use pipewire_native_rs.Frame.Send.Pending.{
  stream, rights, stream-append, rights-append, IsPending, IsSender,
}

-- The frame that carries these fields, this payload and these descriptors.
pub record IsOutbound (object_id opcode seq : ℕ) (payload fds : List ℕ) (frame : OutboundFrame)
    : Type 0 where
  pub header_fields : frame.header ≡ record {
    object_id = object_id;
    opcode = opcode;
    payload_len = length payload;
    seq = seq;
    n_fds = length fds;
  }
  pub header_first : decode (take header_len frame.bytes) ≡ frame.header
  pub payload_next : drop header_len frame.bytes ≡ payload
  pub whole : length frame.bytes ≡ header_len + length payload
  pub fds_kept : frame.fds ≡ fds

-- The header that `new` writes.
abbrev header_of : ℕ → ℕ → ℕ → List ℕ → List ℕ → Header
header_of object_id opcode seq payload fds = record {
  object_id = object_id;
  opcode = opcode;
  payload_len = length payload % 2 ^ 32;
  seq = seq;
  n_fds = length fds % 2 ^ 32;
}

module _ (object_id opcode seq : ℕ) (payload fds : List ℕ) (limits : FrameLimits) where
  new-cases :
      {frame : OutboundFrame}
      → new object_id opcode seq payload fds limits ≡ ok frame
      → (head : List ℕ) × (length payload ≤ payload_limit limits)
        × (length fds ≤ limits.max_frame_fds)
        × (encode (header_of object_id opcode seq payload fds) ≡ ok head)
        × (frame ≡ record {
          header = header_of object_id opcode seq payload fds;
          bytes = head ++ payload;
          fds = fds;
        })
  unfolding new
  new-cases e = elim (Result-cases (encode (header_of object_id opcode seq payload fds))) [
    | inl (head, h) ↦ (head, ground arith, ground arith, h, ground arith)
    | inr (x, h) ↦ absurd (ground arith)
  ]

  -- A frame that `OutboundFrame::new` makes carries the identifier, the opcode and the sequence
  -- number it was given, the length of the payload and the number of the descriptors; its bytes are
  -- sixteen that decode to this header and then the payload, and its descriptors are those given.
  -- The identifiers have to fit their types, and the limit on descriptors a `u32`.
  pub new-IsOutbound :
      {frame : OutboundFrame}
      → object_id < 2 ^ 32
      → opcode < 2 ^ 8
      → seq < 2 ^ 32
      → limits.max_frame_fds < 2 ^ 32
      → new object_id opcode seq payload fds limits ≡ ok frame
      → IsOutbound object_id opcode seq payload fds frame
  new-IsOutbound {frame} ho hc hs hf e =
      let (head, p, f, h, same) = new-cases e in
      let small : length payload % 2 ^ 32 ≡ length payload = omega arith in
      let few : length fds % 2 ^ 32 ≡ length fds = omega arith in
      let header : IsHeader (header_of object_id opcode seq payload fds) = omega arith in
      let law = decode-encode _ header h in
      rw same (record {
        header_fields = rw (small, few) refl;
        header_first =
            rw
              (
                take_append header_len head payload (omega (arith, law.1)),
                take_all header_len head (omega (arith, law.1)),
              )
              law.0;
        payload_next =
            drop_append header_len head payload (omega (arith, law.1))
            ∙ ap (λ xs. xs ++ payload) (drop_all header_len head (omega (arith, law.1)));
        whole = omega (arith, length-append head payload, law.1);
        fds_kept = refl;
      })

-- The conditions under which the counters of a sender cannot overflow `usize`.
pub record AreBounded (limits : FrameLimits) : Type 0 where
  pub queued_bytes_usize : limits.max_queued_bytes < usize_max
  pub queued_fds_usize : limits.max_queued_fds < usize_max

-- The sender with the frame at the end of its queue.
accepted : FrameSender → OutboundFrame → FrameSender
accepted s frame = record s {
  queued_bytes = s.queued_bytes + length frame.bytes;
  queued_fds = s.queued_fds + length frame.fds;
  queue =
      s.queue
      ++ (record { bytes = frame.bytes; offset = 0; fds = frame.fds; ancillary_sent = false } ∷ []);
}

enqueue-ok :
    (s : FrameSender) (frame : OutboundFrame)
    → admit s frame ≡ ok tt
    → enqueue s frame ≡ (accepted s frame, ok tt)
unfolding enqueue accepted
enqueue-ok s frame e = ground arith

enqueue-err :
    (s : FrameSender) (frame : OutboundFrame) (x : FrameError)
    → admit s frame ≡ err x
    → enqueue s frame ≡ (s, err x)
unfolding enqueue
enqueue-err s frame x e = ground arith

admit-ok :
    (s : FrameSender) (frame : OutboundFrame)
    → AreBounded s.limits
    → admit s frame ≡ ok tt
    → (s.failed ≡ false)
      × (s.queued_bytes + length frame.bytes ≤ s.limits.max_queued_bytes)
      × (s.queued_fds + length frame.fds ≤ s.limits.max_queued_fds)
unfolding admit
admit-ok s frame b e = ground arith

module _ (s : FrameSender) (frame : OutboundFrame) where
  queue-accepted :
      (stream (accepted s frame).queue ≡ stream s.queue ++ frame.bytes)
      × (rights (accepted s frame).queue ≡ rights s.queue ++ frame.fds)
  unfolding accepted
  queue-accepted = (
    stream-append s.queue _ ∙ ap (◌++◌ (stream s.queue)) (append-nil frame.bytes),
    rights-append s.queue _ ∙ ap (◌++◌ (rights s.queue)) (append-nil frame.fds),
  )

  accepted-IsSender :
      IsSender s
      → AreBounded s.limits
      → 0 < length frame.bytes
      → admit s frame ≡ ok tt
      → IsSender (accepted s frame)
  unfolding accepted
  accepted-IsSender v b n e =
      let (f, bb, fb) = admit-ok s frame b e in
      record {
        pending =
            All-append IsPending s.queue _ v.pending
              (record { unfinished = n; cleared = refl }, tt);
        bytes_exact = omega (
          arith,
          v.bytes_exact,
          ap length queue-accepted.0,
          length-append (stream s.queue) frame.bytes,
        );
        fds_exact = omega (
          arith,
          v.fds_exact,
          ap length queue-accepted.1,
          length-append (rights s.queue) frame.fds,
        );
        bytes_bound = bb;
        fds_bound = fb;
        failed_empty = inl f;
      }

-- For a sender within its invariant, with queue limits below `usize::MAX`, and a frame with a byte:
-- a refused frame leaves the sender as it was; an accepted one is queued behind all the others, its
-- bytes and its descriptors whole, and the invariant holds either way.
pub enqueue_lem :
    (s : FrameSender) (frame : OutboundFrame)
    → IsSender s
    → AreBounded s.limits
    → 0 < length frame.bytes
    → IsSender (enqueue s frame).0
      × (((enqueue s frame).1 ≡ ok tt)
            × ((stream (enqueue s frame).0.queue ≡ stream s.queue ++ frame.bytes)
                × (rights (enqueue s frame).0.queue ≡ rights s.queue ++ frame.fds))
          ⊎ ((enqueue s frame).0 ≡ s) × ((e : FrameError) × ((enqueue s frame).1 ≡ err e)))
enqueue_lem s frame v b n = elim (Result-cases (admit s frame)) [
  | inl (_, e) ↦
      rw (enqueue-ok s frame e)
        (accepted-IsSender s frame v b n e, inl (refl, queue-accepted s frame))
  | inr (x, e) ↦ rw (enqueue-err s frame x e) (v, inr (refl, (x, refl)))
]
