-- ===== src/Frame/Recv/Headers.antt =====
-- The header part of `receive`, and the two parts before a read together.
use pipewire_native_rs.Prelude.{
  ℕ, ◌+◌, ◌≤◌, ◌<◌, ◌≡◌, ◌⊎◌, inl, inr, refl, ◌∙◌, subst, length, take, arith, ok, err,
}
use native.Mathlib.Decide.{dec_lt}
use pipewire_native_rs.Prelude.Words.{usize_max}
use pipewire_native_rs.Frame.Limits.{
  FrameError, header_len, payload_limit, payload_too_large, too_many_frame_fds, truncated_frame,
}
use pipewire_native_rs.Frame.Header.{Header, decode}
use pipewire_native_rs.Frame.Header.RoundTrip.{payload-le}
use pipewire_native_rs.Frame.Recv.{
  FrameReceiver, RecvState, header, payload, eof, failed, fail, go, fails, parse_header,
  header_stage, payload_stage, assemble, Assembled, wait, done, returned, starved, panicked, frame,
  blocked, closed,
}
use pipewire_native_rs.Frame.Recv.Invariant.{InState, IsReceiver}
use pipewire_native_rs.Frame.Recv.Assembly.{AssembleLaw, IsOpen, payload_stage-AssembleLaw}

-- The receiver that has seen the header at the front of its buffer.
abbrev headed : FrameReceiver → FrameReceiver
headed r =
    let h = decode (take header_len r.bytes) in
    record r { state = payload h r.byte_base (r.byte_base + (header_len + h.payload_len)) }

-- The header is refused, or the receiver goes on to its payload; the `?` never returns.
parse-cases :
    (r : FrameReceiver)
    → ((decode (take header_len r.bytes)).payload_len ≤ payload_limit r.limits)
        × ((decode (take header_len r.bytes)).n_fds ≤ r.limits.max_frame_fds)
        × (parse_header r ≡ go (headed r))
      ⊎ ((e : FrameError) × (parse_header r ≡ fails e))
unfolding parse_header
parse-cases r =
    let h = decode (take header_len r.bytes) in
    elim (dec_lt (payload_limit r.limits) h.payload_len) [
      | yes long ↦ inr (payload_too_large h.payload_len (payload_limit r.limits), ground arith)
      | no short ↦ elim (dec_lt r.limits.max_frame_fds h.n_fds) [
        | yes many ↦ inr (too_many_frame_fds h.n_fds r.limits.max_frame_fds, ground arith)
        | no few ↦ elim (dec_lt usize_max (r.byte_base + (header_len + h.payload_len))) [
          | yes over ↦ inr (
            truncated_frame (length r.bytes) (header_len + h.payload_len),
            ground (arith, payload-le (take header_len r.bytes)),
          )
          | no fits ↦
              inl (omega arith, omega arith, ground (arith, payload-le (take header_len r.bytes)))
        ]
      ]
    ]

headed-IsReceiver :
    (r : FrameReceiver)
    → IsReceiver r
    → r.state ≡ header
    → header_len ≤ length r.bytes
    → (decode (take header_len r.bytes)).payload_len ≤ payload_limit r.limits
    → (decode (take header_len r.bytes)).n_fds ≤ r.limits.max_frame_fds
    → IsReceiver (headed r)
headed-IsReceiver r v e l p f = record {
  bytes = v.bytes;
  batches = v.batches;
  room = v.room;
  fds_bound = v.fds_bound;
  pending_usize = v.pending_usize;
  in_state = (subst (InState r) e v.in_state, refl, l, refl, omega arith, p, f);
}

-- A change of the state alone changes none of what `AssembleLaw` speaks of.
restate :
    (r : FrameReceiver) (s : RecvState) (a : Assembled)
    → AssembleLaw (record r { state = s }) a
    → AssembleLaw r a
unfolding fail
restate r s (wait r') law = law
restate r s (done r' (returned (ok (frame f)))) law = law
restate r s (done r' (returned (ok blocked))) law = law
restate r s (done r' (returned (ok closed))) law = law
restate r s (done r' (returned (err e))) law = law
restate r s (done r' starved) law = law
restate r s (done r' panicked) law = law

assemble-go : (r r' : FrameReceiver) → header_stage r ≡ go r' → assemble r ≡ payload_stage r'
unfolding assemble
assemble-go r r' e = rw (e, assemble)

assemble-fails :
    (r : FrameReceiver) (e : FrameError)
    → header_stage r ≡ fails e
    → assemble r ≡ done (fail r) (returned (err e))
unfolding assemble
assemble-fails r x e = rw (e, assemble)

module _ (r : FrameReceiver) where
  header_stage-payload : (h : Header) (a b : ℕ) → r.state ≡ payload h a b → header_stage r ≡ go r
  unfolding header_stage
  header_stage-payload h a b e = ground arith

  header_stage-short : r.state ≡ header → length r.bytes < header_len → header_stage r ≡ go r
  unfolding header_stage
  header_stage-short e l = ground arith

  header_stage-whole :
      r.state ≡ header → header_len ≤ length r.bytes → header_stage r ≡ parse_header r
  unfolding header_stage
  header_stage-whole e l = ground arith

pub assemble_lem :
    (r : FrameReceiver) (s : RecvState)
    → r.state ≡ s
    → IsReceiver r
    → IsOpen s
    → AssembleLaw r (assemble r)
assemble_lem r header e v o = elim (dec_lt (length r.bytes) header_len) [
  | yes few ↦
      rw (assemble-go r r (header_stage-short r e few))
        (payload_stage-AssembleLaw r header e v o (λ _. few))
  | no enough ↦ elim (parse-cases r) [
    | inl (p, f, g) ↦ rw (assemble-go r (headed r) (header_stage-whole r e (omega arith) ∙ g)) (
        restate r _ _ (
          payload_stage-AssembleLaw (headed r) (headed r).state refl
            (headed-IsReceiver r v e (omega arith) p f) tt (λ n. cc)))
    | inr (x, g) ↦ rw (assemble-fails r x (header_stage-whole r e (omega arith) ∙ g)) refl
  ]
]
assemble_lem r (payload h a b) e v o =
    rw (assemble-go r r (header_stage-payload r h a b e))
      (payload_stage-AssembleLaw r (payload h a b) e v o (λ n. cc))
assemble_lem r eof e v o = absurd o
assemble_lem r failed e v o = absurd o
