-- ===== src/Frame/Recv/Law.antt =====
-- `FrameReceiver::receive` as a whole: no byte and no descriptor is lost, doubled or reordered.
use pipewire_native_rs.Prelude.{
  ℕ, ◌≡◌, refl, sym, ap, ◌∙◌, subst₂, List, [], ◌∷◌, ◌++◌, append_assoc, append-nil, Result, ok,
  err, length, All, arith,
}
use pipewire_native_rs.Frame.Limits.{FrameError}
use pipewire_native_rs.Frame.Recv.{
  FrameReceiver, RecvState, header, payload, eof, failed, fail, ReceiveOutcome, frame, blocked,
  closed, Return, returned, starved, panicked, Assembled, wait, done, assemble,
}
use pipewire_native_rs.Frame.Recv.Receive.{
  Delivery, Call, ReadStep, more, finish, read, Received, receive_loop, receive,
}
use pipewire_native_rs.Frame.Recv.Batches.{flat}
use pipewire_native_rs.Frame.Recv.Invariant.{IsReceiver, fail-IsReceiver}
use pipewire_native_rs.Frame.Recv.Assembly.{AssembleLaw, IsOpen, IsIncomplete, Emits}
use pipewire_native_rs.Frame.Recv.Headers.{assemble_lem}
use pipewire_native_rs.Frame.Recv.Reads.{IsHonest, ReadLaw, read-ReadLaw}

-- All bytes that the socket delivered, and all descriptors.
abbrev pub delivered_bytes : List Delivery → List ℕ
delivered_bytes [] = []
delivered_bytes ((bytes, fds) ∷ ds) = bytes ++ delivered_bytes ds

abbrev pub delivered_fds : List Delivery → List ℕ
delivered_fds [] = []
delivered_fds ((bytes, fds) ∷ ds) = fds ++ delivered_fds ds

-- The receiver holds `bytes` and `fds`, and no whole frame.
abbrev pub Holds : List ℕ → List ℕ → FrameReceiver → Type 0
Holds bytes fds r =
    IsOpen r.state × (r.bytes ≡ bytes) × (flat r.fd_batches ≡ fds) × IsIncomplete bytes

-- What each result says, where `bytes` and `fds` are all that was buffered before and delivered.
abbrev pub ReturnLaw : List ℕ → List ℕ → FrameReceiver → Return → Type 0
ReturnLaw bytes fds r (returned (ok (frame f))) = (r.state ≡ header) × Emits bytes fds r f
ReturnLaw bytes fds r (returned (ok blocked)) = Holds bytes fds r
ReturnLaw bytes fds r (returned (ok closed)) = (r.state ≡ eof) × (bytes ≡ []) × (fds ≡ [])
ReturnLaw bytes fds r (returned (err e)) = (r.state ≡ failed) × (r.bytes ≡ []) × (r.fd_batches ≡ [])
ReturnLaw bytes fds r starved = Holds bytes fds r
ReturnLaw bytes fds r panicked = ⊥

pub record ReceiveLaw (r : FrameReceiver) (out : Received) : Type 0 where
  pub valid : IsReceiver out.receiver
  pub back :
      ReturnLaw
        (r.bytes ++ delivered_bytes out.deliveries)
        (flat r.fd_batches ++ delivered_fds out.deliveries)
        out.receiver
        out.result

failed-ReturnLaw :
    (r r' : FrameReceiver) (bytes fds : List ℕ) (e : FrameError)
    → r' ≡ fail r
    → IsReceiver r
    → IsReceiver r' × ReturnLaw bytes fds r' (returned (err e))
unfolding fail
failed-ReturnLaw r r' bytes fds e same v = rw same (fail-IsReceiver r v, (refl, refl, refl))

-- With no delivery, what was buffered is all there is.
nothing_more :
    (bytes fds : List ℕ) (r : FrameReceiver) (back : Return)
    → ReturnLaw bytes fds r back
    → ReturnLaw (bytes ++ []) (fds ++ []) r back
nothing_more bytes fds r back law =
    subst₂ (λ B F. ReturnLaw B F r back) (sym (append-nil bytes)) (sym (append-nil fds)) law

-- The loop returns before it reads.
done-ReceiveLaw :
    (r r' : FrameReceiver) (back : Return)
    → IsReceiver r
    → AssembleLaw r (done r' back)
    → ReceiveLaw r (record { receiver = r'; deliveries = []; result = back })
done-ReceiveLaw r r' (returned (ok (frame f))) v (w, s, m) = record {
  valid = w;
  back = nothing_more _ _ r' (returned (ok (frame f))) (s, m);
}
done-ReceiveLaw r r' (returned (ok blocked)) v law = absurd law
done-ReceiveLaw r r' (returned (ok closed)) v law = absurd law
done-ReceiveLaw r r' (returned (err e)) v law =
    let (w, b) = failed-ReturnLaw r r' (r.bytes ++ []) (flat r.fd_batches ++ []) e law v in
    record { valid = w; back = b }
done-ReceiveLaw r r' starved v law = absurd law
done-ReceiveLaw r r' panicked v law = absurd law

-- It waits for a call that is not given.
starved-ReceiveLaw :
    (r r' : FrameReceiver)
    → AssembleLaw r (wait r')
    → ReceiveLaw r (record { receiver = r'; deliveries = []; result = starved })
starved-ReceiveLaw r r' (w, o, b, f, i, l, k) = record {
  valid = w;
  back = nothing_more _ _ r' starved (o, b, ap flat f, i);
}

-- It reads, and returns.
finish-ReceiveLaw :
    (r r1 r2 : FrameReceiver) (back : Result FrameError ReceiveOutcome)
    → AssembleLaw r (wait r1)
    → ReadLaw r1 (finish r2 back)
    → ReceiveLaw r (record { receiver = r2; deliveries = []; result = returned back })
finish-ReceiveLaw r r1 r2 (ok blocked) (w, o, b, f, i, l, k) law =
    rw law (record {
      valid = w;
      back = nothing_more _ _ r1 (returned (ok blocked)) (o, b, ap flat f, i);
    })
finish-ReceiveLaw r r1 r2 (ok closed) (w, o, b, f, i, l, k) (v, s, n, m) = record {
  valid = v;
  back = nothing_more _ _ r2 (returned (ok closed)) (s, sym b ∙ n, sym (ap flat f) ∙ m);
}
finish-ReceiveLaw r r1 r2 (ok (frame x)) w law = absurd law
finish-ReceiveLaw r r1 r2 (err e) (w, o, b, f, i, l, k) law =
    let (v, c) = failed-ReturnLaw r1 r2 (r.bytes ++ []) (flat r.fd_batches ++ []) e law w in
    record { valid = v; back = c }

-- It reads and goes on.
more-ReceiveLaw :
    (r r1 r2 : FrameReceiver) (bytes fds : List ℕ) (rest : Received)
    → AssembleLaw r (wait r1)
    → ReadLaw r1 (more r2 (bytes, fds))
    → ReceiveLaw r2 rest
    → ReceiveLaw r (record rest { deliveries = (bytes, fds) ∷ rest.deliveries })
more-ReceiveLaw r r1 r2 bytes fds rest (w, o, b, f, i, l, k) (v, p, c, d, n, m) law = record {
  valid = law.valid;
  back =
      subst₂ (λ B F. ReturnLaw B F rest.receiver rest.result)
        (ap (λ t. t ++ delivered_bytes rest.deliveries) (c ∙ ap (λ t. t ++ bytes) b)
          ∙ append_assoc r.bytes bytes _)
        (ap (λ t. t ++ delivered_fds rest.deliveries) (d ∙ ap (λ t. flat t ++ fds) f)
          ∙ append_assoc (flat r.fd_batches) fds _)
        law.back;
}

-- A turn of the loop with no call left.
last-ReceiveLaw :
    (r : FrameReceiver) (a : Assembled)
    → IsReceiver r
    → AssembleLaw r a
    → ReceiveLaw r (elim a [
      | wait r' ↦ record { receiver = r'; deliveries = []; result = starved }
      | done r' back ↦ record { receiver = r'; deliveries = []; result = back }
    ])
last-ReceiveLaw r (wait r') v law = starved-ReceiveLaw r r' law
last-ReceiveLaw r (done r' back) v law = done-ReceiveLaw r r' back v law

module _ (next : FrameReceiver → Received)
    (ih : (r : FrameReceiver) → IsReceiver r → IsOpen r.state → ReceiveLaw r (next r)) where
  -- The end of a turn, behind the read.
  step-ReceiveLaw :
      (r r1 : FrameReceiver) (step : ReadStep)
      → AssembleLaw r (wait r1)
      → ReadLaw r1 step
      → ReceiveLaw r (elim step [
        | more r2 d ↦ record (next r2) { deliveries = d ∷ (next r2).deliveries }
        | finish r2 back ↦ record { receiver = r2; deliveries = []; result = returned back }
      ])
  step-ReceiveLaw r r1 (more r2 (bytes, fds)) law read_lem =
      more-ReceiveLaw r r1 r2 bytes fds (next r2) law read_lem (ih r2 read_lem.0 read_lem.1)
  step-ReceiveLaw r r1 (finish r2 back) law read_lem = finish-ReceiveLaw r r1 r2 back law read_lem

  -- A turn of the loop.
  turn-ReceiveLaw :
      (r : FrameReceiver) (call : Call) (a : Assembled)
      → IsReceiver r
      → IsHonest call
      → AssembleLaw r a
      → ReceiveLaw r (elim a [
        | wait r' ↦ elim (read r' call) [
          | more r2 d ↦ record (next r2) { deliveries = d ∷ (next r2).deliveries }
          | finish r2 back ↦ record { receiver = r2; deliveries = []; result = returned back }
        ]
        | done r' back ↦ record { receiver = r'; deliveries = []; result = back }
      ])
  turn-ReceiveLaw r call (wait r1) v h law = step-ReceiveLaw r r1 (read r1 call) law (
      read-ReadLaw r1 call law.0 law.1
        (omega (arith, law.5, ap length law.2, ap (λ l. l.max_payload) law.6)) h)
  turn-ReceiveLaw r call (done r' back) v h law = done-ReceiveLaw r r' back v law

receive_loop-ReceiveLaw :
    (r : FrameReceiver) (calls : List Call)
    → IsReceiver r
    → IsOpen r.state
    → All IsHonest calls
    → ReceiveLaw r (receive_loop r calls)
unfolding receive_loop
receive_loop-ReceiveLaw r [] v o h =
    last-ReceiveLaw r (assemble r) v (assemble_lem r r.state refl v o)
receive_loop-ReceiveLaw r (call ∷ calls) v o (h, hs) =
    turn-ReceiveLaw (λ t. receive_loop t calls) (λ t w p. receive_loop-ReceiveLaw t calls w p hs) r
      call (assemble r) v h (assemble_lem r r.state refl v o)

pub receive-open :
    (r : FrameReceiver) (calls : List Call) (s : RecvState)
    → r.state ≡ s
    → IsOpen s
    → receive r calls ≡ receive_loop r calls
unfolding receive
receive-open r calls header e o = ground arith
receive-open r calls (payload h a b) e o = ground arith
receive-open r calls eof e o = absurd o
receive-open r calls failed e o = absurd o

-- On a receiver within its invariant that is neither closed nor failed, and a socket that keeps to
-- its contract, `receive` never panics and keeps the invariant, which bounds the buffer by a header
-- and the largest payload and the pending descriptors by their limit. A frame that it returns is
-- the first part of what was buffered before and delivered since, encoded header and payload, and
-- the rest is still buffered; so with the descriptors. It reports `WouldBlock` only if all that is
-- there is no whole frame, and nothing is lost then; it reports `Closed` only if nothing is left
-- over. After an error the receiver is failed and empty.
pub receive-ReceiveLaw :
    (r : FrameReceiver) (calls : List Call)
    → IsReceiver r
    → IsOpen r.state
    → All IsHonest calls
    → ReceiveLaw r (receive r calls)
receive-ReceiveLaw r calls v o h =
    rw (receive-open r calls r.state refl o) (receive_loop-ReceiveLaw r calls v o h)
