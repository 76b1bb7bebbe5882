-- ===== src/Frame/Recv/Progress.antt =====
-- `FrameReceiver::receive` returns after boundedly many reads.
use pipewire_native_rs.Prelude.{
  ℕ, suc, ◌+◌, ◌≤◌, ◌≢◌, refl, ap, List, [], ◌∷◌, length, All, arith, length-append,
}
use pipewire_native_rs.Frame.Limits.{header_len}
use pipewire_native_rs.Frame.Recv.{
  FrameReceiver, Return, returned, starved, panicked, Assembled, wait, done, assemble,
}
use pipewire_native_rs.Frame.Recv.Receive.{
  Call, ReadStep, more, finish, read, Received, receive_loop, receive,
}
use pipewire_native_rs.Frame.Recv.Invariant.{IsReceiver}
use pipewire_native_rs.Frame.Recv.Assembly.{AssembleLaw, IsOpen}
use pipewire_native_rs.Frame.Recv.Headers.{assemble_lem}
use pipewire_native_rs.Frame.Recv.Reads.{IsHonest, ReadLaw, read-ReadLaw}
use pipewire_native_rs.Frame.Recv.Law.{receive-open}

done-ne-starved :
    (r r' : FrameReceiver) (back : Return) → AssembleLaw r (done r' back) → back ≢ starved
done-ne-starved r r' (returned x) law = λ e. cc
done-ne-starved r r' starved law = absurd law
done-ne-starved r r' panicked law = absurd law

last_returns :
    (r : FrameReceiver) (a : Assembled)
    → AssembleLaw r a
    → header_len + r.limits.max_payload ≤ length r.bytes
    → (elim a as (λ _. Received) [
      | wait r' ↦ record { receiver = r'; deliveries = []; result = starved }
      | done r' back ↦ record { receiver = r'; deliveries = []; result = back }
    ]).result
      ≢ starved
last_returns r (wait r') law h = absurd (omega (arith, law.5))
last_returns r (done r' back) law h = done-ne-starved r r' back law

module _ (left : ℕ) (next : FrameReceiver → Received)
    (ih : (r : FrameReceiver)
      → IsReceiver r
      → IsOpen r.state
      → header_len + r.limits.max_payload ≤ left + length r.bytes
      → (next r).result ≢ starved) where
  step_returns :
      (r : FrameReceiver) (step : ReadStep)
      → ReadLaw r step
      → header_len + r.limits.max_payload ≤ suc left + length r.bytes
      → (elim step as (λ _. Received) [
        | more r2 d ↦ record (next r2) { deliveries = d ∷ (next r2).deliveries }
        | finish r2 back ↦ record { receiver = r2; deliveries = []; result = returned back }
      ]).result
        ≢ starved
  step_returns r (more r2 (bytes, fds)) (v, p, c, d, n, k) h =
      ih r2 v p (omega (arith, ap length c, length-append r.bytes bytes, ap (λ l. l.max_payload) k))
  step_returns r (finish r2 back) law h = λ e. cc

  turn_returns :
      (r : FrameReceiver) (call : Call) (a : Assembled)
      → IsHonest call
      → AssembleLaw r a
      → header_len + r.limits.max_payload ≤ suc left + length r.bytes
      → (elim a as (λ _. Received) [
        | wait r' ↦ elim (read r' call) as (λ _. Received) [
          | more r2 d ↦ record (next r2) { deliveries = d ∷ (next r2).deliveries }
          | finish r2 back ↦ record { receiver = r2; deliveries = []; result = returned back }
        ]
        | done r' back ↦ record { receiver = r'; deliveries = []; result = back }
      ]).result
        ≢ starved
  turn_returns r call (wait r1) g law h =
      let len = ap length law.2 in
      let lim = ap (λ l. l.max_payload) law.6 in
      step_returns r1 (read r1 call)
        (read-ReadLaw r1 call law.0 law.1 (omega (arith, law.5, len, lim)) g)
        (omega (arith, h, len, lim))
  turn_returns r call (done r' back) g law h = done-ne-starved r r' back law

receive_loop_returns :
    (r : FrameReceiver) (calls : List Call)
    → IsReceiver r
    → IsOpen r.state
    → All IsHonest calls
    → header_len + r.limits.max_payload ≤ length calls + length r.bytes
    → (receive_loop r calls).result ≢ starved
unfolding receive_loop
receive_loop_returns r [] v o g h =
    last_returns r (assemble r) (assemble_lem r r.state refl v o) (omega arith)
receive_loop_returns r (call ∷ calls) v o (g, gs) h =
    turn_returns (length calls) (λ t. receive_loop t calls)
      (λ t w p k. receive_loop_returns t calls w p gs k) r call (assemble r) g
      (assemble_lem r r.state refl v o) h

-- On a receiver within its invariant that is neither closed nor failed, with a socket that keeps
-- to its contract, `receive` returns after as many reads as a header and
-- the largest payload have bytes that are not buffered yet, or fewer.
pub receive_returns :
    (r : FrameReceiver) (calls : List Call)
    → IsReceiver r
    → IsOpen r.state
    → All IsHonest calls
    → header_len + r.limits.max_payload ≤ length calls + length r.bytes
    → (receive r calls).result ≢ starved
receive_returns r calls v o g h =
    rw (receive-open r calls r.state refl o) (receive_loop_returns r calls v o g h)
