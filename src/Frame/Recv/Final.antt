-- ===== src/Frame/Recv/Final.antt =====
-- A receiver after an error or the end of the stream: it never reads again.
use pipewire_native_rs.Prelude.{◌≡◌, ◌⊎◌, subst, inl, inr, List, [], ◌∷◌, ◌++◌, ok, err, All, arith}
use pipewire_native_rs.Frame.Limits.{FrameError, poisoned}
use pipewire_native_rs.Frame.Recv.{
  FrameReceiver, RecvState, eof, failed, Return, returned, closed, clear,
}
use pipewire_native_rs.Frame.Recv.Receive.{Call, Received, receive}
use pipewire_native_rs.Frame.Recv.Batches.{flat}
use pipewire_native_rs.Frame.Recv.Invariant.{IsReceiver}
use pipewire_native_rs.Frame.Recv.Assembly.{IsOpen}
use pipewire_native_rs.Frame.Recv.Reads.{IsHonest}
use pipewire_native_rs.Frame.Recv.Law.{
  ReturnLaw, ReceiveLaw, receive-ReceiveLaw, delivered_bytes, delivered_fds,
}

pub data ReceiverCall : Type 0 where
  receives : List Call → ReceiverCall
  clears : ReceiverCall

abbrev pub called : FrameReceiver → ReceiverCall → FrameReceiver
called r (receives calls) = (receive r calls).receiver
called r clears = clear r

-- Each `receive` among the calls reads nothing and returns `last`.
abbrev pub Answers : Return → FrameReceiver → ReceiverCall → Type 0
Answers last r (receives calls) =
    ((receive r calls).deliveries ≡ []) × ((receive r calls).result ≡ last)
Answers last r clears = Unit {0}

abbrev pub AllAnswer : Return → FrameReceiver → List ReceiverCall → Type 0
AllAnswer last r [] = Unit {0}
AllAnswer last r (c ∷ cs) = Answers last r c × AllAnswer last (called r c) cs

-- A state that ends the stream, and what `receive` then returns.
abbrev IsLast : RecvState → Return → Type 0
IsLast s last =
    ((s ≡ failed) × (last ≡ returned (err poisoned))) ⊎ ((s ≡ eof) × (last ≡ returned (ok closed)))

called-IsLast :
    (r : FrameReceiver) (c : ReceiverCall) {last : Return}
    → IsLast r.state last
    → Answers last r c × IsLast (called r c).state last
unfolding receive clear
called-IsLast r (receives calls) (inl (s, e)) = (ground arith, inl (ground arith, e))
called-IsLast r (receives calls) (inr (s, e)) = (ground arith, inr (ground arith, e))
called-IsLast r clears (inl (s, e)) = (tt, inl (ground arith, e))
called-IsLast r clears (inr (s, e)) = (tt, inr (ground arith, e))

calls-AllAnswer :
    (r : FrameReceiver) (cs : List ReceiverCall) {last : Return}
    → IsLast r.state last
    → AllAnswer last r cs
calls-AllAnswer r [] l = tt
calls-AllAnswer r (c ∷ cs) l =
    let (now, next) = called-IsLast r c l in (now, calls-AllAnswer (called r c) cs next)

-- The law of a return, at a result that is known.
law_at :
    (r : FrameReceiver) (out : Received) {back : Return}
    → out.result ≡ back
    → ReceiveLaw r out
    → ReturnLaw
        (r.bytes ++ delivered_bytes out.deliveries)
        (flat r.fd_batches ++ delivered_fds out.deliveries)
        out.receiver
        back
law_at r out e law = subst (ReturnLaw _ _ out.receiver) e law.back

-- Once `receive` has reported an error, or the end of the stream, on a receiver within its
-- invariant and a socket that keeps to its contract, however often `receive` and `clear` are called
-- from then on, in whatever order and whatever the socket would give, nothing is read any more, and
-- each `receive` returns `Poisoned` after an error and `Closed` after the end of the stream.
pub receive_final :
    (r : FrameReceiver) (calls : List Call) (cs : List ReceiverCall) (last : Return)
    → IsReceiver r
    → IsOpen r.state
    → All IsHonest calls
    → ((e : FrameError) × ((receive r calls).result ≡ returned (err e))
        × (last ≡ returned (err poisoned)))
      ⊎ (((receive r calls).result ≡ returned (ok closed)) × (last ≡ returned (ok closed)))
    → AllAnswer last (receive r calls).receiver cs
receive_final r calls cs last v o h (inl (e, back, l)) =
    calls-AllAnswer (receive r calls).receiver cs
      (inl ((law_at r (receive r calls) back (receive-ReceiveLaw r calls v o h)).0, l))
receive_final r calls cs last v o h (inr (back, l)) =
    calls-AllAnswer (receive r calls).receiver cs
      (inr ((law_at r (receive r calls) back (receive-ReceiveLaw r calls v o h)).0, l))
