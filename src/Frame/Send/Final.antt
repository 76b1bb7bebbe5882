-- ===== src/Frame/Send/Final.antt =====
-- A sender after a failed flush: poisoned for good, whatever is done with it.
use pipewire_native_rs.Prelude.{
  ◌≡◌, refl, sym, ap, subst, ◌∙◌, true, false, List, [], ◌∷◌, some, err, length, arith,
}
use pipewire_native_rs.Frame.Limits.{FrameError, poisoned}
use pipewire_native_rs.Frame.Send.{FrameSender, SendReply, Flushed, enqueue, flush, clear, admit}
use pipewire_native_rs.Frame.Send.Outbound.{OutboundFrame}
use pipewire_native_rs.Frame.Send.Pending.{stream, rights, IsSender}
use pipewire_native_rs.Frame.Send.Stream.{Ends}
use pipewire_native_rs.Frame.Send.Run.{RunLaw, flush-RunLaw}

pub data SenderCall : Type 0 where
  enqueues : OutboundFrame → SenderCall
  flushes : List SendReply → SenderCall
  clears : SenderCall

-- The sender after a call.
abbrev pub called : FrameSender → SenderCall → FrameSender
called s (enqueues frame) = (enqueue s frame).0
called s (flushes replies) = (flush s replies).sender
called s clears = clear s

abbrev pub called_all : FrameSender → List SenderCall → FrameSender
called_all s [] = s
called_all s (c ∷ cs) = called_all (called s c) cs

-- Each of the calls is refused as poisoned, and none of them sends a message.
abbrev pub IsRefused : FrameSender → SenderCall → Type 0
IsRefused s (enqueues frame) = (enqueue s frame).1 ≡ err poisoned
IsRefused s (flushes replies) =
    ((flush s replies).messages ≡ []) × ((flush s replies).result ≡ some (err poisoned))
IsRefused s clears = Unit {0}

abbrev pub AllRefused : FrameSender → List SenderCall → Type 0
AllRefused s [] = Unit {0}
AllRefused s (c ∷ cs) = IsRefused s c × AllRefused (called s c) cs

call-IsRefused : (s : FrameSender) (c : SenderCall) → s.failed ≡ true → IsRefused s c
unfolding flush enqueue admit
call-IsRefused s (enqueues frame) f = ground arith
call-IsRefused s (flushes replies) f = ground arith
call-IsRefused s clears f = tt

call-same : (s : FrameSender) (c : SenderCall) → s.failed ≡ true → clear s ≡ s → called s c ≡ s
unfolding flush enqueue admit
call-same s (enqueues frame) f e = ground arith
call-same s (flushes replies) f e = ground arith
call-same s clears f e = e

calls-AllRefused :
    (s : FrameSender) (cs : List SenderCall)
    → s.failed ≡ true
    → clear s ≡ s
    → AllRefused s cs × (called_all s cs ≡ s)
calls-AllRefused s [] f e = (tt, refl)
calls-AllRefused s (c ∷ cs) f e =
    let same = call-same s c f e in
    let (refused, last) = calls-AllRefused s cs f e in
    (
      (call-IsRefused s c f, subst (λ t. AllRefused t cs) (sym same) refused),
      ap (λ t. called_all t cs) same ∙ last,
    )

clear-empty : (s : FrameSender) → IsSender s → s.queue ≡ [] → clear s ≡ s
unfolding clear
clear-empty s v e =
    let bytes = v.bytes_exact ∙ ap (λ q. length (stream q)) e in
    let fds = v.fds_exact ∙ ap (λ q. length (rights q)) e in
    λ i. record s { queue = sym e i; queued_bytes = sym bytes i; queued_fds = sym fds i }

error-Ends :
    (s : FrameSender) (out : Flushed) {e : FrameError}
    → out.result ≡ some (err e)
    → RunLaw s out
    → (out.sender.failed ≡ true) × (out.sender.queue ≡ []) × IsSender out.sender
error-Ends s out r law =
    let ends = subst (Ends s out.sender out.messages) r law.ends in (ends.0, ends.1, law.valid)

-- Once `flush` has reported an error on a sender within its invariant, the sender is empty, and
-- whatever frames are queued, flushes tried and clears made from then on, in any number and order,
-- each enqueue and each flush reports `Poisoned`, no byte and no descriptor is sent, and the sender
-- stays as the error left it.
pub failed_forever :
    (s : FrameSender) (replies : List SendReply) (cs : List SenderCall) {e : FrameError}
    → IsSender s
    → s.failed ≡ false
    → (flush s replies).result ≡ some (err e)
    → let lost = (flush s replies).sender in
      (lost.queue ≡ []) × AllRefused lost cs × (called_all lost cs ≡ lost)
failed_forever s replies cs v f r =
    let (failed, empty, valid) = error-Ends s (flush s replies) r (flush-RunLaw s replies v f) in
    let (refused, same) =
      calls-AllRefused (flush s replies).sender cs failed
        (clear-empty (flush s replies).sender valid empty) in
    (empty, refused, same)
