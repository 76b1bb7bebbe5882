-- ===== src/Frame/Send/Progress.antt =====
-- `FrameSender::flush` returns once the kernel has given enough answers.
use pipewire_native_rs.Prelude.{
  ℕ, suc, ◌+◌, ◌≤◌, ◌<◌, ◌≡◌, ◌≢◌, inl, inr, refl, ap, subst, true, List, [], ◌∷◌, none, some,
  length, drop, arith, length-append, length-drop, List-cases, Bool-cases, Result, ok, err, All,
}
use pipewire_native_rs.Frame.Limits.{
  interrupted, would_block, stream_position_overflow, other, FrameError, io, poisoned,
}
use pipewire_native_rs.Frame.Send.{
  SendFrame, FrameSender, SendReply, accepts, refuses, sent_some, round, fail, FlushOutcome,
  blocked, stop, flush_loop, flush,
}
use pipewire_native_rs.Frame.Send.Pending.{
  stream, IsPending, IsSender, sent_some-IsSender, counts-sent_some,
}
use pipewire_native_rs.Frame.Send.Stream.{taken, accepts-cases}
use pipewire_native_rs.Frame.Send.Run.{flush_loop-drained, flush_loop-step, flush-live}

-- The answers that are no `EINTR`, on which `flush` asks again at once.
abbrev pub answers : List SendReply → ℕ
answers [] = 0
answers (refuses interrupted ∷ rs) = answers rs
answers (r ∷ rs) = suc (answers rs)

-- A queued frame still has a byte to send.
owes :
    (s : FrameSender) (frame : SendFrame) (rest : List SendFrame)
    → s.queue ≡ frame ∷ rest
    → IsSender s
    → length (drop frame.offset frame.bytes) + length (stream rest) ≡ s.queued_bytes
owes s frame rest e v = omega (
  arith,
  v.bytes_exact,
  ap (λ q. length (stream q)) e,
  length-append (drop frame.offset frame.bytes) (stream rest),
)

some≢none {ℓ} : {A : Type ℓ} {a : A} → some a ≢ none
some≢none e = cc

front :
    (s : FrameSender) (frame : SendFrame) (rest : List SendFrame)
    → s.queue ≡ frame ∷ rest
    → IsSender s
    → frame.offset < length frame.bytes
front s frame rest e v = (subst (All IsPending) e v.pending).0.unfinished

-- An answer on which every round stops ends the loop.
refused :
    (s : FrameSender) (reply : SendReply) (rs : List SendReply)
    → ((frame : SendFrame) (rest : List SendFrame)
        → (t : FrameSender) × (r : Result FrameError FlushOutcome) × (round s frame rest reply
            ≡ stop t [] r))
    → (flush_loop s (reply ∷ rs)).result ≢ none
refused s reply rs stops = elim (List-cases s.queue) [
  | inl e ↦ rw (flush_loop-drained s _ e) some≢none
  | inr (frame, rest, e) ↦
      rw (flush_loop-step s frame rest e reply rs, (stops frame rest).2) some≢none
]

flush_loop_returns :
    (s : FrameSender) (replies : List SendReply)
    → IsSender s
    → s.queued_bytes ≤ answers replies
    → (flush_loop s replies).result ≢ none
unfolding round
flush_loop_returns s [] v h = elim (List-cases s.queue) [
  | inl e ↦ rw (flush_loop-drained s [] e) some≢none
  | inr (frame, rest, e) ↦ absurd (
      omega (
        arith,
        owes s frame rest e v,
        front s frame rest e v,
        length-drop frame.offset frame.bytes,
      ))
]
flush_loop_returns s (refuses interrupted ∷ rs) v h = elim (List-cases s.queue) [
  | inl e ↦ rw (flush_loop-drained s _ e) some≢none
  | inr (frame, rest, e) ↦
      rw (flush_loop-step s frame rest e (refuses interrupted) rs, round)
        (flush_loop_returns s rs v h)
]
flush_loop_returns s (refuses would_block ∷ rs) v h =
    refused s (refuses would_block) rs (λ frame rest. (s, ok blocked, refl))
flush_loop_returns s (refuses stream_position_overflow ∷ rs) v h =
    refused s (refuses stream_position_overflow) rs
      (λ frame rest. (fail s, err (io stream_position_overflow), refl))
flush_loop_returns s (refuses (other n) ∷ rs) v h =
    refused s (refuses (other n)) rs (λ frame rest. (fail s, err (io (other n)), refl))
flush_loop_returns s (accepts n ∷ rs) v h = elim (List-cases s.queue) [
  | inl e ↦ rw (flush_loop-drained s _ e) some≢none
  | inr (frame, rest, e) ↦ elim (accepts-cases s frame rest n) [
    | inl z ↦ rw (flush_loop-step s frame rest e (accepts n) rs, z) some≢none
    | inr (nz, more) ↦
        rw (flush_loop-step s frame rest e (accepts n) rs, more)
          (flush_loop_returns (sent_some s frame rest (taken s frame rest n)) rs
            (sent_some-IsSender s frame rest _ e nz (omega arith) v)
            (omega
              (arith, owes s frame rest e v, counts-sent_some s frame rest (taken s frame rest n))))
  ]
]

flush-failed :
    (s : FrameSender) (replies : List SendReply)
    → s.failed ≡ true
    → flush s replies ≡ record { sender = s; messages = []; result = some (err poisoned) }
unfolding flush
flush-failed s replies f = ground arith

-- On a sender within its invariant `flush` returns as soon as the kernel has given as many answers,
-- `EINTR` aside, as there are bytes queued.
pub flush_returns :
    (s : FrameSender) (replies : List SendReply)
    → IsSender s
    → s.queued_bytes ≤ answers replies
    → (flush s replies).result ≢ none
flush_returns s replies v h = elim (Bool-cases s.failed) [
  | inl f ↦ rw (flush-failed s replies f) some≢none
  | inr f ↦ rw (flush-live s replies f) (flush_loop_returns s replies v h)
]
