-- ===== src/Frame/Send/Run.antt =====
-- `FrameSender::flush` as a whole: the law of a run, from the law of a round.
use pipewire_native_rs.Prelude.{
  ◌≡◌, inl, inr, refl, ap, ◌∙◌, false, List, [], ◌∷◌, ◌++◌, append_assoc, Option, none, some,
  Result, ok, err, arith, List-cases,
}
use pipewire_native_rs.Frame.Limits.{FrameError}
use pipewire_native_rs.Frame.Send.{
  SendFrame, FrameSender, FlushOutcome, drained, blocked, SendReply, Sent, FlushStep, again, stop,
  round, Flushed, flush_loop, flush, fail,
}
use pipewire_native_rs.Frame.Send.Pending.{stream, rights, IsSender, fail-IsSender}
use pipewire_native_rs.Frame.Send.Stream.{
  sent_bytes-append, sent_rights-append, Conserves, Ends, StepLaw, round-StepLaw,
}

Conserves-trans :
    (s t u : FrameSender) (ms ns : List Sent)
    → Conserves s t ms
    → Conserves t u ns
    → Conserves s u (ms ++ ns)
Conserves-trans s t u ms ns c d =
    (rw (sent_bytes-append, append_assoc, d.0) c.0, rw (sent_rights-append, append_assoc, d.1) c.1)

before-Ends :
    (s t u : FrameSender) (ms ns : List Sent) (r : Option (Result FrameError FlushOutcome))
    → Conserves s t ms
    → Ends t u ns r
    → Ends s u (ms ++ ns) r
before-Ends s t u ms ns none c e = (e.0, Conserves-trans s t u ms ns c e.1)
before-Ends s t u ms ns (some (ok drained)) c e = (e.0, e.1, Conserves-trans s t u ms ns c e.2)
before-Ends s t u ms ns (some (ok blocked)) c e = (e.0, e.1, Conserves-trans s t u ms ns c e.2)
before-Ends s t u ms ns (some (err x)) c (f, q, (bs, fs, b, d)) = (
  f,
  q,
  (
    bs,
    fs,
    rw (sent_bytes-append, append_assoc, b) c.0,
    rw (sent_rights-append, append_assoc, d) c.1,
  ),
)

-- The law of a whole run: the invariant holds, and the result is as `Ends` says.
pub record RunLaw (s : FrameSender) (out : Flushed) : Type 0 where
  pub valid : IsSender out.sender
  pub ends : Ends s out.sender out.messages out.result

empty-RunLaw :
    (s : FrameSender) (r : Option (Result FrameError FlushOutcome))
    → IsSender s
    → Ends s s [] r
    → RunLaw s (record { sender = s; messages = []; result = r })
empty-RunLaw s r v e = record { valid = v; ends = e }

step-RunLaw :
    (s : FrameSender) (frame : SendFrame) (rest : List SendFrame) (step : FlushStep)
    (next : FrameSender → Flushed)
    → s.queue ≡ frame ∷ rest
    → IsSender s
    → s.failed ≡ false
    → StepLaw s step
    → ((t : FrameSender) → IsSender t → t.failed ≡ false → RunLaw t (next t))
    → RunLaw s (elim step [
      | again t ms ↦ record (next t) { messages = ms ++ (next t).messages }
      | stop t ms r ↦ record { sender = t; messages = ms; result = some r }
    ])
unfolding fail
step-RunLaw s frame rest (again t ms) next e v f (w, g, c) ih =
    let tail = ih t w (g ∙ f) in
    record {
      valid = tail.valid;
      ends = before-Ends s t (next t).sender ms (next t).messages (next t).result c tail.ends;
    }
step-RunLaw s frame rest (stop t ms r) next e v f (m, inl (b, same)) ih =
    rw (m, b, same) (record { valid = v; ends = (f, (λ nil. cc), (refl, refl)) })
step-RunLaw s frame rest (stop t ms r) next e v f (m, inr (x, b, lost)) ih =
    rw (m, b, lost)
      (record {
        valid = fail-IsSender s;
        ends = (refl, refl, (stream s.queue, rights s.queue, refl, refl));
      })

pub flush_loop-drained :
    (s : FrameSender) (replies : List SendReply)
    → s.queue ≡ []
    → flush_loop s replies ≡ record { sender = s; messages = []; result = some (ok drained) }
unfolding flush_loop
flush_loop-drained s [] e = ground arith
flush_loop-drained s (r ∷ rs) e = ground arith

module _ (s : FrameSender) (frame : SendFrame) (rest : List SendFrame)
    (e : s.queue ≡ frame ∷ rest) where
  pub flush_loop-starved : flush_loop s [] ≡ record { sender = s; messages = []; result = none }
  unfolding flush_loop
  flush_loop-starved = ground arith

  pub flush_loop-step :
      (reply : SendReply) (replies : List SendReply)
      → flush_loop s (reply ∷ replies) ≡ (elim (round s frame rest reply) [
        | again t ms ↦ record (flush_loop t replies) {
          messages = ms ++ (flush_loop t replies).messages;
        }
        | stop t ms r ↦ record { sender = t; messages = ms; result = some r }
      ])
  unfolding flush_loop
  flush_loop-step reply replies =
      ap {B = Flushed}
        (λ q. elim q [
          | [] ↦ record { sender = s; messages = []; result = some (ok drained) }
          | front ∷ behind ↦ elim (round s front behind reply) [
            | again t ms ↦ record (flush_loop t replies) {
              messages = ms ++ (flush_loop t replies).messages;
            }
            | stop t ms r ↦ record { sender = t; messages = ms; result = some r }
          ]
        ])
        e

flush_loop-RunLaw :
    (s : FrameSender) (replies : List SendReply)
    → IsSender s
    → s.failed ≡ false
    → RunLaw s (flush_loop s replies)
flush_loop-RunLaw s [] v f = elim (List-cases s.queue) [
  | inl e ↦ rw (flush_loop-drained s [] e) (empty-RunLaw s _ v (f, e, (refl, refl)))
  | inr (frame, rest, e) ↦
      rw (flush_loop-starved s frame rest e) (empty-RunLaw s none v (f, (refl, refl)))
]
flush_loop-RunLaw s (reply ∷ replies) v f = elim (List-cases s.queue) [
  | inl e ↦ rw (flush_loop-drained s (reply ∷ replies) e) (empty-RunLaw s _ v (f, e, (refl, refl)))
  | inr (frame, rest, e) ↦ rw (flush_loop-step s frame rest e reply replies) (
      step-RunLaw s frame rest (round s frame rest reply) (λ t. flush_loop t replies) e v f
        (round-StepLaw s frame rest reply e v) (λ t w g. flush_loop-RunLaw t replies w g))
]

pub flush-live :
    (s : FrameSender) (replies : List SendReply)
    → s.failed ≡ false
    → flush s replies ≡ flush_loop s replies
unfolding flush
flush-live s replies f = ground arith

-- On a sender within its invariant that has not failed, whatever the kernel answers, `flush` keeps
-- the invariant, and what left the process, followed by what is still queued, is what was queued,
-- bytes and descriptors alike. It reports `Drained` with nothing queued and `WouldBlock` with
-- something queued; on an error what had left is a first part of what was queued, and the sender is
-- empty and failed.
pub flush-RunLaw :
    (s : FrameSender) (replies : List SendReply)
    → IsSender s
    → s.failed ≡ false
    → RunLaw s (flush s replies)
flush-RunLaw s replies v f = rw (flush-live s replies f) (flush_loop-RunLaw s replies v f)
