-- ===== src/Frame/Send/Stream.antt =====
-- `FrameSender::flush` sends what is queued, in order, each byte and each descriptor once.
use pipewire_native_rs.Prelude.{
  ℕ, min, ◌≡◌, ◌≢◌, ◌⊎◌, inl, inr, refl, sym, subst, true, false, List, [], ◌∷◌, ◌++◌, append-nil,
  append_assoc, Option, none, some, Result, ok, err, length, take, drop, arith, if◌then◌else◌, All,
}
use native.Mathlib.Decide.{ℕ_discrete}
use pipewire_native_rs.Frame.Limits.{
  FrameError, interrupted, would_block, stream_position_overflow, other, io, write_zero,
}
use pipewire_native_rs.Frame.Send.{
  SendFrame, FrameSender, FlushOutcome, drained, blocked, SendReply, accepts, refuses, Sent,
  FlushStep, again, stop, include_fds, sent_some, round, fail,
}
use pipewire_native_rs.Frame.Send.Pending.{
  stream, rights, IsPending, IsSender, stream-sent_some, rights-sent_some, sent_some-IsSender,
}

-- The bytes and the descriptors of the messages that left, in order.
abbrev pub sent_bytes : List Sent → List ℕ
sent_bytes [] = []
sent_bytes (m ∷ ms) = m.bytes ++ sent_bytes ms

abbrev pub sent_rights : List Sent → List ℕ
sent_rights [] = []
sent_rights (m ∷ ms) = m.rights ++ sent_rights ms

pub sent_bytes-append : (ms ns : List Sent) → sent_bytes (ms ++ ns) ≡ sent_bytes ms ++ sent_bytes ns
sent_bytes-append [] ns = refl
sent_bytes-append (m ∷ ms) ns =
    rw (sent_bytes-append ms ns) (sym (append_assoc _ (sent_bytes ms) _))

pub sent_rights-append :
    (ms ns : List Sent) → sent_rights (ms ++ ns) ≡ sent_rights ms ++ sent_rights ns
sent_rights-append [] ns = refl
sent_rights-append (m ∷ ms) ns =
    rw (sent_rights-append ms ns) (sym (append_assoc _ (sent_rights ms) _))

-- `ms` left, and what `s'` still holds is the rest of what `s` held.
abbrev pub Conserves : FrameSender → FrameSender → List Sent → Type 0
Conserves s s' ms =
    (sent_bytes ms ++ stream s'.queue ≡ stream s.queue)
    × (sent_rights ms ++ rights s'.queue ≡ rights s.queue)

-- The same after a failure, where the rest is dropped.
abbrev pub Drops : FrameSender → List Sent → Type 0
Drops s ms =
    (bytes fds : List ℕ) × (sent_bytes ms ++ bytes ≡ stream s.queue)
    × (sent_rights ms ++ fds ≡ rights s.queue)

-- What each result of `flush` says of the sender `s'` that it leaves, started at `s`.
abbrev pub Ends :
    FrameSender → FrameSender → List Sent → Option (Result FrameError FlushOutcome) → Type 0
Ends s s' ms none = (s'.failed ≡ false) × Conserves s s' ms
Ends s s' ms (some (ok drained)) = (s'.failed ≡ false) × (s'.queue ≡ []) × Conserves s s' ms
Ends s s' ms (some (ok blocked)) = (s'.failed ≡ false) × (s'.queue ≢ []) × Conserves s s' ms
Ends s s' ms (some (err e)) = (s'.failed ≡ true) × (s'.queue ≡ []) × Drops s ms

abbrev pub StepLaw : FrameSender → FlushStep → Type 0
StepLaw s (again s' ms) = IsSender s' × (s'.failed ≡ s.failed) × Conserves s s' ms
StepLaw s (stop s' ms r) =
    (ms ≡ []) × ((r ≡ ok blocked) × (s' ≡ s) ⊎ ((e : FrameError) × (r ≡ err e) × (s' ≡ fail s)))

module _ (s : FrameSender) (frame : SendFrame) (rest : List SendFrame) (n : ℕ) where
  -- The number of bytes that `sendmsg` takes.
  abbrev pub taken : ℕ
  taken = min n (length (drop frame.offset frame.bytes))

  abbrev pub message : Sent
  message = record {
    bytes = take taken (drop frame.offset frame.bytes);
    rights = if include_fds frame then frame.fds else [];
  }

  pub accepts-cases :
      (round s frame rest (accepts n) ≡ stop (fail s) [] (err write_zero))
      ⊎ ((taken ≢ 0)
          × (round s frame rest (accepts n) ≡ again (sent_some s frame rest taken) (message ∷ [])))
  unfolding round
  accepts-cases = elim (ℕ_discrete taken 0) [
    | yes z ↦ inl (ground arith)
    | no nz ↦ inr (nz, ground arith)
  ]

  accepts-StepLaw : s.queue ≡ frame ∷ rest → IsSender s → StepLaw s (round s frame rest (accepts n))
  unfolding sent_some
  accepts-StepLaw e v = elim accepts-cases [
    | inl z ↦ rw z (refl, inr (write_zero, refl, refl))
    | inr (nz, more) ↦ rw more (
      sent_some-IsSender s frame rest taken e nz (omega arith) v,
      refl,
      (
        rw (append-nil, e) (stream-sent_some s frame rest taken (omega arith)),
        rw (append-nil, e)
            (rights-sent_some s frame rest taken (subst (All IsPending) e v.pending).0),
      ),
    )
  ]

pub round-StepLaw :
    (s : FrameSender) (frame : SendFrame) (rest : List SendFrame) (reply : SendReply)
    → s.queue ≡ frame ∷ rest
    → IsSender s
    → StepLaw s (round s frame rest reply)
unfolding round
round-StepLaw s frame rest (accepts n) e v = accepts-StepLaw s frame rest n e v
round-StepLaw s frame rest (refuses interrupted) e v = (v, refl, (refl, refl))
round-StepLaw s frame rest (refuses would_block) e v = (refl, inl (refl, refl))
round-StepLaw s frame rest (refuses stream_position_overflow) e v =
    (refl, inr (io stream_position_overflow, refl, refl))
round-StepLaw s frame rest (refuses (other n)) e v = (refl, inr (io (other n), refl, refl))
