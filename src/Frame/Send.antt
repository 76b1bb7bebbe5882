-- ===== src/Frame/Send.antt =====
-- protocol/src/native/frame/send.rs: frames on their way out. The socket is the list of the
-- answers that `sendmsg` gives to the calls made of it, in order.
pub mod Outbound
pub mod Pending
pub mod Enqueue
pub mod Stream
pub mod Run
pub mod Final
pub mod Progress
use pipewire_native_rs.Prelude.{
  ℕ, ◌+◌, ◌-◌, min, ◌≡◌, Bool, true, false, not, ◌&&◌, ◌==◌, if◌then◌else◌, Option, none, some,
  take, drop, List, [], ◌∷◌, ◌++◌, Result, ok, err, ◌>>=◌, ◌>>◌, reject, length, ltb, is_empty,
}
use pipewire_native_rs.Prelude.Words.{saturating_add}
use pipewire_native_rs.Frame.Limits.{
  FrameLimits, FrameError, IoError, interrupted, would_block, io, write_zero, payload_too_large,
  too_many_frame_fds, send_queue_full, send_fd_queue_full, poisoned, payload_limit,
}
use pipewire_native_rs.Frame.Send.Outbound.{OutboundFrame}

pub record SendFrame : Type 0 where
  pub bytes : List ℕ
  pub offset : ℕ
  pub fds : List ℕ
  pub ancillary_sent : Bool

pub record FrameSender : Type 0 where
  pub limits : FrameLimits
  pub queue : List SendFrame
  pub queued_bytes : ℕ
  pub queued_fds : ℕ
  pub failed : Bool

-- `FrameSender::new`
abbrev pub new_sender : FrameLimits → FrameSender
new_sender limits = record {
  limits = limits;
  queue = [];
  queued_bytes = 0;
  queued_fds = 0;
  failed = false;
}

-- The tests of `FrameSender::enqueue`, before it changes anything.
unfoldable pub admit : FrameSender → OutboundFrame → Result FrameError (Unit {0})
admit s frame = do
  reject s.failed poisoned
  reject (ltb (payload_limit s.limits) frame.header.payload_len)
      (payload_too_large frame.header.payload_len (payload_limit s.limits))
  reject (ltb s.limits.max_frame_fds (length frame.fds))
      (too_many_frame_fds (length frame.fds) s.limits.max_frame_fds)
  reject (ltb s.limits.max_queued_bytes (saturating_add s.queued_bytes (length frame.bytes)))
      (send_queue_full s.queued_bytes (length frame.bytes) s.limits.max_queued_bytes)
  reject (ltb s.limits.max_queued_fds (saturating_add s.queued_fds (length frame.fds)))
      (send_fd_queue_full s.queued_fds (length frame.fds) s.limits.max_queued_fds)

-- `FrameSender::enqueue`: the sender afterwards, and the result.
unfoldable pub enqueue : FrameSender → OutboundFrame → FrameSender × Result FrameError (Unit {0})
enqueue s frame = elim (admit s frame) [
  | err e ↦ (s, err e)
  | ok _ ↦ (
    record s {
      queued_bytes = s.queued_bytes + length frame.bytes;
      queued_fds = s.queued_fds + length frame.fds;
      queue =
          s.queue
          ++ (record { bytes = frame.bytes; offset = 0; fds = frame.fds; ancillary_sent = false }
              ∷ []);
    },
    ok tt,
  )
]

-- `FrameSender::clear`
unfoldable pub clear : FrameSender → FrameSender
clear s = record s { queue = []; queued_bytes = 0; queued_fds = 0 }

-- The sender that `FrameSender::fail` leaves; the caller returns the error.
unfoldable pub fail : FrameSender → FrameSender
unfolding clear
fail s = record (clear s) { failed = true }

pub data FlushOutcome : Type 0 where
  drained blocked : FlushOutcome

-- What the kernel does with one `sendmsg` of some bytes: `accepts n` takes the first n of them, or
-- all if they are fewer; `refuses` is an error.
pub data SendReply : Type 0 where
  accepts : ℕ → SendReply
  refuses : IoError → SendReply

-- A `sendmsg` that the kernel took: the bytes and the descriptors that left the process.
pub record Sent : Type 0 where
  pub bytes : List ℕ
  pub rights : List ℕ

-- What one call of `send_once` leads to in `flush`: another round, or its return.
pub data FlushStep : Type 0 where
  again : FrameSender → List Sent → FlushStep
  stop : FrameSender → List Sent → Result FrameError FlushOutcome → FlushStep

-- `!frame.ancillary_sent && !frame.fds.is_empty()`
abbrev pub include_fds : SendFrame → Bool
include_fds frame = not frame.ancillary_sent && not (is_empty frame.fds)

-- The front frame after `n` of its bytes were sent.
unfoldable pub advance : SendFrame → ℕ → SendFrame
advance frame n = record frame {
  ancillary_sent = if include_fds frame then true else frame.ancillary_sent;
  fds = if include_fds frame then [] else frame.fds;
  offset = frame.offset + n;
}

-- The rest of a round of `flush` once `sent` bytes of the front frame went out.
unfoldable pub sent_some : FrameSender → SendFrame → List SendFrame → ℕ → FrameSender
unfolding advance
sent_some s frame rest n = record s {
  queued_fds = if include_fds frame then s.queued_fds - length frame.fds else s.queued_fds;
  queued_bytes = s.queued_bytes - n;
  queue = if frame.offset + n == length frame.bytes then rest else advance frame n ∷ rest;
}

-- A round of `flush` at the front frame, with the kernel's answer to `send_once`.
unfoldable pub round : FrameSender → SendFrame → List SendFrame → SendReply → FlushStep
round s frame rest (refuses interrupted) = again s []
round s frame rest (refuses would_block) = stop s [] (ok blocked)
round s frame rest (refuses e) = stop (fail s) [] (err (io e))
round s frame rest (accepts n) =
    let left = drop frame.offset frame.bytes in
    let n' = min n (length left) in
    if n' == 0
    then stop (fail s) [] (err write_zero)
    else again (sent_some s frame rest n')
        (record { bytes = take n' left; rights = if include_fds frame then frame.fds else [] } ∷ [])

-- The sender after `flush`, the messages that left, and the result: `none` while the answers given
-- do not reach to its return.
pub record Flushed : Type 0 where
  pub sender : FrameSender
  pub messages : List Sent
  pub result : Option (Result FrameError FlushOutcome)

abbrev before : List Sent → Flushed → Flushed
before ms r = record r { messages = ms ++ r.messages }

-- The loop of `flush`; the answers are used up one by one.
unfoldable pub flush_loop : FrameSender → List SendReply → Flushed
flush_loop s [] = elim s.queue [
  | [] ↦ record { sender = s; messages = []; result = some (ok drained) }
  | _ ∷ _ ↦ record { sender = s; messages = []; result = none }
]
flush_loop s (reply ∷ replies) = elim s.queue [
  | [] ↦ record { sender = s; messages = []; result = some (ok drained) }
  | frame ∷ rest ↦ elim (round s frame rest reply) [
    | again s' ms ↦ before ms (flush_loop s' replies)
    | stop s' ms r ↦ record { sender = s'; messages = ms; result = some r }
  ]
]

-- `FrameSender::flush`
unfoldable pub flush : FrameSender → List SendReply → Flushed
flush s replies =
    if s.failed
    then record { sender = s; messages = []; result = some (err poisoned) }
    else flush_loop s replies
