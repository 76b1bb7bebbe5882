-- ===== src/Frame/Recv/Receive.antt =====
-- `FrameReceiver::receive`: the reading part of the loop, and the loop.

use pipewire_native_rs.Prelude.{
  ℕ, ◌+◌, ◌-◌, min, max, List, [], ◌∷◌, ◌++◌, none, some, Result, ok, err, length, is_empty, ltb,
  ◌==◌, if◌then◌else◌,
}
use pipewire_native_rs.Prelude.Words.{checked_add, saturating_add}
use pipewire_native_rs.Frame.Limits.{
  FrameError, io, would_block, stream_position_overflow, too_many_pending_fds,
  unexpected_fds_at_eof, truncated_frame, poisoned, header_len,
}
use pipewire_native_rs.Frame.Recv.{
  FrameReceiver, RecvState, header, payload, eof, failed, ReceiveOutcome, blocked, closed,
  pending_fds, fail, Return, returned, starved, wait, done, assemble,
}

-- The bytes and the descriptors of one successful `recv_once`.
abbrev pub Delivery : Type 0
Delivery = List ℕ × List ℕ

-- One call of `recv_once(socket, chunk_len, control_fds)`.
abbrev pub Call : Type 0
Call = ℕ → ℕ → Result FrameError Delivery

-- `self.limits.recv_chunk_bytes.max(1).min(room.max(1))`
abbrev pub chunk_len : FrameReceiver → ℕ
chunk_len r =
    min (max r.limits.recv_chunk_bytes 1)
      (max (saturating_add header_len r.limits.max_payload - length r.bytes) 1)

-- How a read ends: the loop goes on, or `receive` returns.
pub data ReadStep : Type 0 where
  more : FrameReceiver → Delivery → ReadStep
  finish : FrameReceiver → Result FrameError ReceiveOutcome → ReadStep

-- The length of the frame that an end of the stream cuts off.
abbrev pub needed : RecvState → ℕ
needed (payload h frame_start frame_end) = frame_end - frame_start
needed header = header_len
needed eof = header_len
needed failed = header_len

-- The stream has ended: `recv_once` gave no bytes.
unfoldable pub at_eof : FrameReceiver → ReadStep
at_eof r =
    if is_empty r.bytes
    then (if pending_fds r.fd_batches == 0
        then finish (record r { state = eof }) (ok closed)
        else finish (fail r) (err (unexpected_fds_at_eof (pending_fds r.fd_batches))))
    else finish (fail r) (err (truncated_frame (length r.bytes) (needed r.state)))

-- `recv_once` gave bytes, with the descriptors that came along.
unfoldable pub take_in : FrameReceiver → Delivery → ReadStep
take_in r (bytes, fds) =
    let pending = pending_fds r.fd_batches in
    if ltb r.limits.max_pending_fds (saturating_add pending (length fds))
    then finish (fail r)
        (err (too_many_pending_fds (pending + length fds) r.limits.max_pending_fds))
    else elim (checked_add r.stream_end (length bytes)) [
      | none ↦ finish (fail r) (err (io stream_position_overflow))
      | some stream_end ↦
          more
            (record r {
              stream_end = stream_end;
              bytes = r.bytes ++ bytes;
              fd_batches =
                  if is_empty fds
                  then r.fd_batches
                  else r.fd_batches ++ (record { at = r.stream_end; fds = fds } ∷ []);
            })
            (bytes, fds)
    ]

unfoldable pub settle : FrameReceiver → Result FrameError Delivery → ReadStep
settle r (ok ([], fds)) = at_eof r
settle r (ok (b ∷ bytes, fds)) = take_in r (b ∷ bytes, fds)
settle r (err (io would_block)) = finish r (ok blocked)
settle r (err e) = finish (fail r) (err e)

-- The rest of the loop's body, from the call of `recv_once` on.
unfoldable pub read : FrameReceiver → Call → ReadStep
read r call = settle r (call (chunk_len r) r.limits.recv_control_fds)

-- The receiver afterwards, what the socket delivered, and the result.
pub record Received : Type 0 where
  pub receiver : FrameReceiver
  pub deliveries : List Delivery
  pub result : Return

unfoldable pub receive_loop : FrameReceiver → List Call → Received
receive_loop r [] = elim (assemble r) [
  | wait r' ↦ record { receiver = r'; deliveries = []; result = starved }
  | done r' back ↦ record { receiver = r'; deliveries = []; result = back }
]
receive_loop r (call ∷ calls) = elim (assemble r) [
  | wait r' ↦ elim (read r' call) [
    | more r'' d ↦
        let rest = receive_loop r'' calls in record rest { deliveries = d ∷ rest.deliveries }
    | finish r'' back ↦ record { receiver = r''; deliveries = []; result = returned back }
  ]
  | done r' back ↦ record { receiver = r'; deliveries = []; result = back }
]

-- `FrameReceiver::receive`
unfoldable pub receive : FrameReceiver → List Call → Received
receive r calls = elim r.state [
  | failed ↦ record { receiver = r; deliveries = []; result = returned (err poisoned) }
  | eof ↦ record { receiver = r; deliveries = []; result = returned (ok closed) }
  | _ ↦ receive_loop r calls
]
