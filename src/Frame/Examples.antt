-- ===== src/Frame/Examples.antt =====
-- The framing layer on concrete frames.
use pipewire_native_rs.Prelude.{
  ℕ, ◌<◌, ◌≡◌, ◌≢◌, ◌⊎◌, inl, refl, false, List, [], ◌∷◌, ◌++◌, none, some, ok, err, length, All,
  arith, ltb, if◌then◌else◌,
}
use pipewire_native_rs.Frame.Limits.{
  FrameLimits, FrameError, header_len, poisoned, fd_already_taken, io, would_block, interrupted,
  other, truncated_frame,
}
use pipewire_native_rs.Frame.Header.{Header, IsHeader, encode, decode}
use pipewire_native_rs.Frame.Header.RoundTrip.{encode-decode, decode-encode}
use pipewire_native_rs.Frame.Fds.{FrameFds, get, take_fd}
use pipewire_native_rs.Frame.Fds.Laws.{take_fd_once}
use pipewire_native_rs.Frame.Send.{FrameSender, SendReply, accepts, refuses, enqueue, flush, clear}
use pipewire_native_rs.Frame.Send.Outbound.{OutboundFrame, new}
use pipewire_native_rs.Frame.Send.Pending.{stream, rights, IsSender}
use pipewire_native_rs.Frame.Send.Enqueue.{enqueue_lem, IsOutbound, new-IsOutbound}
use pipewire_native_rs.Frame.Send.Run.{RunLaw, flush-RunLaw}
use pipewire_native_rs.Frame.Send.Final as Final
use pipewire_native_rs.Frame.Send.Final.{
  SenderCall, enqueues, flushes, AllRefused, called_all, failed_forever,
}
use pipewire_native_rs.Frame.Send.Progress.{flush_returns}
use pipewire_native_rs.Frame.Recv.{FrameReceiver, header, failed, eof, returned, starved, closed}
use pipewire_native_rs.Frame.Control
use pipewire_native_rs.Frame.Control.{parse_control}
use pipewire_native_rs.Frame.Control.Message.{control_message, parse_control-control_message}
use pipewire_native_rs.Frame.Control.Safety.{IsSafe, parse_control-IsSafe}
use pipewire_native_rs.Frame.Recv
use pipewire_native_rs.Frame.Recv.Receive.{Call, receive}
use pipewire_native_rs.Frame.Recv.Invariant.{IsReceiver}
use pipewire_native_rs.Frame.Recv.Reads.{IsHonest}
use pipewire_native_rs.Frame.Recv.Law.{ReceiveLaw, receive-ReceiveLaw}
use pipewire_native_rs.Frame.Recv.Final as Last
use pipewire_native_rs.Frame.Recv.Final.{ReceiverCall, receives, AllAnswer, receive_final}
use pipewire_native_rs.Frame.Recv.Progress.{receive_returns}

abbrev head_bytes : List ℕ
head_bytes = 7 ∷ 0 ∷ 0 ∷ 0 ∷ 2 ∷ 0 ∷ 0 ∷ 3 ∷ 9 ∷ 0 ∷ 0 ∷ 0 ∷ 1 ∷ 0 ∷ 0 ∷ 0 ∷ []

abbrev small_header : Header
small_header = record { object_id = 7; opcode = 3; payload_len = 2; seq = 9; n_fds = 1 }

abbrev small_limits : FrameLimits
small_limits = record {
  max_payload = 2;
  max_frame_fds = 1;
  max_pending_fds = 4;
  recv_chunk_bytes = 8;
  recv_control_fds = 4;
  max_queued_bytes = 40;
  max_queued_fds = 4;
}

encode-decode_example : encode (decode head_bytes) ≡ ok head_bytes
encode-decode_example = encode-decode head_bytes refl (ground arith)

decode-encode_example :
    (decode head_bytes ≡ small_header)
    × (length head_bytes ≡ header_len)
    × All (λ b. b < 256) head_bytes
unfolding encode pipewire_native_rs.Frame.Header.u32_to_ne_bytes
decode-encode_example = decode-encode small_header {bytes = head_bytes} (ground arith) refl

abbrev two_fds : FrameFds
two_fds = some 5 ∷ some 6 ∷ []

abbrev one_left : FrameFds
one_left = none ∷ some 6 ∷ []

take_fd_once_example :
    (get two_fds 0 ≡ ok 5)
    × (take_fd one_left 0 ≡ (one_left, err (fd_already_taken 0)))
    × (get one_left 0 ≡ err (fd_already_taken 0))
    × (length one_left ≡ length two_fds)
    × ((other : ℕ) → 0 ≢ other → get one_left other ≡ get two_fds other)
unfolding take_fd
take_fd_once_example = take_fd_once two_fds 0 {fds' = one_left} {fd = 5} refl

abbrev small_frame : OutboundFrame
small_frame = record { header = small_header; bytes = head_bytes ++ (1 ∷ 2 ∷ []); fds = 5 ∷ [] }

new-IsOutbound_example : IsOutbound 7 3 9 (1 ∷ 2 ∷ []) (5 ∷ []) small_frame
unfolding new encode pipewire_native_rs.Frame.Header.u32_to_ne_bytes
new-IsOutbound_example =
    new-IsOutbound 7 3 9 (1 ∷ 2 ∷ []) (5 ∷ []) small_limits {frame = small_frame} (omega arith)
      (omega arith) (omega arith) (omega arith) refl

-- One frame is queued.
abbrev busy_sender : FrameSender
busy_sender = record {
  limits = small_limits;
  queue =
      record {
        bytes = head_bytes ++ (1 ∷ 2 ∷ []);
        offset = 0;
        fds = 5 ∷ [];
        ancillary_sent = false;
      }
      ∷ [];
  queued_bytes = 18;
  queued_fds = 1;
  failed = false;
}

abbrev short_writes : List SendReply
short_writes = accepts 10 ∷ refuses interrupted ∷ accepts 100 ∷ []

busy_sender-IsSender : IsSender busy_sender
busy_sender-IsSender = ground arith

flush-RunLaw_example : RunLaw busy_sender (flush busy_sender short_writes)
flush-RunLaw_example = flush-RunLaw busy_sender short_writes busy_sender-IsSender refl

abbrev byte_by_byte : List SendReply
byte_by_byte =
    accepts 1
    ∷ accepts 1
    ∷ accepts 1
    ∷ accepts 1
    ∷ accepts 1
    ∷ accepts 1
    ∷ accepts 1
    ∷ accepts 1
    ∷ accepts 1
    ∷ accepts 1
    ∷ accepts 1
    ∷ accepts 1
    ∷ accepts 1
    ∷ accepts 1
    ∷ accepts 1
    ∷ accepts 1
    ∷ accepts 1
    ∷ accepts 1
    ∷ []

flush_returns_example : (flush busy_sender byte_by_byte).result ≢ none
flush_returns_example = flush_returns busy_sender byte_by_byte busy_sender-IsSender (omega arith)

enqueue_lem_example :
    IsSender (enqueue busy_sender small_frame).0
    × (((enqueue busy_sender small_frame).1 ≡ ok tt)
          × ((stream (enqueue busy_sender small_frame).0.queue
                ≡ stream busy_sender.queue ++ small_frame.bytes)
              × (rights (enqueue busy_sender small_frame).0.queue
                  ≡ rights busy_sender.queue ++ small_frame.fds))
        ⊎ ((enqueue busy_sender small_frame).0 ≡ busy_sender)
          × ((e : FrameError) × ((enqueue busy_sender small_frame).1 ≡ err e)))
enqueue_lem_example =
    enqueue_lem busy_sender small_frame busy_sender-IsSender (ground arith) (omega arith)

-- The kernel breaks the connection.
abbrev broken_pipe : List SendReply
broken_pipe = accepts 5 ∷ refuses (other 32) ∷ []

abbrev later_calls : List SenderCall
later_calls = enqueues small_frame ∷ Final.clears ∷ flushes short_writes ∷ []

failed_forever_example :
    let lost = (flush busy_sender broken_pipe).sender in
    (lost.queue ≡ []) × AllRefused lost later_calls × (called_all lost later_calls ≡ lost)
unfolding flush pipewire_native_rs.Frame.Send.flush_loop pipewire_native_rs.Frame.Send.round
    pipewire_native_rs.Frame.Send.sent_some
failed_forever_example =
    failed_forever busy_sender broken_pipe later_calls {e = io (other 32)} busy_sender-IsSender refl
      refl

-- A header is buffered, and the descriptor that came with it.
abbrev busy_receiver : FrameReceiver
busy_receiver = record {
  limits = small_limits;
  state = header;
  bytes = head_bytes;
  byte_base = 0;
  stream_end = 16;
  fd_batches = record { at = 0; fds = 5 ∷ [] } ∷ [];
}

abbrev one_byte : Call
one_byte chunk control = if ltb chunk 1 then err (io would_block) else ok (8 ∷ [], [])

busy_receiver-IsReceiver : IsReceiver busy_receiver
busy_receiver-IsReceiver = ground arith

one_byte-IsHonest : IsHonest one_byte
one_byte-IsHonest chunk control d e = ground arith

receive-ReceiveLaw_example :
    ReceiveLaw busy_receiver (receive busy_receiver (one_byte ∷ one_byte ∷ []))
receive-ReceiveLaw_example =
    receive-ReceiveLaw busy_receiver (one_byte ∷ one_byte ∷ []) busy_receiver-IsReceiver tt
      (one_byte-IsHonest, (one_byte-IsHonest, tt))

receive_returns_example : (receive busy_receiver (one_byte ∷ one_byte ∷ [])).result ≢ starved
receive_returns_example =
    receive_returns busy_receiver (one_byte ∷ one_byte ∷ []) busy_receiver-IsReceiver tt
      (one_byte-IsHonest, (one_byte-IsHonest, tt)) (omega arith)

-- The peer closes the connection within a frame.
abbrev end_of_stream : Call
end_of_stream n m = ok ([], [])

abbrev later_receives : List ReceiverCall
later_receives = receives (one_byte ∷ []) ∷ Last.clears ∷ receives (one_byte ∷ []) ∷ []

end_of_stream-IsHonest : IsHonest end_of_stream
end_of_stream-IsHonest chunk control d e = ground arith

receive_final_example :
    AllAnswer
      (returned (err poisoned))
      (receive busy_receiver (end_of_stream ∷ [])).receiver
      later_receives
unfolding receive pipewire_native_rs.Frame.Recv.Receive.receive_loop Recv.assemble Recv.header_stage
    Recv.parse_header decode pipewire_native_rs.Frame.Header.u32_from_ne_bytes Recv.payload_stage
    pipewire_native_rs.Frame.Recv.Receive.read pipewire_native_rs.Frame.Recv.Receive.settle
    pipewire_native_rs.Frame.Recv.Receive.at_eof
receive_final_example =
    receive_final busy_receiver (end_of_stream ∷ []) later_receives (returned (err poisoned))
      busy_receiver-IsReceiver tt (end_of_stream-IsHonest, tt)
      (inl (truncated_frame 16 18, refl, refl))

-- One record with one descriptor, and half of a second record's header.
abbrev broken_control : List ℕ
broken_control =
    20 ∷ 0 ∷ 0 ∷ 0 ∷ 0 ∷ 0 ∷ 0 ∷ 0 ∷ 1 ∷ 0 ∷ 0 ∷ 0 ∷ 1 ∷ 0 ∷ 0 ∷ 0 ∷ 5 ∷ 0 ∷ 0 ∷ 0 ∷ 0 ∷ 0 ∷ 0 ∷ 0
    ∷ 20 ∷ 0 ∷ 0 ∷ 0 ∷ []

parse_control-IsSafe_example : IsSafe (parse_control broken_control 0)
parse_control-IsSafe_example = parse_control-IsSafe broken_control 0

parse_control-control_message_example :
    parse_control (control_message (5 ∷ 6 ∷ 7 ∷ [])) 0 ≡ Control.rights (5 ∷ 6 ∷ 7 ∷ [])
parse_control-control_message_example =
    parse_control-control_message (5 ∷ 6 ∷ 7 ∷ []) (omega arith) (ground arith)
