-- ===== src/Frame/Recv.antt =====
-- protocol/src/native/frame/recv.rs: the receiving state machine. The socket is the list of the
-- calls of `recv_once` that `receive` makes, each a function of its two size arguments.
pub mod Batches
pub mod Invariant
pub mod Assembly
pub mod Headers
pub mod Receive
pub mod Reads
pub mod Law
pub mod Final
pub mod Progress
use pipewire_native_rs.Prelude.{
  ℕ, ◌+◌, ◌-◌, min, max, ◌≡◌, Bool, true, false, List, [], ◌∷◌, ◌++◌, map, Option, none, some,
  Result, ok, err, length, take, drop, is_empty, ltb, leb, ◌==◌, if◌then◌else◌,
}
use pipewire_native_rs.Prelude.Words.{checked_add, saturating_add}
use pipewire_native_rs.Frame.Limits.{
  FrameLimits, FrameError, io, would_block, stream_position_overflow, payload_too_large,
  too_many_frame_fds, too_many_pending_fds, missing_fds, unexpected_fds_at_eof, truncated_frame,
  poisoned, header_len, payload_limit,
}
use pipewire_native_rs.Frame.Header.{Header, decode}
use pipewire_native_rs.Frame.Fds.{ReceivedFrame}

pub data ReceiveOutcome : Type 0 where
  frame : ReceivedFrame → ReceiveOutcome
  blocked closed : ReceiveOutcome

-- The descriptors that came with the bytes from stream position `at` on.
pub record FdBatch : Type 0 where
  pub at : ℕ
  pub fds : List ℕ

pub data RecvState : Type 0 where
  header : RecvState
  payload : Header → ℕ → ℕ → RecvState
  eof failed : RecvState

pub record FrameReceiver : Type 0 where
  pub limits : FrameLimits
  pub state : RecvState
  pub bytes : List ℕ
  pub byte_base : ℕ
  pub stream_end : ℕ
  pub fd_batches : List FdBatch

-- `FrameReceiver::new`
abbrev pub new_receiver : FrameLimits → FrameReceiver
new_receiver limits = record {
  limits = limits;
  state = header;
  bytes = [];
  byte_base = 0;
  stream_end = 0;
  fd_batches = [];
}

-- `FrameReceiver::pending_fds`
abbrev pub pending_fds : List FdBatch → ℕ
pending_fds [] = 0
pending_fds (b ∷ bs) = length b.fds + pending_fds bs

-- `FrameReceiver::clear`
unfoldable pub clear : FrameReceiver → FrameReceiver
clear r = record r {
  bytes = [];
  fd_batches = [];
  byte_base = r.stream_end;
  state = elim r.state [ failed ↦ failed | eof ↦ eof | _ ↦ header ];
}

-- The receiver that `FrameReceiver::fail` leaves; the caller returns the error.
unfoldable pub fail : FrameReceiver → FrameReceiver
fail r = record r { bytes = []; fd_batches = []; state = failed }

-- How a part of the loop of `receive` ends: it goes on with `r`, it returns `self.fail(e)`, or it
-- returns `Err(e)` as it is, through `?`.
pub data Stage : Type 0 where
  go : FrameReceiver → Stage
  fails : FrameError → Stage
  returns : FrameError → Stage

-- The header is complete: check it and compute where its frame ends.
unfoldable pub parse_header : FrameReceiver → Stage
parse_header r =
    let h = decode (take header_len r.bytes) in
    if ltb (payload_limit r.limits) h.payload_len
    then fails (payload_too_large h.payload_len (payload_limit r.limits))
    else if ltb r.limits.max_frame_fds h.n_fds
    then fails (too_many_frame_fds h.n_fds r.limits.max_frame_fds)
    else elim (checked_add header_len h.payload_len) [
      | none ↦ returns (payload_too_large h.payload_len r.limits.max_payload)
      | some frame_len ↦ elim (checked_add r.byte_base frame_len) [
        | none ↦ fails (truncated_frame (length r.bytes) frame_len)
        | some frame_end ↦ go (record r { state = payload h r.byte_base frame_end })
      ]
    ]

-- The first `if` of the loop.
unfoldable pub header_stage : FrameReceiver → Stage
header_stage r = elim r.state [
  | header ↦ if leb header_len (length r.bytes) then parse_header r else go r
  | _ ↦ go r
]

-- The number of pending descriptors that came before the frame's end.
abbrev pub available : ℕ → List FdBatch → ℕ
available frame_end [] = 0
available frame_end (b ∷ bs) =
    (if ltb b.at frame_end then length b.fds else 0) + available frame_end bs

abbrev prepend : List ℕ → Option (List ℕ × List FdBatch) → Option (List ℕ × List FdBatch)
prepend fds none = none
prepend fds (some (more, bs)) = some (fds ++ more, bs)

-- The loop that moves `n` descriptors from the batches to the frame, with the batches that are
-- left. `none` stands for its two panics: no batch is left, or the front one came too late.
unfoldable pub take_fds : ℕ → ℕ → List FdBatch → Option (List ℕ × List FdBatch)
take_fds n frame_end [] = if n == 0 then some ([], []) else none
take_fds n frame_end (b ∷ bs) =
    let left = drop n b.fds in
    let more = prepend (take n b.fds) (take_fds (n - length b.fds) frame_end bs) in
    if n == 0
    then some ([], b ∷ bs)
    else if leb frame_end b.at
    then none
    else if is_empty left
    then more
    else some (take n b.fds, record b { fds = left } ∷ bs)

-- What `receive` comes back with; `starved` while the calls given do not reach to its return.
pub data Return : Type 0 where
  returned : Result FrameError ReceiveOutcome → Return
  starved panicked : Return

-- Whether the loop has to read from the socket, or returns before that.
pub data Assembled : Type 0 where
  wait : FrameReceiver → Assembled
  done : FrameReceiver → Return → Assembled

-- All bytes of the frame are there.
unfoldable pub emit : FrameReceiver → Header → ℕ → Assembled
emit r h frame_end =
    if ltb (available frame_end r.fd_batches) h.n_fds
    then done (fail r) (returned (err (missing_fds h.n_fds (available frame_end r.fd_batches))))
    else elim (take_fds h.n_fds frame_end r.fd_batches) [
      | none ↦ done r panicked
      | some (fds, batches) ↦
          done
            (record r {
              bytes = drop h.payload_len (drop header_len r.bytes);
              byte_base = frame_end;
              fd_batches = batches;
              state = header;
            })
            (returned (
              ok (
                frame (record {
                  header = h;
                  payload = take h.payload_len (drop header_len r.bytes);
                  fds = map some fds;
                }))))
    ]

-- The second `if` of the loop.
unfoldable pub payload_stage : FrameReceiver → Assembled
payload_stage r = elim r.state [
  | payload h frame_start frame_end ↦
      if leb (frame_end - frame_start) (length r.bytes) then emit r h frame_end else wait r
  | _ ↦ wait r
]

unfoldable pub assemble : FrameReceiver → Assembled
assemble r = elim (header_stage r) [
  | go r' ↦ payload_stage r'
  | fails e ↦ done (fail r) (returned (err e))
  | returns e ↦ done r (returned (err e))
]
