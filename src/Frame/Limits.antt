-- ===== src/Frame/Limits.antt =====
-- protocol/src/native/frame/mod.rs: the limits and the error type of the framing layer.
use pipewire_native_rs.Prelude.{ℕ, ◌*◌, min}

abbrev pub header_len : ℕ
header_len = 16

abbrev pub wire_max_payload : ℕ
wire_max_payload = 0x00ff_ffff

pub record FrameLimits : Type 0 where
  pub max_payload : ℕ
  pub max_frame_fds : ℕ
  pub max_pending_fds : ℕ
  pub recv_chunk_bytes : ℕ
  pub recv_control_fds : ℕ
  pub max_queued_bytes : ℕ
  pub max_queued_fds : ℕ

-- `FrameLimits::default`
abbrev pub default_limits : FrameLimits
default_limits = record {
  max_payload = wire_max_payload;
  max_frame_fds = 1024;
  max_pending_fds = 1024;
  recv_chunk_bytes = 32 * 1024;
  recv_control_fds = 64;
  max_queued_bytes = wire_max_payload * 4;
  max_queued_fds = 1024;
}

-- `limits.max_payload.min(WIRE_MAX_PAYLOAD)`
abbrev pub payload_limit : FrameLimits → ℕ
payload_limit limits = min limits.max_payload wire_max_payload

-- The error kinds of `std::io` that the framing code tells apart, and the one that it makes.
pub data IoError : Type 0 where
  interrupted would_block stream_position_overflow : IoError
  other : ℕ → IoError

-- `declared`, `limit` and the like stand in the order of the source's fields.
pub data FrameError : Type 0 where
  io : IoError → FrameError
  payload_too_large : ℕ → ℕ → FrameError
  too_many_frame_fds : ℕ → ℕ → FrameError
  too_many_pending_fds : ℕ → ℕ → FrameError
  send_queue_full : ℕ → ℕ → ℕ → FrameError
  send_fd_queue_full : ℕ → ℕ → ℕ → FrameError
  truncated_control malformed_control : FrameError
  missing_fds : ℕ → ℕ → FrameError
  unexpected_fds_at_eof : ℕ → FrameError
  truncated_frame : ℕ → ℕ → FrameError
  invalid_fd_index : ℕ → ℕ → FrameError
  fd_already_taken : ℕ → FrameError
  write_zero poisoned : FrameError
