-- ===== src/Frame/Send/Outbound.antt =====
-- `OutboundFrame`: a frame encoded for sending.
use pipewire_native_rs.Prelude.{
  ℕ, ◌^◌, ◌%◌, List, [], ◌∷◌, ◌++◌, Result, ok, ◌>>=◌, ◌>>◌, reject, map_err, length, ltb,
}
use pipewire_native_rs.Frame.Limits.{
  FrameLimits, FrameError, IoError, io, payload_too_large, too_many_frame_fds, payload_limit,
}
use pipewire_native_rs.Frame.Header.{Header, encode}

pub record OutboundFrame : Type 0 where
  pub header : Header
  pub bytes : List ℕ
  pub fds : List ℕ

-- `OutboundFrame::new`; `len() as u32` keeps the low 32 bits.
unfoldable pub new : ℕ → ℕ → ℕ → List ℕ → List ℕ → FrameLimits → Result FrameError OutboundFrame
new object_id opcode seq payload fds limits = do
  reject (ltb (payload_limit limits) (length payload))
      (payload_too_large (length payload) (payload_limit limits))
  reject (ltb limits.max_frame_fds (length fds))
      (too_many_frame_fds (length fds) limits.max_frame_fds)
  let header : Header = record {
    object_id = object_id;
    opcode = opcode;
    payload_len = length payload % 2 ^ 32;
    seq = seq;
    n_fds = length fds % 2 ^ 32;
  }
  head ← encode header
  ok (record { header = header; bytes = head ++ payload; fds = fds })

-- `try_clone_to_owned` of each descriptor, up to the first that fails.
unfoldable pub clone_all : (ℕ → Result IoError ℕ) → List ℕ → Result IoError (List ℕ)
clone_all clone [] = ok []
clone_all clone (fd ∷ fds) =
    let rest = clone_all clone fds in clone fd >>= λ copy. rest >>= λ copies. ok (copy ∷ copies)

-- `OutboundFrame::duplicate_fds`
unfoldable pub duplicate_fds :
    (ℕ → Result IoError ℕ)
    → ℕ
    → ℕ
    → ℕ
    → List ℕ
    → List ℕ
    → FrameLimits
    → Result FrameError OutboundFrame
duplicate_fds clone object_id opcode seq payload fds limits = do
  duplicates ← map_err io (clone_all clone fds)
  new object_id opcode seq payload duplicates limits
