-- ===== src/Frame/Recv/Invariant.antt =====
-- What holds of a `FrameReceiver` at every turn of its loop.
use pipewire_native_rs.Prelude.{ℕ, ◌+◌, ◌≤◌, ◌<◌, ◌≡◌, refl, List, [], length, take, All, arith}
use pipewire_native_rs.Prelude.Words.{usize_max}
use pipewire_native_rs.Frame.Limits.{FrameLimits, header_len, payload_limit}
use pipewire_native_rs.Frame.Header.{decode}
use pipewire_native_rs.Frame.Recv.{
  FrameReceiver, RecvState, header, payload, eof, failed, fail, clear, pending_fds, new_receiver,
}
use pipewire_native_rs.Frame.Recv.Batches.{IsOrdered}

abbrev pub AreBytes : List ℕ → Type 0
AreBytes = All (λ b. b < 256)

-- What each state says of the other fields.
abbrev pub InState : FrameReceiver → RecvState → Type 0
InState r header = r.byte_base + length r.bytes ≡ r.stream_end
InState r (payload h frame_start frame_end) =
    (r.byte_base + length r.bytes ≡ r.stream_end)
    × (h ≡ decode (take header_len r.bytes))
    × (header_len ≤ length r.bytes)
    × (frame_start ≡ r.byte_base)
    × (frame_end ≡ r.byte_base + header_len + h.payload_len)
    × (h.payload_len ≤ payload_limit r.limits)
    × (h.n_fds ≤ r.limits.max_frame_fds)
InState r eof = (r.bytes ≡ []) × (r.fd_batches ≡ [])
InState r failed = (r.bytes ≡ []) × (r.fd_batches ≡ [])

pub record IsReceiver (r : FrameReceiver) : Type 0 where
  pub bytes : AreBytes r.bytes
  pub batches : IsOrdered 0 r.stream_end r.fd_batches
  pub room : length r.bytes ≤ header_len + r.limits.max_payload
  pub fds_bound : pending_fds r.fd_batches ≤ r.limits.max_pending_fds
  pub pending_usize : r.limits.max_pending_fds < usize_max
  pub in_state : InState r r.state

pub new_receiver-IsReceiver :
    (limits : FrameLimits) → limits.max_pending_fds < usize_max → IsReceiver (new_receiver limits)
new_receiver-IsReceiver limits h = ground arith

-- `fail` leaves nothing behind in any state.
pub fail-IsReceiver : (r : FrameReceiver) → IsReceiver r → IsReceiver (fail r)
unfolding fail
fail-IsReceiver r v = ground arith

clear_state :
    (r : FrameReceiver) (s : RecvState)
    → InState
        (record r {
          bytes = [];
          fd_batches = [];
          byte_base = r.stream_end;
          state = elim s [ failed ↦ failed | eof ↦ eof | _ ↦ header ];
        })
        (elim s [ failed ↦ failed | eof ↦ eof | _ ↦ header ])
clear_state r header = omega arith
clear_state r (payload h a b) = omega arith
clear_state r eof = (refl, refl)
clear_state r failed = (refl, refl)

-- After `clear` the receiver is as good as new at its place in the stream, whatever it held, but a
-- closed or failed one stays so.
pub clear-IsReceiver : (r : FrameReceiver) → IsReceiver r → IsReceiver (clear r)
unfolding clear
clear-IsReceiver r v = record {
  pending_usize = v.pending_usize;
  bytes = tt;
  batches = tt;
  room = omega arith;
  fds_bound = omega arith;
  in_state = clear_state r r.state;
}
