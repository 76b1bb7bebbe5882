-- ===== src/Frame/Fds.antt =====
-- protocol/src/native/frame/mod.rs: `FrameFds` and `ReceivedFrame`. A descriptor is its number.
pub mod Laws
use pipewire_native_rs.Prelude.{
  ℕ, ◌≡◌, List, Option, none, some, Result, ok, err, length, get_elem?, set,
}
use pipewire_native_rs.Frame.Limits.{FrameError, invalid_fd_index, fd_already_taken}
use pipewire_native_rs.Frame.Header.{Header}

abbrev pub FrameFds : Type 0
FrameFds = List (Option ℕ)

pub record ReceivedFrame : Type 0 where
  pub header : Header
  pub payload : List ℕ
  pub fds : FrameFds

-- `FrameFds::get`
unfoldable pub get : FrameFds → ℕ → Result FrameError ℕ
get fds index = elim (get_elem? fds index) [
  | none ↦ err (invalid_fd_index index (length fds))
  | some none ↦ err (fd_already_taken index)
  | some (some fd) ↦ ok fd
]

-- `FrameFds::take`: the collection afterwards, and the result.
unfoldable pub take_fd : FrameFds → ℕ → FrameFds × Result FrameError ℕ
take_fd fds index = elim (get_elem? fds index) [
  | none ↦ (fds, err (invalid_fd_index index (length fds)))
  | some none ↦ (fds, err (fd_already_taken index))
  | some (some fd) ↦ (set fds index none, ok fd)
]
