-- ===== src/Session/Port.antt =====
-- node/src/session/port/mod.rs: the shared records of an output buffer, and its checked view.
pub mod Bounds
use pipewire_native_rs.Prelude.{
  ℕ, ◌+◌, ◌-◌, ◌%◌, ◌^◌, ◌≡◌, Bool, true, false, not, ◌||◌, List, Result, ok, err, ◌>>=◌, ◌>>◌,
  reject, ok_or, ltb, ◌==◌, min, if◌then◌else◌,
}
use pipewire_native_rs.Prelude.Words.{checked_add, isize_max, u32_max, i32_max}
use pipewire_native_rs.Prelude.Int.{ℤ, pos, negsuc}

-- `spa_io_buffers`
pub record BuffersIoState : Type 0 where
  pub status : ℤ
  pub buffer_id : ℕ

-- `spa_chunk`
pub record ChunkState : Type 0 where
  pub offset : ℕ
  pub size : ℕ
  pub stride : ℤ
  pub flags : ℕ

-- `BufferStatus::NeedData` and `BufferStatus::HaveData`
abbrev pub need_data : ℤ
need_data = pos 1

abbrev pub have_data : ℤ
have_data = pos 2

pub data SharedRecord : Type 0 where
  spa_io_buffers spa_chunk media_plane : SharedRecord

pub data PortError : Type 0 where
  null : SharedRecord → PortError
  invalid_size : SharedRecord → ℕ → ℕ → PortError
  misaligned : SharedRecord → ℕ → ℕ → PortError
  async_buffers_unsupported media_region_too_large zero_max_size media_range_overflow : PortError
  max_size_out_of_range : ℕ → PortError
  media_range_out_of_bounds : ℕ → ℕ → PortError
  wrapped_chunk : ℕ → ℕ → ℕ → PortError
  invalid_stride : ℤ → ℕ → PortError

unfoldable pub checked_record : ℕ → ℕ → ℕ → ℕ → SharedRecord → Result PortError (Unit {0})
checked_record base len required align shared = do
  reject (base == 0) (null shared)
  reject (not (len == required)) (invalid_size shared len required)
  reject (not (base % align == 0)) (misaligned shared base align)

pub data PortIoType : Type 0 where
  buffers async_buffers : PortIoType

-- `BuffersIoView::from_raw_parts`
unfoldable pub check_io : PortIoType → ℕ → ℕ → Result PortError (Unit {0})
unfolding checked_record
check_io async_buffers base len = err async_buffers_unsupported
check_io buffers base len = checked_record base len 8 4 spa_io_buffers

-- The view with the shared chunk that it writes to, and its plane's place in memory.
pub record OutputBuffer : Type 0 where
  pub chunk : ChunkState
  pub media : ℕ
  pub max_size : ℕ
  pub data_offset : ℕ

-- `stride < 0 || stride as usize > max_size`
abbrev pub bad_stride : ℤ → ℕ → Bool
bad_stride (negsuc n) max_size = true
bad_stride (pos n) max_size = ltb max_size n

-- `OutputBuffer::from_raw_parts`; `chunk` is what the shared chunk holds.
unfoldable pub from_raw_parts : ℕ → ℕ → ChunkState → ℕ → ℕ → ℕ → ℕ → Result PortError OutputBuffer
unfolding checked_record
from_raw_parts chunk_base chunk_len chunk media_base media_len map_offset max_size = do
  checked_record chunk_base chunk_len 16 4 spa_chunk
  reject (media_base == 0) (null media_plane)
  reject (ltb isize_max media_len) media_region_too_large
  reject (max_size == 0) zero_max_size
  reject (ltb u32_max max_size) (max_size_out_of_range max_size)
  end ← ok_or (checked_add map_offset max_size) media_range_overflow
  reject (ltb media_len end) (media_range_out_of_bounds end media_len)
  let data_offset = chunk.offset % max_size
  reject (ltb (max_size - data_offset) chunk.size) (wrapped_chunk data_offset chunk.size max_size)
  reject (bad_stride chunk.stride max_size) (invalid_stride chunk.stride max_size)
  ok (record {
    chunk = chunk;
    media = media_base + map_offset;
    max_size = max_size;
    data_offset = data_offset;
  })

-- `OutputBuffer::capacity`, and the length of `media_capacity`, which starts at
-- `media + data_offset`.
unfoldable pub capacity : OutputBuffer → ℕ
capacity b = b.max_size - b.data_offset

-- `i32::try_from(stride).unwrap_or(i32::MAX)`
abbrev pub clamp_i32 : ℕ → ℤ
clamp_i32 n = pos (min n i32_max)

-- `OutputBuffer::publish`
unfoldable pub publish : OutputBuffer → ℕ → ℕ → ℕ → OutputBuffer × Result PortError (Unit {0})
publish b bytes_used stride flags =
    if ltb b.max_size stride || ltb i32_max stride
    then (b, err (invalid_stride (clamp_i32 stride) b.max_size))
    else (
      record b {
        chunk = record {
          offset = b.data_offset % 2 ^ 32;
          size = bytes_used % 2 ^ 32;
          stride = pos stride;
          flags = flags;
        };
      },
      ok tt,
    )

-- `OutputBuffer::abort`
unfoldable pub abort : OutputBuffer → OutputBuffer
abort b = record b { chunk = record b.chunk { size = 0 } }
