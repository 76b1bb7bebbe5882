-- ===== src/Session/Port/Bounds.antt =====
-- A checked buffer stays inside its plane, and what it publishes can be bound again.
use pipewire_native_rs.Prelude.{
  ℕ, ◌+◌, ◌%◌, ◌^◌, ◌≤◌, ◌<◌, ◌≡◌, ◌≢◌, ◌⊎◌, inl, inr, refl, false, ◌||◌, ok, err, arith, ltb,
  Bool-cases,
}
use native.Mathlib.Nat.{mod-lt, mod-eq_of_lt}
use pipewire_native_rs.Prelude.Words.{u32_max, i32_max}
use pipewire_native_rs.Prelude.Int.{pos}
use pipewire_native_rs.Session.Port.{
  ChunkState, OutputBuffer, PortError, checked_record, from_raw_parts, capacity, publish, abort,
  bad_stride,
}

-- The chunk's data lies in the plane, from the offset at which the view writes.
pub record IsBuffer (b : OutputBuffer) : Type 0 where
  pub max_size_u32 : b.max_size ≤ u32_max
  pub offset_in : b.data_offset < b.max_size
  pub offset_shared : b.data_offset ≡ b.chunk.offset % b.max_size
  pub chunk_in : b.data_offset + b.chunk.size ≤ b.max_size
  pub stride_fits : bad_stride b.chunk.stride b.max_size ≡ false

offset-lt : (n m : ℕ) → 0 < m → n % m < m
offset-lt n m q = mod-lt n q

-- A view that is made has its plane inside the mapping, and its chunk's data inside the plane.
pub from_raw_parts-IsBuffer :
    (chunk_base chunk_len : ℕ) (chunk : ChunkState) (media_base media_len map_offset max_size : ℕ)
    {b : OutputBuffer}
    → from_raw_parts chunk_base chunk_len chunk media_base media_len map_offset max_size ≡ ok b
    → IsBuffer b
      × (b.chunk ≡ chunk)
      × (b.max_size ≡ max_size)
      × (b.media ≡ media_base + map_offset)
      × (b.media + b.max_size ≤ media_base + media_len)
      × (media_base ≢ 0)
unfolding from_raw_parts checked_record
from_raw_parts-IsBuffer chunk_base chunk_len chunk media_base media_len map_offset max_size {b} e =
    let lt = offset-lt chunk.offset max_size in ground arith

-- The buffer after a publication that no bound refuses.
published : OutputBuffer → ℕ → ℕ → ℕ → OutputBuffer
published b bytes_used stride flags = record b {
  chunk = record { offset = b.data_offset; size = bytes_used; stride = pos stride; flags = flags };
}

publish-ok :
    (b : OutputBuffer) (bytes_used stride flags : ℕ)
    → IsBuffer b
    → bytes_used ≤ capacity b
    → (ltb b.max_size stride || ltb i32_max stride) ≡ false
    → publish b bytes_used stride flags ≡ (published b bytes_used stride flags, ok tt)
unfolding publish capacity published
publish-ok b bytes_used stride flags v h e =
    let small = v.max_size_u32 in
    let inside = v.offset_in in
    let offset_fits = mod-eq_of_lt {n = b.data_offset} {m = 2 ^ 32} (omega arith) in
    let size_fits = mod-eq_of_lt {n = bytes_used} {m = 2 ^ 32} (omega arith) in
    rw (e, offset_fits, size_fits) refl

published-IsBuffer :
    (b : OutputBuffer) (bytes_used stride flags : ℕ)
    → IsBuffer b
    → bytes_used ≤ capacity b
    → (ltb b.max_size stride || ltb i32_max stride) ≡ false
    → IsBuffer (published b bytes_used stride flags) × (stride ≤ b.max_size)
unfolding capacity published
published-IsBuffer b bytes_used stride flags v h e =
    let inside = v.offset_in in let kept = mod-eq_of_lt inside in ground arith

-- On a valid buffer a publication within the capacity and the stride's bounds writes the offset,
-- the length and the stride unclipped into the chunk, and leaves a buffer that is valid; beyond the
-- stride's bounds it changes nothing.
pub publish_lem :
    (b : OutputBuffer) (bytes_used stride flags : ℕ)
    → IsBuffer b
    → bytes_used ≤ capacity b
    → let (b', r) = publish b bytes_used stride flags in
      IsBuffer b'
      × (((r ≡ ok tt)
            × (b'.chunk ≡ record {
              offset = b.data_offset;
              size = bytes_used;
              stride = pos stride;
              flags = flags;
            })
            × (stride ≤ b.max_size))
          ⊎ ((b' ≡ b) × ((e : PortError) × (r ≡ err e))))
unfolding publish published
publish_lem b bytes_used stride flags v h =
    elim (Bool-cases (ltb b.max_size stride || ltb i32_max stride)) [
      | inl e ↦ ground arith
      | inr e ↦
          let (kept, fits) = published-IsBuffer b bytes_used stride flags v h e in
          rw (publish-ok b bytes_used stride flags v h e) (kept, inl (refl, refl, fits))
    ]

-- An abort empties the chunk and keeps the view's place in the plane.
pub abort-IsBuffer :
    (b : OutputBuffer) → IsBuffer b → IsBuffer (abort b) × (capacity (abort b) ≡ capacity b)
unfolding abort capacity
abort-IsBuffer b v = ground arith
