-- ===== src/Pod/Bytes.antt =====
-- Slices of byte buffers, as the POD code writes and reads them. A write past the end of a buffer,
-- which panics in the source, makes the list longer here, which no result allows.
pub mod Fill
use pipewire_native_rs.Prelude.{
  ℕ, zero, suc, ◌+◌, ◌-◌, ◌*◌, ◌/◌, ◌%◌, ◌^◌, Bool, true, false, List, [], ◌∷◌, ◌++◌, take, drop,
  slice, length, Result, ok, err, ok_or, Option, none, some, ◌>>=◌, ltb, ◌==◌, if◌then◌else◌,
}
use pipewire_native_rs.Prelude.Words.{checked_add}
use pipewire_native_rs.Prelude.Int.{ℤ, pos, negsuc}
use pipewire_native_rs.Frame.Header.{u32_from_ne_bytes, u32_to_ne_bytes}

-- `data[at..at + bytes.len()].copy_from_slice(bytes)`
unfoldable pub copy : ℕ → List ℕ → List ℕ → List ℕ
copy at bytes buffer = take at buffer ++ (bytes ++ drop (at + length bytes) buffer)

-- What `f` does to `&mut data[at..]`
unfoldable pub within : ℕ → (List ℕ → List ℕ) → List ℕ → List ℕ
within at f buffer = take at buffer ++ f (drop at buffer)

abbrev pub zeros : ℕ → List ℕ
zeros zero = []
zeros (suc n) = 0 ∷ zeros n

-- `u32::from_ne_bytes(data[at..at + 4].try_into().unwrap())`
abbrev pub u32_at : ℕ → List ℕ → ℕ
u32_at at buffer = u32_from_ne_bytes (slice at (at + 4) buffer)

-- `u64::to_ne_bytes` and `u64::from_ne_bytes`
unfoldable pub u64_to_ne_bytes : ℕ → List ℕ
unfolding u32_to_ne_bytes
u64_to_ne_bytes x = u32_to_ne_bytes (x % 2 ^ 32) ++ u32_to_ne_bytes (x / 2 ^ 32)

abbrev pub u64_at : ℕ → List ℕ → ℕ
u64_at at buffer = u32_at at buffer + u32_at (at + 4) buffer * 2 ^ 32

-- `as` from a signed integer of `w` bits to the unsigned one, and back.
abbrev pub to_unsigned : ℕ → ℤ → ℕ
to_unsigned w (pos n) = n
to_unsigned w (negsuc n) = 2 ^ w - 1 - n

abbrev pub to_signed : ℕ → ℕ → ℤ
to_signed w n = if ltb n (2 ^ (w - 1)) then pos n else negsuc (2 ^ w - 1 - n)
