-- ===== src/Pod/Text.antt =====
-- The strings and byte arrays of spa/src/pod/mod.rs. A string is its UTF-8 bytes; `lossy` is what
-- `String::from_utf8_lossy` makes of bytes.
pub mod RoundTrip
use pipewire_native_rs.Prelude.{
  ℕ, zero, ◌+◌, ◌-◌, ◌%◌, ◌^◌, Bool, true, false, not, ◌||◌, List, [], ◌∷◌, ◌++◌, slice, length,
  get_elem?, some, none, Result, ok, err, ◌>>=◌, ◌>>◌, reject, ltb, ◌==◌, if◌then◌else◌,
}
use pipewire_native_rs.Prelude.Words.{u32_max}
use pipewire_native_rs.Pod.Bytes.{copy, zeros, u32_at}
use pipewire_native_rs.Pod.Types.{PodError, invalid, no_space, type_code, string_type, bytes_type}
use pipewire_native_rs.Pod.Codec.{Pod, pad_8, pod_total_size, put_header}

-- `Pod for &str`; the first test of the guard, on the length as a `u32`, is never true.
unfoldable pub encode_string : List ℕ → List ℕ → List ℕ × Result PodError ℕ
encode_string s buffer =
    let len = length s + 1 in
    let padding = pad_8 len in
    if ltb u32_max (len % 2 ^ 32) || ltb (length buffer) (8 + len + padding)
    then (buffer, err no_space)
    else (
      copy (8 + len) (zeros padding)
          (copy (8 + length s) (0 ∷ []) (copy 8 s (put_header len string_type buffer))),
      ok (8 + len + padding),
    )

unfoldable pub decode_string : (List ℕ → List ℕ) → List ℕ → Result PodError (List ℕ × ℕ)
decode_string lossy buffer = do
  reject (ltb (length buffer) 8) invalid
  let len = u32_at 0 buffer
  reject (len == 0) invalid
  total_size ← pod_total_size len
  reject (ltb (length buffer) total_size) invalid
  reject (not (u32_at 4 buffer == type_code string_type)) invalid
  let s = lossy (slice 8 (8 + len - 1) buffer)
  elim (get_elem? buffer (8 + len - 1)) as (λ _. Result PodError (List ℕ × ℕ)) [
    | some zero ↦ ok (s, total_size)
    | _ ↦ err invalid
  ]

abbrev pub string_pod : (List ℕ → List ℕ) → Pod (List ℕ) (List ℕ)
string_pod lossy = record { encode = encode_string; decode = decode_string lossy }

-- `Pod for &[u8]`
unfoldable pub encode_bytes : List ℕ → List ℕ → List ℕ × Result PodError ℕ
encode_bytes s buffer =
    let len = length s in
    let padding = pad_8 len in
    if ltb u32_max (len % 2 ^ 32) || ltb (length buffer) (8 + len + padding)
    then (buffer, err no_space)
    else (
      copy (8 + len) (zeros padding) (copy 8 s (put_header len bytes_type buffer)),
      ok (8 + len + padding),
    )

unfoldable pub decode_bytes : List ℕ → Result PodError (List ℕ × ℕ)
decode_bytes buffer = do
  reject (ltb (length buffer) 8) invalid
  let len = u32_at 0 buffer
  total_size ← pod_total_size len
  reject (ltb (length buffer) total_size) invalid
  reject (not (u32_at 4 buffer == type_code bytes_type)) invalid
  ok (slice 8 (8 + len) buffer, total_size)

abbrev pub bytes_pod : Pod (List ℕ) (List ℕ)
bytes_pod = record { encode = encode_bytes; decode = decode_bytes }
