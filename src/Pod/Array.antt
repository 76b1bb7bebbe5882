-- ===== src/Pod/Array.antt =====
-- `Pod for &[T]` of spa/src/pod/mod.rs: arrays of a primitive's bodies.
pub mod Elements
pub mod RoundTrip
use pipewire_native_rs.Prelude.{
  ℕ, zero, suc, ◌+◌, ◌-◌, ◌*◌, ◌/◌, ◌%◌, ◌^◌, Bool, true, false, not, ◌||◌, List, [], ◌∷◌, ◌++◌,
  take, drop, slice, length, Option, none, some, Result, ok, err, ◌>>=◌, ◌>>◌, reject, ltb, ◌==◌,
  if◌then◌else◌,
}
use pipewire_native_rs.Frame.Header.{u32_to_ne_bytes}
use pipewire_native_rs.Pod.Bytes.{copy, within, u32_at}
use pipewire_native_rs.Pod.Types.{
  PodError, invalid, no_space, PodType, type_code, try_from, array_type,
}
use pipewire_native_rs.Pod.Codec.{Pod, pad_8, pod_total_size, put_header}
use pipewire_native_rs.Pod.Primitive.{Primitive}

-- `Ok(kind) != code.try_into()`
abbrev pub is_type : PodType → ℕ → Bool
is_type kind code = elim (try_from code) [
  | none ↦ false
  | some other ↦ type_code kind == type_code other
]

-- The loop over the elements, from byte `at` on.
unfoldable pub encode_elems {ℓ} : {T : Type ℓ} → Primitive T → ℕ → List T → List ℕ → List ℕ
encode_elems P at [] buffer = buffer
encode_elems P at (v ∷ vs) buffer =
    encode_elems P (at + P.pod_size) vs (within at (P.encode_body v) buffer)

-- The padding keeps what was there.
unfoldable pub encode_array {ℓ} :
    {T : Type ℓ} → Primitive T → List T → List ℕ → List ℕ × Result PodError ℕ
encode_array P vs buffer =
    let child_size = P.pod_size in
    let elems_size = child_size * length vs in
    let padding = pad_8 elems_size in
    if ltb (length buffer) (8 + 8 + elems_size + padding) then (buffer, err no_space) else (
      encode_elems P 16 vs (
          copy 12 (u32_to_ne_bytes (type_code P.pod_type)) (
            copy 8 (u32_to_ne_bytes (child_size % 2 ^ 32))
              (put_header (8 + elems_size) array_type buffer))),
      ok (8 + 8 + elems_size + padding),
    )

-- The loop over the chunks of `pod_size` bytes, `count` of them.
unfoldable pub decode_chunks {ℓ} :
    {T : Type ℓ} → Primitive T → ℕ → List ℕ → Result PodError (List T)
decode_chunks P zero bytes = ok []
decode_chunks P (suc count) bytes = do
  val ← P.decode_body (take P.pod_size bytes)
  res ← decode_chunks P count (drop P.pod_size bytes)
  ok (val ∷ res)

unfoldable pub decode_array {ℓ} : {T : Type ℓ} → Primitive T → List ℕ → Result PodError (List T × ℕ)
decode_array P buffer = do
  reject (ltb (length buffer) 16) invalid
  let size = u32_at 0 buffer
  reject (ltb size 8) invalid
  total_size ← pod_total_size size
  reject (ltb (length buffer) total_size) invalid
  reject (not (is_type array_type (u32_at 4 buffer))) invalid
  let child_size = u32_at 8 buffer
  reject (child_size == 0 || not (child_size == P.pod_size)) invalid
  reject (not (is_type P.pod_type (u32_at 12 buffer))) invalid
  let elements_size = size - 8
  reject (not (elements_size % child_size == 0)) invalid
  res ← decode_chunks P (elements_size / child_size) (slice 16 (16 + elements_size) buffer)
  ok (res, total_size)

abbrev pub array_pod {ℓ} : {T : Type ℓ} → Primitive T → Pod (List T) (List T)
array_pod P = record { encode = encode_array P; decode = decode_array P }
