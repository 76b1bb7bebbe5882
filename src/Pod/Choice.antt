-- ===== src/Pod/Choice.antt =====
-- `Pod for Choice<T>` of spa/src/pod/mod.rs.
pub mod RoundTrip
use pipewire_native_rs.Prelude.{
  ℕ, zero, suc, ◌+◌, ◌-◌, ◌*◌, ◌/◌, ◌%◌, ◌^◌, Bool, true, false, not, ◌||◌, List, [], ◌∷◌, slice,
  length, Option, none, some, Result, ok, err, ◌>>=◌, ◌>>◌, reject, ok_or, ltb, ◌==◌, if◌then◌else◌,
}
use pipewire_native_rs.Frame.Header.{u32_to_ne_bytes}
use pipewire_native_rs.Pod.Bytes.{copy, u32_at}
use pipewire_native_rs.Pod.Types.{
  PodError, invalid, no_space, type_code, choice_type, Choice, only, range, stepped, enumeration,
  flags,
}
use pipewire_native_rs.Pod.Codec.{Pod, pad_8, pod_total_size, put_header}
use pipewire_native_rs.Pod.Primitive.{Primitive}
use pipewire_native_rs.Pod.Array.{encode_elems, decode_chunks}

-- The values in the order in which they are encoded, and the code of the choice's kind.
abbrev pub choice_values {ℓ} : {T : Type ℓ} → Choice T → List T
choice_values (only value) = value ∷ []
choice_values (range default low high) = default ∷ (low ∷ (high ∷ []))
choice_values (stepped default low high step) = default ∷ (low ∷ (high ∷ (step ∷ [])))
choice_values (enumeration default alternatives) = default ∷ alternatives
choice_values (flags default mask) = default ∷ (mask ∷ [])

abbrev pub choice_code {ℓ} : {T : Type ℓ} → Choice T → ℕ
choice_code (only value) = 0
choice_code (range default low high) = 1
choice_code (stepped default low high step) = 2
choice_code (enumeration default alternatives) = 3
choice_code (flags default mask) = 4

-- The guard asks for 16 bytes more than are written.
unfoldable pub encode_choice {ℓ} :
    {T : Type ℓ} → Primitive T → Choice T → List ℕ → List ℕ × Result PodError ℕ
encode_choice P c buffer =
    let child_size = P.pod_size in
    let size = 16 + child_size * length (choice_values c) in
    let padding = pad_8 size in
    if ltb (length buffer) (24 + size + padding) then (buffer, err no_space) else (
      encode_elems P 24 (choice_values c) (
          copy 20 (u32_to_ne_bytes (type_code P.pod_type)) (
            copy 16 (u32_to_ne_bytes (child_size % 2 ^ 32)) (
              copy 12 (u32_to_ne_bytes 0)
                (copy 8 (u32_to_ne_bytes (choice_code c)) (put_header size choice_type buffer))))),
      ok (8 + size + padding),
    )

-- The number of children that a kind has.
abbrev pub right_count : ℕ → ℕ → Bool
right_count code count =
    if code == 0
    then count == 1
    else if code == 1
    then count == 3
    else if code == 2
    then count == 4
    else if code == 3
    then not (count == 0)
    else if code == 4
    then count == 2
    else false

abbrev pub choice_of {ℓ} : {T : Type ℓ} → ℕ → List T → Option (Choice T)
choice_of zero (value ∷ []) = some (only value)
choice_of (suc zero) (default ∷ (low ∷ (high ∷ []))) = some (range default low high)
choice_of (suc (suc zero)) (default ∷ (low ∷ (high ∷ (step ∷ [])))) =
    some (stepped default low high step)
choice_of (suc (suc (suc zero))) (default ∷ alternatives) = some (enumeration default alternatives)
choice_of (suc (suc (suc (suc zero)))) (default ∷ (mask ∷ [])) = some (flags default mask)
choice_of _ _ = none

unfoldable pub decode_choice {ℓ} :
    {T : Type ℓ} → Primitive T → List ℕ → Result PodError (Choice T × ℕ)
decode_choice P buffer = do
  reject (ltb (length buffer) 24) invalid
  let size = u32_at 0 buffer
  reject (ltb size 16) invalid
  total_size ← pod_total_size size
  reject (ltb (length buffer) total_size) invalid
  reject (not (u32_at 4 buffer == type_code choice_type)) invalid
  let code = u32_at 8 buffer
  let child_size = u32_at 16 buffer
  reject (child_size == 0 || not (child_size == P.pod_size)) invalid
  reject (not (u32_at 20 buffer == type_code P.pod_type)) invalid
  let children_size = size - 16
  reject (not (children_size % child_size == 0)) invalid
  let child_count = children_size / child_size
  reject (not (right_count code child_count)) invalid
  values ← decode_chunks P child_count (slice 24 (24 + children_size) buffer)
  choice ← ok_or (choice_of code values) invalid
  ok (choice, total_size)

abbrev pub choice_pod {ℓ} : {T : Type ℓ} → Primitive T → Pod (Choice T) (Choice T)
choice_pod P = record { encode = encode_choice P; decode = decode_choice P }
