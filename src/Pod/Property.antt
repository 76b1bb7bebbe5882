-- ===== src/Pod/Property.antt =====
-- `Pod for Property<T, U>` of spa/src/pod/mod.rs; `from_bits` is `PropertyFlags::from_bits`, which
-- the bitflags crate makes.
pub mod RoundTrip
use pipewire_native_rs.Prelude.{
  ℕ, ◌+◌, Bool, true, false, List, ◌++◌, take, drop, length, Option, none, some, Result, ok, err,
  ◌>>=◌, ◌>>◌, reject, ok_or, ltb, if◌then◌else◌,
}
use pipewire_native_rs.Frame.Header.{u32_to_ne_bytes}
use pipewire_native_rs.Pod.Bytes.{copy, u32_at}
use pipewire_native_rs.Pod.Types.{PodError, invalid, no_space, Property, U32Enum}
use pipewire_native_rs.Pod.Codec.{Pod}

-- The key and the flags stay written when the value fails.
unfoldable pub encode_property {ℓ κ μ} :
    {K : Type ℓ} {T : Type κ} {D : Type μ}
    → U32Enum K
    → Pod T D
    → Property K T
    → List ℕ
    → List ℕ × Result PodError ℕ
encode_property e P v buffer =
    if ltb (length buffer) 8
    then (buffer, err no_space)
    else (let start =
          copy 4 (u32_to_ne_bytes v.flag_bits) (copy 0 (u32_to_ne_bytes (e.into v.key)) buffer) in
        let (rest, r) = P.encode v.value (drop 8 start) in
        (take 8 start ++ rest, (r >>= λ value_size. ok (8 + value_size))))

unfoldable pub decode_property {ℓ κ μ} :
    {K : Type ℓ} {T : Type κ} {D : Type μ}
    → U32Enum K
    → (ℕ → Option ℕ)
    → Pod T D
    → List ℕ
    → Result PodError (Property K D × ℕ)
decode_property e from_bits P buffer = do
  reject (ltb (length buffer) 8) invalid
  key ← ok_or (e.from (u32_at 0 buffer)) invalid
  flag_bits ← ok_or (from_bits (u32_at 4 buffer)) invalid
  (value, size) ← P.decode (drop 8 buffer)
  ok (record { key = key; flag_bits = flag_bits; value = value }, 8 + size)

abbrev pub property_pod {ℓ κ μ} :
    {K : Type ℓ} {T : Type κ} {D : Type μ}
    → U32Enum K
    → (ℕ → Option ℕ)
    → Pod T D
    → Pod (Property K T) (Property K D)
property_pod e from_bits P = record {
  encode = encode_property e P;
  decode = decode_property e from_bits P;
}
