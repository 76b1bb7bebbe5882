-- ===== src/Pod/Primitive.antt =====
-- The trait `Primitive` of spa/src/pod/mod.rs and its implementations: bodies of a fixed size.
pub mod Laws
pub mod RoundTrip
use pipewire_native_rs.Prelude.{
  ℕ, ◌+◌, ◌-◌, ◌%◌, ◌^◌, Bool, true, false, not, List, [], ◌++◌, slice, length, Option, none, some,
  Result, ok, err, ◌>>=◌, ◌>>◌, reject, ltb, ◌==◌, if◌then◌else◌,
}
use pipewire_native_rs.Prelude.Int.{ℤ}
use pipewire_native_rs.Frame.Header.{u32_to_ne_bytes}
use pipewire_native_rs.Pod.Bytes.{
  copy, within, zeros, u32_at, u64_to_ne_bytes, u64_at, to_unsigned, to_signed,
}
use pipewire_native_rs.Pod.Types.{
  PodError, invalid, no_space, PodType, type_code, none_type, bool_type, id_type, int_type,
  long_type, float_type, double_type, rectangle_type, fraction_type, fd_type, Rectangle, Fraction,
  U32Enum,
}
use pipewire_native_rs.Pod.Codec.{Pod, put_header, pad_8, pod_total_size}

-- No `encode_body` fails.
pub record Primitive {ℓ} (T : Type ℓ) : Type ℓ where
  pub pod_type : PodType
  pub pod_size : ℕ
  pub encode_body : T → List ℕ → List ℕ
  pub decode_body : List ℕ → Result PodError T

unfoldable pub encode {ℓ} : {T : Type ℓ} → Primitive T → T → List ℕ → List ℕ × Result PodError ℕ
encode P v buffer =
    let size = P.pod_size in
    let padding = pad_8 size in
    let body = within 8 (P.encode_body v) (put_header size P.pod_type buffer) in
    if ltb (length buffer) (8 + size + padding) then (buffer, err no_space) else (
      if ltb 0 padding then copy (8 + size) (zeros padding) body else body,
      ok (8 + size + padding),
    )

unfoldable pub decode {ℓ} : {T : Type ℓ} → Primitive T → List ℕ → Result PodError (T × ℕ)
decode P buffer = do
  reject (ltb (length buffer) 8) invalid
  let size = u32_at 0 buffer
  reject (not (size == P.pod_size)) invalid
  reject (not (u32_at 4 buffer == type_code P.pod_type)) invalid
  total_size ← pod_total_size size
  reject (ltb (length buffer) total_size) invalid
  val ← P.decode_body (slice 8 (8 + size) buffer)
  ok (val, total_size)

-- The implementation of `Pod` for every primitive.
abbrev pub primitive_pod {ℓ} : {T : Type ℓ} → Primitive T → Pod T T
primitive_pod P = record { encode = encode P; decode = decode P }

abbrev pub unit_primitive : Primitive (Unit {0})
unit_primitive = record {
  pod_type = none_type;
  pod_size = 0;
  encode_body = λ v buffer. buffer;
  decode_body = λ buffer. ok tt;
}

abbrev bool_code : Bool → ℕ
bool_code true = 1
bool_code false = 0

abbrev pub bool_primitive : Primitive Bool
bool_primitive = record {
  pod_type = bool_type;
  pod_size = 4;
  encode_body = λ v buffer. copy 0 (u32_to_ne_bytes (bool_code v)) buffer;
  decode_body = λ buffer. ok (not (u32_at 0 buffer == 0));
}

-- `Id<K>`
abbrev pub id_primitive {ℓ} : {K : Type ℓ} → U32Enum K → Primitive K
id_primitive e = record {
  pod_type = id_type;
  pod_size = 4;
  encode_body = λ v buffer. copy 0 (u32_to_ne_bytes (e.into v)) buffer;
  decode_body = λ buffer. elim (e.from (u32_at 0 buffer)) [ some v ↦ ok v | none ↦ err invalid ];
}

-- A value of 32 bits, and one of 64, from and to an unsigned number.
abbrev word_primitive {ℓ} : {T : Type ℓ} → PodType → (T → ℕ) → (ℕ → T) → Primitive T
word_primitive kind bits value = record {
  pod_type = kind;
  pod_size = 4;
  encode_body = λ v buffer. copy 0 (u32_to_ne_bytes (bits v)) buffer;
  decode_body = λ buffer. ok (value (u32_at 0 buffer));
}

abbrev long_word_primitive {ℓ} : {T : Type ℓ} → PodType → (T → ℕ) → (ℕ → T) → Primitive T
long_word_primitive kind bits value = record {
  pod_type = kind;
  pod_size = 8;
  encode_body = λ v buffer. copy 0 (u64_to_ne_bytes (bits v)) buffer;
  decode_body = λ buffer. ok (value (u64_at 0 buffer));
}

-- i32, i64 and `Fd`, f32 and f64
abbrev pub int_primitive : Primitive ℤ
int_primitive = word_primitive int_type (to_unsigned 32) (to_signed 32)

abbrev pub long_primitive : Primitive ℤ
long_primitive = long_word_primitive long_type (to_unsigned 64) (to_signed 64)

abbrev pub fd_primitive : Primitive ℤ
fd_primitive = long_word_primitive fd_type (to_unsigned 64) (to_signed 64)

abbrev pub float_primitive : Primitive ℕ
float_primitive = word_primitive float_type (λ n. n) (λ n. n)

abbrev pub double_primitive : Primitive ℕ
double_primitive = long_word_primitive double_type (λ n. n) (λ n. n)

abbrev pub rectangle_primitive : Primitive Rectangle
rectangle_primitive = record {
  pod_type = rectangle_type;
  pod_size = 8;
  encode_body =
      λ v buffer. copy 4 (u32_to_ne_bytes v.height) (copy 0 (u32_to_ne_bytes v.width) buffer);
  decode_body = λ buffer. ok (record { width = u32_at 0 buffer; height = u32_at 4 buffer });
}

abbrev pub fraction_primitive : Primitive Fraction
fraction_primitive = record {
  pod_type = fraction_type;
  pod_size = 8;
  encode_body =
      λ v buffer. copy 4 (u32_to_ne_bytes v.denom) (copy 0 (u32_to_ne_bytes v.num) buffer);
  decode_body = λ buffer. ok (record { num = u32_at 0 buffer; denom = u32_at 4 buffer });
}
