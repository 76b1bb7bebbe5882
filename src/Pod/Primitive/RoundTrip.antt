-- ===== src/Pod/Primitive/RoundTrip.antt =====
-- A primitive POD decodes to what was encoded.
use pipewire_native_rs.Prelude.{
  ℕ, ◌+◌, ◌≤◌, ◌≡◌, refl, sym, ap, ◌∙◌, true, false, List, ◌++◌, drop, slice, length, ok, arith,
  ◌==◌, append_assoc, length-append, ltb, if◌then◌else◌,
}
use pipewire_native_rs.Pod.Bytes.{copy, within, zeros, u32_at}
use pipewire_native_rs.Pod.Bytes.Fill.{Filled, Filled-within, length-zeros, slice-middle}
use pipewire_native_rs.Pod.Types.{type_code}
use pipewire_native_rs.Pod.Codec.{pad_8, put_header}
use pipewire_native_rs.Pod.Codec.Laws.{
  RoundTrips, header_bytes, length-header, put_header-Filled, header_size, header_type,
  padding-Filled, total-size, pad-aligned,
}
use pipewire_native_rs.Pod.Primitive.{Primitive, encode, decode, primitive_pod}
use pipewire_native_rs.Pod.Primitive.Laws.{IsPrimitive}

module _ {ℓ κ} {T : Type ℓ} {Fits : T → Type κ} (P : Primitive T) (law : IsPrimitive P Fits) where
  -- The bytes of a value.
  encoded : T → List ℕ
  encoded v = (header_bytes P.pod_size P.pod_type ++ law.body v) ++ zeros (pad_8 P.pod_size)

  -- The buffer when the guard lets the value through.
  filled : T → List ℕ → List ℕ
  filled v buffer =
      let padding = pad_8 P.pod_size in
      let body = within 8 (P.encode_body v) (put_header P.pod_size P.pod_type buffer) in
      if ltb 0 padding then copy (8 + P.pod_size) (zeros padding) body else body

  encode-ok :
      (v : T) (buffer now : List ℕ) (n : ℕ)
      → encode P v buffer ≡ (now, ok n)
      → (now ≡ filled v buffer) × (n ≡ 8 + P.pod_size + pad_8 P.pod_size) × (n ≤ length buffer)
  unfolding encode filled
  encode-ok v buffer now n e = ground arith

  encode-Filled :
      (v : T) (buffer now : List ℕ) (n : ℕ)
      → encode P v buffer ≡ (now, ok n)
      → Filled buffer (encoded v) now
        × (n ≡ 8 + P.pod_size + pad_8 P.pod_size)
        × (n ≤ length buffer)
  unfolding encoded filled
  encode-Filled v buffer now n e =
      let (same, size, room) = encode-ok v buffer now n e in
      let header = put_header-Filled P.pod_size P.pod_type buffer in
      let body =
        Filled-within buffer (header_bytes P.pod_size P.pod_type) (law.body v) _ (P.encode_body v)
          (length-header P.pod_size P.pod_type) header (law.writes v (drop 8 buffer)) in
      let padded =
        padding-Filled buffer (header_bytes P.pod_size P.pod_type ++ law.body v) _
          (pad_8 P.pod_size)
          (omega (
            arith,
            length-append (header_bytes P.pod_size P.pod_type) (law.body v),
            length-header P.pod_size P.pod_type,
            law.length_body v,
          ))
          body in
      (same ∙ padded, size, room)

  length-encoded : (v : T) → length (encoded v) ≡ 8 + P.pod_size + pad_8 P.pod_size
  unfolding encoded
  length-encoded v = omega (
    arith,
    length-append (header_bytes P.pod_size P.pod_type ++ law.body v) (zeros (pad_8 P.pod_size)),
    length-append (header_bytes P.pod_size P.pod_type) (law.body v),
    length-header P.pod_size P.pod_type,
    law.length_body v,
    length-zeros (pad_8 P.pod_size),
  )

  decode-bytes :
      (v : T) (buffer : List ℕ)
      → Fits v
      → 8 + P.pod_size + pad_8 P.pod_size ≤ length buffer
      → u32_at 0 buffer ≡ P.pod_size
      → u32_at 4 buffer ≡ type_code P.pod_type
      → slice 8 (8 + P.pod_size) buffer ≡ law.body v
      → decode P buffer ≡ ok (v, 8 + P.pod_size + pad_8 P.pod_size)
  unfolding decode
  decode-bytes v buffer f room size kind body =
      let total = total-size P.pod_size (omega (arith, law.small)) in
      let long : ltb (length buffer) 8 ≡ false = ground arith in
      let enough : ltb (length buffer) (8 + P.pod_size + pad_8 P.pod_size) ≡ false = ground arith in
      let same : (P.pod_size == P.pod_size) ≡ true = ground arith in
      let alike : (type_code P.pod_type == type_code P.pod_type) ≡ true = ground arith in
      rw (decode, long, size, same, kind, alike, total, enough, body, law.reads v f) refl

  decode-encoded :
      (v : T) (tail : List ℕ)
      → Fits v
      → decode P (encoded v ++ tail) ≡ ok (v, 8 + P.pod_size + pad_8 P.pod_size)
  unfolding encoded
  decode-encoded v tail f =
      let header = header_bytes P.pod_size P.pod_type in
      let padding = zeros (pad_8 P.pod_size) in
      let apart : encoded v ++ tail ≡ header ++ (law.body v ++ (padding ++ tail)) =
        append_assoc (header ++ law.body v) padding tail
        ∙ append_assoc header (law.body v) (padding ++ tail) in
      let here : slice 8 (8 + P.pod_size) (header ++ (law.body v ++ (padding ++ tail)))
          ≡ law.body v =
        slice-middle header (law.body v) (padding ++ tail) (length-header P.pod_size P.pod_type)
          (omega (arith, law.length_body v)) in
      decode-bytes v (encoded v ++ tail) f
        (omega (arith, length-append (encoded v) tail, length-encoded v))
        (ap (u32_at 0) apart ∙ header_size P.pod_size P.pod_type _ (omega (arith, law.small)))
        (ap (u32_at 4) apart ∙ header_type P.pod_size P.pod_type _)
        (ap (slice 8 (8 + P.pod_size)) apart ∙ here)

  -- A primitive whose body reads back decodes from what its encoding wrote at the front of a
  -- buffer, and nothing behind that is touched.
  pub primitive-RoundTrips : RoundTrips (primitive_pod P) Fits (λ v. v)
  primitive-RoundTrips v buffer now n f e =
      let (same, size, room) = encode-Filled v buffer now n e in
      let width = length-encoded v in
      record {
        bytes = encoded v;
        front = same ∙ ap (λ k. encoded v ++ drop k buffer) (omega arith);
        size = omega arith;
        room = room;
        aligned = omega (arith, pad-aligned P.pod_size);
        decodes = λ tail. decode-encoded v tail f ∙ ap (λ k. ok (v, k)) (sym size);
      }
