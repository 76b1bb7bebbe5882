-- ===== src/Pod/Array/RoundTrip.antt =====
-- An array decodes to what was encoded.
use pipewire_native_rs.Prelude.{
  ℕ, ◌+◌, ◌-◌, ◌*◌, ◌%◌, ◌≤◌, ◌<◌, ◌^◌, ◌≡◌, refl, sym, ap, ap₂, ◌∙◌, true, false, List, ◌++◌, take,
  drop, slice, length, All, ok, arith, ◌==◌, append_assoc, length-append, length-take, length-drop,
  drop-drop, ltb,
}
use native.Mathlib.Nat.{mul-mod_right}
use pipewire_native_rs.Frame.Header.{u32_to_ne_bytes}
use pipewire_native_rs.Pod.Bytes.{copy, u32_at}
use pipewire_native_rs.Pod.Bytes.Fill.{
  Filled, Filled-copy, length-u32, take-at, drop-at, u32_at-here, u32_at-next,
}
use pipewire_native_rs.Pod.Types.{type_code, type_code-small, array_type}
use pipewire_native_rs.Pod.Codec.{pad_8, put_header}
use pipewire_native_rs.Pod.Codec.Laws.{
  RoundTrips, header_bytes, length-header, put_header-Filled, total-size, Reads, RoundTrip-of,
}
use pipewire_native_rs.Pod.Primitive.{Primitive}
use pipewire_native_rs.Pod.Primitive.Laws.{IsPrimitive}
use pipewire_native_rs.Pod.Array.{encode_elems, encode_array, decode_array, array_pod}
use pipewire_native_rs.Pod.Array.Elements.{
  is_type_self, Filled-left, u32_at-drop, pad_8-array, mul-div_self, bodies, length-bodies,
  encode_elems-Filled, decode_chunks-bodies,
}

module _ {ℓ κ} {T : Type ℓ} {Fits : T → Type κ} (P : Primitive T) (law : IsPrimitive P Fits) where
  -- The body: the size and the type of an element, and the elements.
  array_body : List T → List ℕ
  array_body vs =
      u32_to_ne_bytes (P.pod_size % 2 ^ 32)
      ++ (u32_to_ne_bytes (type_code P.pod_type) ++ bodies P law vs)

  length-array_body : (vs : List T) → length (array_body vs) ≡ 8 + P.pod_size * length vs
  unfolding array_body
  length-array_body vs = omega (
    arith,
    length-append (u32_to_ne_bytes (P.pod_size % 2 ^ 32))
        (u32_to_ne_bytes (type_code P.pod_type) ++ bodies P law vs),
    length-append (u32_to_ne_bytes (type_code P.pod_type)) (bodies P law vs),
    length-u32 (P.pod_size % 2 ^ 32),
    length-u32 (type_code P.pod_type),
    length-bodies P law vs,
  )

  filled_array : List T → List ℕ → List ℕ
  filled_array vs buffer = encode_elems P 16 vs (
      copy 12 (u32_to_ne_bytes (type_code P.pod_type)) (
        copy 8 (u32_to_ne_bytes (P.pod_size % 2 ^ 32))
          (put_header (8 + P.pod_size * length vs) array_type buffer)))

  array-ok :
      (vs : List T) (buffer now : List ℕ) (n : ℕ)
      → encode_array P vs buffer ≡ (now, ok n)
      → (now ≡ filled_array vs buffer)
        × (n ≡ 8 + (8 + P.pod_size * length vs) + pad_8 (8 + P.pod_size * length vs))
        × (n ≤ length buffer)
  unfolding encode_array filled_array
  array-ok vs buffer now n e = let p = pad_8-array (P.pod_size * length vs) in ground arith

  array-Filled :
      (vs : List T) (buffer : List ℕ)
      → Filled buffer
          (header_bytes (8 + P.pod_size * length vs) array_type ++ array_body vs)
          (filled_array vs buffer)
  unfolding filled_array array_body
  array-Filled vs buffer =
      let size = 8 + P.pod_size * length vs in
      let header = header_bytes size array_type in
      let w1 = u32_to_ne_bytes (P.pod_size % 2 ^ 32) in
      let w2 = u32_to_ne_bytes (type_code P.pod_type) in
      let first =
        Filled-copy buffer header w1 _ (length-header size array_type)
          (put_header-Filled size array_type buffer) in
      let at_12 : length (header ++ w1) ≡ 12 = omega (
        arith,
        length-append header w1,
        length-header size array_type,
        length-u32 (P.pod_size % 2 ^ 32),
      ) in
      let second = Filled-copy buffer (header ++ w1) w2 _ at_12 first in
      let at_16 : length ((header ++ w1) ++ w2) ≡ 16 =
        omega (arith, length-append (header ++ w1) w2, at_12, length-u32 (type_code P.pod_type)) in
      let third = encode_elems-Filled P law vs buffer ((header ++ w1) ++ w2) _ at_16 second in
      third
      ∙ ap (λ bs. bs ++ drop (length bs) buffer)
          (append_assoc (header ++ w1) w2 (bodies P law vs)
            ∙ append_assoc header w1 (w2 ++ bodies P law vs))

  decode_array-Reads :
      (vs : List T) (whole : List ℕ)
      → All Fits vs
      → 0 < P.pod_size
      → 8 + P.pod_size * length vs < 2 ^ 32
      → Reads (8 + P.pod_size * length vs) array_type (array_body vs) whole
      → decode_array P whole
        ≡ ok (vs, 8 + (8 + P.pod_size * length vs) + pad_8 (8 + P.pod_size * length vs))
  unfolding decode_array array_body
  decode_array-Reads vs whole fits some_size h r =
      let room = r.long in
      let elems = P.pod_size * length vs in
      let size = 8 + elems in
      let w1 = u32_to_ne_bytes (P.pod_size % 2 ^ 32) in
      let w2 = u32_to_ne_bytes (type_code P.pod_type) in
      let behind : drop 8 whole ≡ w1 ++ (w2 ++ (bodies P law vs ++ r.rest)) =
        r.behind
        ∙ append_assoc w1 (w2 ++ bodies P law vs) r.rest
        ∙ ap (λ xs. w1 ++ xs) (append_assoc w2 (bodies P law vs) r.rest) in
      let small : P.pod_size % 2 ^ 32 ≡ P.pod_size = omega (arith, law.small) in
      let child : u32_at 8 whole ≡ P.pod_size =
        u32_at-drop 8 0 whole
        ∙ ap (u32_at 0) behind
        ∙ u32_at-here (P.pod_size % 2 ^ 32) _ (omega arith)
        ∙ small in
      let kind : u32_at 12 whole ≡ type_code P.pod_type =
        u32_at-drop 8 4 whole
        ∙ ap (u32_at 4) behind
        ∙ u32_at-next (P.pod_size % 2 ^ 32) 0 _
        ∙ u32_at-here (type_code P.pod_type) _ (type_code-small P.pod_type) in
      let start : drop 16 whole ≡ bodies P law vs ++ r.rest =
        sym (drop-drop 8 8 whole)
        ∙ ap (drop 8) (behind ∙ sym (append_assoc w1 w2 (bodies P law vs ++ r.rest)))
        ∙ drop-at (w1 ++ w2) (bodies P law vs ++ r.rest) {n = 8} (
            omega (
              arith,
              length-append w1 w2,
              length-u32 (P.pod_size % 2 ^ 32),
              length-u32 (type_code P.pod_type),
            )) in
      let width : 16 + elems - 16 ≡ elems = omega arith in
      let elements : slice 16 (16 + elems) whole ≡ bodies P law vs =
        ap₂ take width start ∙ take-at (bodies P law vs) r.rest (length-bodies P law vs) in
      let total = total-size size h in
      let long : ltb (length whole) 16 ≡ false = ground arith in
      let body : ltb size 8 ≡ false = ground arith in
      let enough : ltb (length whole) (8 + size + pad_8 size) ≡ false = ground arith in
      let not_zero : (P.pod_size == 0) ≡ false = ground arith in
      let same : (P.pod_size == P.pod_size) ≡ true = ground arith in
      let count : size - 8 ≡ elems = omega arith in
      rw
        (
          decode_array,
          long,
          r.size_read,
          body,
          total,
          enough,
          r.type_read,
          is_type_self array_type,
          child,
          not_zero,
          same,
          kind,
          is_type_self P.pod_type,
          count,
          mul-mod_right P.pod_size (length vs),
          mul-div_self P.pod_size (length vs) some_size,
          elements,
          decode_chunks-bodies P law vs fits,
        )
        refl

  -- The arrays that their header can describe: of elements that fit and take up space.
  abbrev pub FitsArray : List T → Type κ
  FitsArray vs = (All Fits vs × (0 < P.pod_size)) × (8 + P.pod_size * length vs < 2 ^ 32)

  -- An array of a primitive whose bodies read back, of some bytes each and of less than 2^32 bytes in
  -- all, is read back, whatever its padding was left as.
  pub array-RoundTrips : RoundTrips (array_pod P) FitsArray (λ vs. vs)
  array-RoundTrips vs buffer now n ((fits, some_size), h) e =
      let size = 8 + P.pod_size * length vs in
      let (same, total, room) = array-ok vs buffer now n e in
      let enc = header_bytes size array_type ++ array_body vs in
      let padding = take (pad_8 size) (drop (length enc) buffer) in
      let width : length enc ≡ 8 + size = omega (
        arith,
        length-append (header_bytes size array_type) (array_body vs),
        length-header size array_type,
        length-array_body vs,
      ) in
      let enough : length enc + pad_8 size ≤ length buffer = omega arith in
      RoundTrip-of (array_pod P) vs vs buffer now n size array_type (array_body vs) padding h
        (length-array_body vs)
        (omega (
          arith,
          length-take (pad_8 size) (drop (length enc) buffer),
          length-drop (length enc) buffer,
        ))
        (same
          ∙ Filled-left buffer enc (filled_array vs buffer) (pad_8 size) enough
              (array-Filled vs buffer))
        total room (λ whole r. decode_array-Reads vs whole fits some_size h r)
