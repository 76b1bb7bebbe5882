-- ===== src/Pod/Property/RoundTrip.antt =====
-- A property decodes to what was encoded when its value does.
use pipewire_native_rs.Prelude.{
  ℕ, ◌+◌, ◌≤◌, ◌<◌, ◌^◌, ◌≡◌, refl, sym, ap, ap₂, ◌∙◌, inl, inr, false, List, [], ◌++◌, take, drop,
  length, Option, some, ok, Result-cases, append_assoc, length-append, length-drop, drop-drop, ltb,
  arith,
}
use pipewire_native_rs.Frame.Header.{u32_to_ne_bytes}
use pipewire_native_rs.Pod.Bytes.{copy, u32_at}
use pipewire_native_rs.Pod.Bytes.Fill.{
  Filled, Filled-none, Filled-copy, length-u32, take-at, drop-at, u32_at-here, u32_at-next,
}
use pipewire_native_rs.Pod.Types.{Property, U32Enum}
use pipewire_native_rs.Pod.Codec.{Pod}
use pipewire_native_rs.Pod.Codec.Laws.{RoundTrips}
use pipewire_native_rs.Pod.Primitive.Laws.{IsU32Enum}
use pipewire_native_rs.Pod.Property.{encode_property, decode_property, property_pod}

module _ {ℓ κ μ ν} {K : Type ℓ} {T : Type κ} {D : Type μ} {Fits : T → Type ν} {shown : T → D}
    (e : U32Enum K) (from_bits : ℕ → Option ℕ) (P : Pod T D) (keys : IsU32Enum e)
    (values : RoundTrips P Fits shown) where
  -- The two words before the value.
  front_bytes : Property K T → List ℕ
  front_bytes v = u32_to_ne_bytes (e.into v.key) ++ u32_to_ne_bytes v.flag_bits

  length-front : (v : Property K T) → length (front_bytes v) ≡ 8
  unfolding front_bytes u32_to_ne_bytes
  length-front v = refl

  started : Property K T → List ℕ → List ℕ
  started v buffer =
      copy 4 (u32_to_ne_bytes v.flag_bits) (copy 0 (u32_to_ne_bytes (e.into v.key)) buffer)

  started-Filled :
      (v : Property K T) (buffer : List ℕ) → Filled buffer (front_bytes v) (started v buffer)
  unfolding front_bytes started
  started-Filled v buffer =
      let word = u32_to_ne_bytes (e.into v.key) in
      Filled-copy buffer word (u32_to_ne_bytes v.flag_bits) (copy 0 word buffer)
        (length-u32 (e.into v.key)) (Filled-copy buffer [] word buffer refl (Filled-none buffer))

  property-ok :
      (v : Property K T) (buffer now : List ℕ) (n : ℕ)
      → encode_property e P v buffer ≡ (now, ok n)
      → (rest : List ℕ) × (m : ℕ) × (P.encode v.value (drop 8 (started v buffer)) ≡ (rest, ok m))
        × (now ≡ take 8 (started v buffer) ++ rest)
        × (n ≡ 8 + m)
        × (8 ≤ length buffer)
  unfolding encode_property started
  property-ok v buffer now n enc =
      let (rest, r) = P.encode v.value (drop 8 (started v buffer)) in
      elim (Result-cases r) [
        | inr (x, f) ↦ absurd (ground arith)
        | inl (m, f) ↦ (rest, m, ap (λ r. (rest, r)) f, ground arith, ground arith, ground arith)
      ]

  -- The properties whose flags are known and whose value fits.
  abbrev pub FitsProperty : Property K T → Type ν
  FitsProperty v =
      Fits v.value × ((from_bits v.flag_bits ≡ some v.flag_bits) × (v.flag_bits < 2 ^ 32))

  decode_property-bytes :
      (v : Property K T) (bytes : List ℕ) (m : ℕ)
      → from_bits v.flag_bits ≡ some v.flag_bits
      → v.flag_bits < 2 ^ 32
      → P.decode bytes ≡ ok (shown v.value, m)
      → decode_property e from_bits P (front_bytes v ++ bytes)
        ≡ ok (record { key = v.key; flag_bits = v.flag_bits; value = shown v.value }, 8 + m)
  unfolding decode_property front_bytes
  decode_property-bytes v bytes m known small d =
      let w1 = u32_to_ne_bytes (e.into v.key) in
      let w2 = u32_to_ne_bytes v.flag_bits in
      let whole = (w1 ++ w2) ++ bytes in
      let apart : whole ≡ w1 ++ (w2 ++ bytes) = append_assoc w1 w2 bytes in
      let size : length whole ≡ 8 + length bytes = omega (
        arith,
        length-append (w1 ++ w2) bytes,
        length-append w1 w2,
        length-u32 (e.into v.key),
        length-u32 v.flag_bits,
      ) in
      let long : ltb (length whole) 8 ≡ false = ground arith in
      let key : u32_at 0 whole ≡ e.into v.key =
        ap (u32_at 0) apart ∙ u32_at-here (e.into v.key) (w2 ++ bytes) (keys.in_range v.key) in
      let bits : u32_at 4 whole ≡ v.flag_bits =
        ap (u32_at 4) apart
        ∙ u32_at-next (e.into v.key) 0 (w2 ++ bytes)
        ∙ u32_at-here v.flag_bits bytes small in
      let value : drop 8 whole ≡ bytes = drop-at (w1 ++ w2) bytes (length-front v) in
      rw (decode_property, long, key, keys.back v.key, bits, known, value, d) refl

  -- A property whose key converts to 32 bits and back, whose flags are known and whose value reads
  -- back is read back itself.
  pub property-RoundTrips :
      RoundTrips
        (property_pod e from_bits P)
        FitsProperty
        (λ v. record { key = v.key; flag_bits = v.flag_bits; value = shown v.value })
  property-RoundTrips v buffer now n (fits, (known, small)) enc =
      let (rest, m, wrote, same, size, long) = property-ok v buffer now n enc in
      let start = started-Filled v buffer in
      let front = front_bytes v in
      let eight = length-front v in
      let begin : started v buffer ≡ front ++ drop 8 buffer =
        start ∙ ap (λ k. front ++ drop k buffer) eight in
      let kept : take 8 (started v buffer) ≡ front =
        ap (take 8) begin ∙ take-at front (drop 8 buffer) eight in
      let left : drop 8 (started v buffer) ≡ drop 8 buffer =
        ap (drop 8) begin ∙ drop-at front (drop 8 buffer) eight in
      let inner = values v.value (drop 8 (started v buffer)) rest m fits wrote in
      let room = inner.room in
      let behind : drop m (drop 8 (started v buffer)) ≡ drop n buffer =
        ap (drop m) left ∙ drop-drop m 8 buffer ∙ ap (λ k. drop k buffer) (sym size) in
      record {
        bytes = front ++ inner.bytes;
        front =
            same
            ∙ ap₂ (λ xs ys. xs ++ ys) kept (inner.front ∙ ap (λ ys. inner.bytes ++ ys) behind)
            ∙ sym (append_assoc front inner.bytes (drop n buffer));
        size = omega (arith, length-append front inner.bytes, inner.size, eight, size);
        room = omega (arith, room, ap length left, length-drop 8 buffer, size, long);
        aligned = omega (arith, inner.aligned, size);
        decodes = λ tail.
            ap (decode_property e from_bits P) (append_assoc front inner.bytes tail)
            ∙ decode_property-bytes v (inner.bytes ++ tail) m known small (inner.decodes tail)
            ∙ ap
                (λ k.
                  ok (record { key = v.key; flag_bits = v.flag_bits; value = shown v.value }, k))
                (sym size);
      }
