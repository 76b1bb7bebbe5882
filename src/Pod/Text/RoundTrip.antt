-- ===== src/Pod/Text/RoundTrip.antt =====
-- Strings and byte arrays decode to what was encoded.
use pipewire_native_rs.Prelude.{
  ℕ, zero, suc, take, ap₂, ◌+◌, ◌-◌, ◌≤◌, ◌<◌, ◌^◌, ◌≡◌, refl, ap, ◌∙◌, false, List, [], ◌∷◌, ◌++◌,
  drop, slice, length, some, ok, arith, ◌==◌, append_assoc, length-append, ltb, get_elem?,
}
use pipewire_native_rs.Pod.Bytes.{copy, zeros}
use pipewire_native_rs.Pod.Bytes.Fill.{Filled, Filled-copy, length-zeros, take-at}
use pipewire_native_rs.Pod.Types.{string_type, bytes_type}
use pipewire_native_rs.Pod.Codec.{pad_8, put_header}
use pipewire_native_rs.Pod.Codec.Laws.{
  RoundTrips, header_bytes, length-header, put_header-Filled, total-size, pod_bytes, Reads,
  RoundTrip-of,
}
use pipewire_native_rs.Pod.Text.{
  encode_string, decode_string, string_pod, encode_bytes, decode_bytes, bytes_pod,
}

bytes-ok :
    (s buffer now : List ℕ) (n : ℕ)
    → encode_bytes s buffer ≡ (now, ok n)
    → (now
        ≡ copy
            (8 + length s)
            (zeros (pad_8 (length s)))
            (copy 8 s (put_header (length s) bytes_type buffer)))
      × (n ≡ 8 + length s + pad_8 (length s))
      × (n ≤ length buffer)
unfolding encode_bytes
bytes-ok s buffer now n e = ground arith

bytes-Filled :
    (s buffer : List ℕ)
    → Filled buffer (pod_bytes (length s) bytes_type s (zeros (pad_8 (length s)))) (
        copy
          (8 + length s)
          (zeros (pad_8 (length s)))
          (copy 8 s (put_header (length s) bytes_type buffer)))
bytes-Filled s buffer =
    let header = header_bytes (length s) bytes_type in
    let body =
      Filled-copy buffer header s _ (length-header (length s) bytes_type)
        (put_header-Filled (length s) bytes_type buffer) in
    Filled-copy buffer (header ++ s) (zeros (pad_8 (length s))) _
      (omega (arith, length-append header s, length-header (length s) bytes_type)) body

decode_bytes-Reads :
    (s whole : List ℕ)
    → length s < 2 ^ 32
    → Reads (length s) bytes_type s whole
    → decode_bytes whole ≡ ok (s, 8 + length s + pad_8 (length s))
unfolding decode_bytes
decode_bytes-Reads s whole h r =
    let room = r.long in
    let total = total-size (length s) h in
    let long : ltb (length whole) 8 ≡ false = ground arith in
    let enough : ltb (length whole) (8 + length s + pad_8 (length s)) ≡ false = ground arith in
    rw (decode_bytes, long, r.size_read, total, enough, r.type_read, r.body_read) refl

-- The lengths that a header can hold.
abbrev pub FitsLength : ℕ → List ℕ → Type 0
FitsLength extra s = length s + extra < 2 ^ 32

-- Byte arrays of less than 2^32 bytes are read back.
bytes-RoundTrips : RoundTrips bytes_pod (FitsLength 0) (λ s. s)
bytes-RoundTrips s buffer now n h e =
    let (same, size, room) = bytes-ok s buffer now n e in
    RoundTrip-of bytes_pod s s buffer now n (length s) bytes_type s (zeros (pad_8 (length s)))
      (omega arith) refl (length-zeros (pad_8 (length s))) (same ∙ bytes-Filled s buffer) size room
      (λ whole r. decode_bytes-Reads s whole (omega arith) r)

get_elem?-drop {ℓ} :
    {A : Type ℓ} (xs : List A) (k i : ℕ) → get_elem? xs (k + i) ≡ get_elem? (drop k xs) i
get_elem?-drop xs zero i = ap (get_elem? xs) (omega arith)
get_elem?-drop [] (suc k) i = refl
get_elem?-drop (x ∷ xs) (suc k) i =
    let inner : suc k + i ≡ suc (k + i) = omega arith in
    ap (get_elem? (x ∷ xs)) inner ∙ get_elem?-drop xs k i

get_elem?-end {ℓ} :
    {A : Type ℓ} (xs : List A) (y : A) (ys : List A)
    → get_elem? (xs ++ (y ∷ ys)) (length xs) ≡ some y
get_elem?-end [] y ys = refl
get_elem?-end (x ∷ xs) y ys = get_elem?-end xs y ys

string-ok :
    (s buffer now : List ℕ) (n : ℕ)
    → encode_string s buffer ≡ (now, ok n)
    → (now
        ≡ copy (8 + (length s + 1)) (zeros (pad_8 (length s + 1))) (
            copy (8 + length s) (0 ∷ []) (copy 8 s (put_header (length s + 1) string_type buffer))))
      × (n ≡ 8 + (length s + 1) + pad_8 (length s + 1))
      × (n ≤ length buffer)
unfolding encode_string
string-ok s buffer now n e = ground arith

string-Filled :
    (s buffer : List ℕ)
    → Filled buffer
        (pod_bytes (length s + 1) string_type (s ++ (0 ∷ [])) (zeros (pad_8 (length s + 1))))
        (copy
          (8 + (length s + 1))
          (zeros (pad_8 (length s + 1)))
          (copy (8 + length s) (0 ∷ []) (copy 8 s (put_header (length s + 1) string_type buffer))))
string-Filled s buffer =
    let len = length s + 1 in
    let header = header_bytes len string_type in
    let body =
      Filled-copy buffer header s _ (length-header len string_type)
        (put_header-Filled len string_type buffer) in
    let ended =
      Filled-copy buffer (header ++ s) (0 ∷ []) _
        (omega (arith, length-append header s, length-header len string_type)) body in
    let padded =
      Filled-copy buffer ((header ++ s) ++ (0 ∷ [])) (zeros (pad_8 len)) _
        (omega (
          arith,
          length-append (header ++ s) (0 ∷ []),
          length-append header s,
          length-header len string_type,
        ))
        ended in
    padded
    ∙ ap (λ bs. (bs ++ zeros (pad_8 len)) ++ drop (length (bs ++ zeros (pad_8 len))) buffer)
        (append_assoc header s (0 ∷ []))

decode_string-Reads :
    (lossy : List ℕ → List ℕ) (s whole : List ℕ)
    → lossy s ≡ s
    → length s + 1 < 2 ^ 32
    → Reads (length s + 1) string_type (s ++ (0 ∷ [])) whole
    → decode_string lossy whole ≡ ok (s, 8 + (length s + 1) + pad_8 (length s + 1))
unfolding decode_string
decode_string-Reads lossy s whole clean h r =
    let room = r.long in
    let len = length s + 1 in
    let total = total-size len h in
    let long : ltb (length whole) 8 ≡ false = ground arith in
    let some_byte : (len == 0) ≡ false = ground arith in
    let enough : ltb (length whole) (8 + len + pad_8 len) ≡ false = ground arith in
    let at_end : 8 + len - 1 ≡ 8 + length s = omega arith in
    let behind : drop 8 whole ≡ s ++ (0 ∷ r.rest) = r.behind ∙ append_assoc s (0 ∷ []) r.rest in
    let width : 8 + length s - 8 ≡ length s = omega arith in
    let text : slice 8 (8 + length s) whole ≡ s =
      ap₂ take width behind ∙ take-at s (0 ∷ r.rest) refl in
    let last : get_elem? whole (8 + length s) ≡ some 0 =
      get_elem?-drop whole 8 (length s)
      ∙ ap (λ xs. get_elem? xs (length s)) behind
      ∙ get_elem?-end s 0 r.rest in
    rw
      (
        decode_string, long, r.size_read, some_byte, total, enough, r.type_read, at_end, last,
        r.size_read, at_end, text, clean,
      )
      refl

-- Strings of less than 2^32 - 1 bytes that are UTF-8 are read back.
pub string-RoundTrips :
    (lossy : List ℕ → List ℕ)
    → RoundTrips (string_pod lossy) (λ s. (lossy s ≡ s) × FitsLength 1 s) (λ s. s)
string-RoundTrips lossy s buffer now n (clean, h) e =
    let (same, size, room) = string-ok s buffer now n e in
    let len = length s + 1 in
    RoundTrip-of (string_pod lossy) s s buffer now n len string_type (s ++ (0 ∷ []))
      (zeros (pad_8 len)) (omega arith) (length-append s (0 ∷ [])) (length-zeros (pad_8 len))
      (same ∙ string-Filled s buffer) size room
      (λ whole r. decode_string-Reads lossy s whole clean (omega arith) r)
