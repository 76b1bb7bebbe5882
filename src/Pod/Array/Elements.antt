-- ===== src/Pod/Array/Elements.antt =====
-- The elements of an array, written one after the other and read back.
use pipewire_native_rs.Prelude.{
  ℕ, ◌+◌, ◌-◌, ◌*◌, ◌/◌, ◌≤◌, ◌<◌, ◌≡◌, refl, sym, ap, ap₂, ◌∙◌, true, List, [], ◌∷◌, ◌++◌, take,
  drop, length, All, ok, arith, append-nil, append_assoc, length-append, length-take, length-drop,
  take-append-drop, drop-drop,
}
use native.Mathlib.Nat.{mul-div_cancel}
use pipewire_native_rs.Frame.Header.{u32_from_ne_bytes}
use pipewire_native_rs.Pod.Bytes.{within, u32_at}
use pipewire_native_rs.Pod.Bytes.Fill.{Filled, Filled-within, take-at, drop-at}
use pipewire_native_rs.Pod.Types.{PodType, type_code, try_from-type_code}
use pipewire_native_rs.Pod.Codec.{pad_8}
use pipewire_native_rs.Pod.Primitive.{Primitive}
use pipewire_native_rs.Pod.Primitive.Laws.{IsPrimitive}
use pipewire_native_rs.Pod.Array.{is_type, encode_elems, decode_chunks}

pub is_type_self : (kind : PodType) → is_type kind (type_code kind) ≡ true
is_type_self kind = rw (is_type, try_from-type_code kind) (ground arith)

-- Bytes that are left as they were.
pub Filled-left :
    (buffer enc now : List ℕ) (k : ℕ)
    → length enc + k ≤ length buffer
    → Filled buffer enc now
    → Filled buffer (enc ++ take k (drop (length enc) buffer)) now
Filled-left buffer enc now k room filled =
    let rest = drop (length enc) buffer in
    let width : length enc + k ≡ length (enc ++ take k rest) = omega (
      arith,
      length-append enc (take k rest),
      length-take k rest,
      length-drop (length enc) buffer,
    ) in
    let behind : drop k rest ≡ drop (length (enc ++ take k rest)) buffer =
      drop-drop k (length enc) buffer ∙ ap (λ n. drop n buffer) width in
    filled
    ∙ ap (λ xs. enc ++ xs) (sym (take-append-drop k rest))
    ∙ sym (append_assoc enc (take k rest) (drop k rest))
    ∙ ap (λ xs. (enc ++ take k rest) ++ xs) behind

-- A word further on in a buffer.
pub u32_at-drop : (k at : ℕ) (buffer : List ℕ) → u32_at (k + at) buffer ≡ u32_at at (drop k buffer)
u32_at-drop k at buffer =
    let width : k + at + 4 - (k + at) ≡ at + 4 - at = omega arith in
    ap₂ (λ n xs. u32_from_ne_bytes (take n xs)) width (sym (drop-drop at k buffer))

pub pad_8-array : (n : ℕ) → pad_8 (8 + n) ≡ pad_8 n
unfolding pad_8
pad_8-array n = ground arith

pub mul-div_self : (c n : ℕ) → 0 < c → c * n / c ≡ n
mul-div_self c n h =
    let swapped : c * n ≡ n * c = omega arith in ap (λ k. k / c) swapped ∙ mul-div_cancel n h

module _ {ℓ κ} {T : Type ℓ} {Fits : T → Type κ} (P : Primitive T) (law : IsPrimitive P Fits) where
  abbrev pub bodies : List T → List ℕ
  bodies [] = []
  bodies (v ∷ vs) = law.body v ++ bodies vs

  pub length-bodies : (vs : List T) → length (bodies vs) ≡ P.pod_size * length vs
  length-bodies [] = omega arith
  length-bodies (v ∷ vs) =
      omega (arith, length-append (law.body v) (bodies vs), law.length_body v, length-bodies vs)

  pub encode_elems-Filled :
      (vs : List T) (buffer enc now : List ℕ) {at : ℕ}
      → length enc ≡ at
      → Filled buffer enc now
      → Filled buffer (enc ++ bodies vs) (encode_elems P at vs now)
  unfolding encode_elems
  encode_elems-Filled [] buffer enc now e filled =
      filled ∙ ap (λ bs. bs ++ drop (length bs) buffer) (sym (append-nil enc))
  encode_elems-Filled (v ∷ vs) buffer enc now {at} e filled =
      let one =
        Filled-within buffer enc (law.body v) now (P.encode_body v) e filled
          (law.writes v (drop at buffer)) in
      let more =
        encode_elems-Filled vs buffer (enc ++ law.body v) (within at (P.encode_body v) now)
          (omega (arith, length-append enc (law.body v), law.length_body v)) one in
      more ∙ ap (λ bs. bs ++ drop (length bs) buffer) (append_assoc enc (law.body v) (bodies vs))

  pub decode_chunks-bodies :
      (vs : List T) → All Fits vs → decode_chunks P (length vs) (bodies vs) ≡ ok vs
  unfolding decode_chunks
  decode_chunks-bodies [] h = refl
  decode_chunks-bodies (v ∷ vs) (f, h) =
      rw
        (
          take-at (law.body v) (bodies vs) (law.length_body v),
          law.reads v f,
          drop-at (law.body v) (bodies vs) (law.length_body v),
          decode_chunks-bodies vs h,
        )
        refl
