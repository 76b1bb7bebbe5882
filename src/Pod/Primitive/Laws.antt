-- ===== src/Pod/Primitive/Laws.antt =====
-- Each primitive's body is read back.
use pipewire_native_rs.Prelude.{
  ℕ, ◌≤◌, ◌<◌, ◌^◌, ◌≡◌, refl, sym, ap, ap₂, ◌∙◌, Bool, true, false, List, [], ◌++◌, length, some,
  ok, arith, append-nil,
}
use pipewire_native_rs.Frame.Header.{u32_to_ne_bytes}
use pipewire_native_rs.Pod.Bytes.{copy, u32_at, u64_to_ne_bytes, u64_at, to_unsigned, to_signed}
use pipewire_native_rs.Pod.Bytes.Fill.{
  Filled, Filled-none, Filled-copy, length-u32, length-u64, u32_at-here, u32_at-next, u64_at-here,
  FitsSigned, signed-unsigned_32, signed-unsigned_64,
}
use pipewire_native_rs.Pod.Types.{PodType, Rectangle, Fraction, U32Enum}
use pipewire_native_rs.Pod.Primitive.{
  Primitive, unit_primitive, bool_primitive, bool_code, id_primitive, word_primitive,
  long_word_primitive, int_primitive, long_primitive, fd_primitive, float_primitive,
  double_primitive, rectangle_primitive, fraction_primitive,
}

-- The body is `pod_size` bytes at the front of what it is written into, and reads back.
pub record IsPrimitive {ℓ κ} {T : Type ℓ} (P : Primitive T) (Fits : T → Type κ) : Type (ℓ ⊔ κ) where
  pub body : T → List ℕ
  pub small : P.pod_size ≤ 8
  pub length_body : (v : T) → length (body v) ≡ P.pod_size
  pub writes : (v : T) (buffer : List ℕ) → Filled buffer (body v) (P.encode_body v buffer)
  pub reads : (v : T) → Fits v → P.decode_body (body v) ≡ ok v

abbrev Always {ℓ} : {T : Type ℓ} → T → Type 0
Always v = Unit {0}

abbrev pub IsU32 : ℕ → Type 0
IsU32 n = n < 2 ^ 32

-- The conversions to a number of 32 bits and back.
pub record IsU32Enum {ℓ} {K : Type ℓ} (e : U32Enum K) : Type ℓ where
  pub in_range : (k : K) → e.into k < 2 ^ 32
  pub back : (k : K) → e.from (e.into k) ≡ some k

first-copy : (bs buffer : List ℕ) → Filled buffer bs (copy 0 bs buffer)
first-copy bs buffer = Filled-copy buffer [] bs buffer refl (Filled-none buffer)

u32_at-only : (n : ℕ) → n < 2 ^ 32 → u32_at 0 (u32_to_ne_bytes n) ≡ n
u32_at-only n h = ap (u32_at 0) (sym (append-nil (u32_to_ne_bytes n))) ∙ u32_at-here n [] h

u64_at-only : (n : ℕ) → n < 2 ^ 64 → u64_at 0 (u64_to_ne_bytes n) ≡ n
u64_at-only n h = ap (u64_at 0) (sym (append-nil (u64_to_ne_bytes n))) ∙ u64_at-here n [] h

pub unit-IsPrimitive : IsPrimitive unit_primitive Always
unit-IsPrimitive = record {
  body = λ v. [];
  small = omega arith;
  length_body = λ v. refl;
  writes = λ v buffer. refl;
  reads = λ v h. refl;
}

word-IsPrimitive {ℓ κ} :
    {T : Type ℓ} (kind : PodType) (bits : T → ℕ) (value : ℕ → T) (Fits : T → Type κ)
    → ((v : T) → Fits v → (value (bits v) ≡ v) × (bits v < 2 ^ 32))
    → IsPrimitive (word_primitive kind bits value) Fits
word-IsPrimitive kind bits value Fits h = record {
  body = λ v. u32_to_ne_bytes (bits v);
  small = omega arith;
  length_body = λ v. length-u32 (bits v);
  writes = λ v buffer. first-copy (u32_to_ne_bytes (bits v)) buffer;
  reads = λ v f. ap (λ n. ok (value n)) (u32_at-only (bits v) (h v f).1) ∙ ap ok (h v f).0;
}

long_word-IsPrimitive {ℓ κ} :
    {T : Type ℓ} (kind : PodType) (bits : T → ℕ) (value : ℕ → T) (Fits : T → Type κ)
    → ((v : T) → Fits v → (value (bits v) ≡ v) × (bits v < 2 ^ 64))
    → IsPrimitive (long_word_primitive kind bits value) Fits
long_word-IsPrimitive kind bits value Fits h = record {
  body = λ v. u64_to_ne_bytes (bits v);
  small = omega arith;
  length_body = λ v. length-u64 (bits v);
  writes = λ v buffer. first-copy (u64_to_ne_bytes (bits v)) buffer;
  reads = λ v f. ap (λ n. ok (value n)) (u64_at-only (bits v) (h v f).1) ∙ ap ok (h v f).0;
}

bool_reads : (b : Bool) → bool_primitive.decode_body (u32_to_ne_bytes (bool_code b)) ≡ ok b
unfolding u32_to_ne_bytes pipewire_native_rs.Frame.Header.u32_from_ne_bytes
bool_reads true = refl
bool_reads false = refl

pub bool-IsPrimitive : IsPrimitive bool_primitive Always
bool-IsPrimitive = record {
  body = λ v. u32_to_ne_bytes (bool_code v);
  small = omega arith;
  length_body = λ v. length-u32 (bool_code v);
  writes = λ v buffer. first-copy (u32_to_ne_bytes (bool_code v)) buffer;
  reads = λ v h. bool_reads v;
}

id_reads {ℓ} :
    {K : Type ℓ} (e : U32Enum K)
    → IsU32Enum e
    → (k : K) → (id_primitive e).decode_body (u32_to_ne_bytes (e.into k)) ≡ ok k
id_reads e law k = rw (u32_at-only (e.into k) (law.in_range k), law.back k) refl

pub id-IsPrimitive {ℓ} :
    {K : Type ℓ} (e : U32Enum K) → IsU32Enum e → IsPrimitive (id_primitive e) Always
id-IsPrimitive e law = record {
  body = λ v. u32_to_ne_bytes (e.into v);
  small = omega arith;
  length_body = λ v. length-u32 (e.into v);
  writes = λ v buffer. first-copy (u32_to_ne_bytes (e.into v)) buffer;
  reads = λ v h. id_reads e law v;
}

pub int-IsPrimitive : IsPrimitive int_primitive (FitsSigned 32)
int-IsPrimitive = word-IsPrimitive _ (to_unsigned 32) (to_signed 32) _ signed-unsigned_32

pub long-IsPrimitive : IsPrimitive long_primitive (FitsSigned 64)
long-IsPrimitive = long_word-IsPrimitive _ (to_unsigned 64) (to_signed 64) _ signed-unsigned_64

pub fd-IsPrimitive : IsPrimitive fd_primitive (FitsSigned 64)
fd-IsPrimitive = long_word-IsPrimitive _ (to_unsigned 64) (to_signed 64) _ signed-unsigned_64

pub float-IsPrimitive : IsPrimitive float_primitive IsU32
float-IsPrimitive = word-IsPrimitive _ _ _ _ (λ v h. (refl, h))

abbrev pub IsU64 : ℕ → Type 0
IsU64 n = n < 2 ^ 64

pub double-IsPrimitive : IsPrimitive double_primitive IsU64
double-IsPrimitive = long_word-IsPrimitive _ _ _ _ (λ v h. (refl, h))

-- Two words, one behind the other.
pair_writes :
    (a b : ℕ) (buffer : List ℕ)
    → Filled buffer
        (u32_to_ne_bytes a ++ u32_to_ne_bytes b)
        (copy 4 (u32_to_ne_bytes b) (copy 0 (u32_to_ne_bytes a) buffer))
pair_writes a b buffer =
    Filled-copy buffer (u32_to_ne_bytes a) (u32_to_ne_bytes b) _ (length-u32 a)
      (first-copy (u32_to_ne_bytes a) buffer)

pair_length : (a b : ℕ) → length (u32_to_ne_bytes a ++ u32_to_ne_bytes b) ≡ 8
unfolding u32_to_ne_bytes
pair_length a b = refl

abbrev pub FitsRectangle : Rectangle → Type 0
FitsRectangle r = IsU32 r.width × IsU32 r.height

abbrev pub FitsFraction : Fraction → Type 0
FitsFraction r = IsU32 r.num × IsU32 r.denom

pair_reads :
    (a b : ℕ)
    → IsU32 a
    → IsU32 b
    → (u32_at 0 (u32_to_ne_bytes a ++ u32_to_ne_bytes b) ≡ a)
      × (u32_at 4 (u32_to_ne_bytes a ++ u32_to_ne_bytes b) ≡ b)
pair_reads a b h k = (u32_at-here a _ h, u32_at-next a 0 (u32_to_ne_bytes b) ∙ u32_at-only b k)

pub rectangle-IsPrimitive : IsPrimitive rectangle_primitive FitsRectangle
rectangle-IsPrimitive = record {
  body = λ v. u32_to_ne_bytes v.width ++ u32_to_ne_bytes v.height;
  small = omega arith;
  length_body = λ v. pair_length v.width v.height;
  writes = λ v buffer. pair_writes v.width v.height buffer;
  reads = λ v h.
      let (w, x) = pair_reads v.width v.height h.0 h.1 in
      ap₂ (λ a b. ok (record { width = a; height = b })) w x;
}

pub fraction-IsPrimitive : IsPrimitive fraction_primitive FitsFraction
fraction-IsPrimitive = record {
  body = λ v. u32_to_ne_bytes v.num ++ u32_to_ne_bytes v.denom;
  small = omega arith;
  length_body = λ v. pair_length v.num v.denom;
  writes = λ v buffer. pair_writes v.num v.denom buffer;
  reads = λ v h.
      let (w, x) = pair_reads v.num v.denom h.0 h.1 in
      ap₂ (λ a b. ok (record { num = a; denom = b })) w x;
}
