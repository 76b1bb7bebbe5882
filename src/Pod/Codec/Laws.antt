-- ===== src/Pod/Codec/Laws.antt =====
-- What it means that a POD decodes to what was encoded.
use pipewire_native_rs.Prelude.{
  ℕ, ◌+◌, ◌%◌, ◌^◌, ◌≤◌, ◌<◌, ◌≡◌, refl, sym, ap, ◌∙◌, Bool-cases, inl, inr, ltb, if◌then◌else◌,
  List, [], ◌++◌, drop, append-nil, append_assoc, length-append, slice, length, ok, arith,
}
use pipewire_native_rs.Pod.Codec.{Pod, pad_8, pod_total_size, put_header}
use pipewire_native_rs.Frame.Header.{u32_to_ne_bytes}
use native.Mathlib.Nat.{mod-eq_of_lt}
use pipewire_native_rs.Pod.Bytes.{copy, u32_at, zeros}
use pipewire_native_rs.Pod.Bytes.Fill.{
  Filled, Filled-none, Filled-copy, length-u32, u32_at-here, u32_at-next, slice-middle, drop-at,
}
use pipewire_native_rs.Pod.Types.{PodType, type_code, type_code-small}

-- An encoding that succeeds fills the front of the buffer and leaves the rest; what stands there
-- decodes to the value, whatever comes behind it, with the number of bytes, which is a multiple
-- of 8.
pub record RoundTrip {ℓ κ} {T : Type ℓ} {D : Type κ} (P : Pod T D) (v : T) (d : D) (buffer : List ℕ)
    (now : List ℕ) (n : ℕ) : Type κ where
  pub bytes : List ℕ
  pub front : now ≡ bytes ++ drop n buffer
  pub size : length bytes ≡ n
  pub room : n ≤ length buffer
  pub aligned : n % 8 ≡ 0
  pub decodes : (tail : List ℕ) → P.decode (bytes ++ tail) ≡ ok (d, n)

-- Each value that fits its type is read back.
abbrev pub RoundTrips {ℓ κ μ} :
    {T : Type ℓ} {D : Type κ} → Pod T D → (T → Type μ) → (T → D) → Type (ℓ ⊔ κ ⊔ μ)
RoundTrips {T} P Fits shown =
    (v : T) (buffer now : List ℕ) (n : ℕ)
    → Fits v
    → P.encode v buffer ≡ (now, ok n)
    → RoundTrip P v (shown v) buffer now n

pub pad-aligned : (n : ℕ) → ((n + pad_8 n) % 8 ≡ 0) × (pad_8 n < 8)
unfolding pad_8
pad-aligned n = ground arith

pub total-size : (n : ℕ) → n < 2 ^ 32 → pod_total_size n ≡ ok (8 + n + pad_8 n)
unfolding pod_total_size
total-size n h = let p = pad-aligned n in ground arith

-- The header's bytes.
abbrev pub header_bytes : ℕ → PodType → List ℕ
header_bytes size kind = u32_to_ne_bytes (size % 2 ^ 32) ++ u32_to_ne_bytes (type_code kind)

pub length-header : (size : ℕ) (kind : PodType) → length (header_bytes size kind) ≡ 8
unfolding u32_to_ne_bytes
length-header size kind = refl

pub put_header-Filled :
    (size : ℕ) (kind : PodType) (buffer : List ℕ)
    → Filled buffer (header_bytes size kind) (put_header size kind buffer)
unfolding put_header
put_header-Filled size kind buffer =
    let word = u32_to_ne_bytes (size % 2 ^ 32) in
    let first = Filled-copy buffer [] word buffer refl (Filled-none buffer) in
    Filled-copy buffer word (u32_to_ne_bytes (type_code kind)) (copy 0 word buffer)
      (length-u32 (size % 2 ^ 32)) first

pub header_size :
    (size : ℕ) (kind : PodType) (rest : List ℕ)
    → size < 2 ^ 32
    → u32_at 0 (header_bytes size kind ++ rest) ≡ size
header_size size kind rest h =
    ap (u32_at 0)
      (append_assoc (u32_to_ne_bytes (size % 2 ^ 32)) (u32_to_ne_bytes (type_code kind)) rest)
    ∙ u32_at-here (size % 2 ^ 32) _ (omega arith)
    ∙ mod-eq_of_lt h

pub header_type :
    (size : ℕ) (kind : PodType) (rest : List ℕ)
    → u32_at 4 (header_bytes size kind ++ rest) ≡ type_code kind
header_type size kind rest =
    ap (u32_at 4)
      (append_assoc (u32_to_ne_bytes (size % 2 ^ 32)) (u32_to_ne_bytes (type_code kind)) rest)
    ∙ u32_at-next (size % 2 ^ 32) 0 (u32_to_ne_bytes (type_code kind) ++ rest)
    ∙ u32_at-here (type_code kind) rest (type_code-small kind)

-- Padding, whether it is written or left out for being empty.
pub padding-Filled :
    (buffer enc now : List ℕ) (padding : ℕ) {at : ℕ}
    → length enc ≡ at
    → Filled buffer enc now
    → Filled buffer
        (enc ++ zeros padding)
        (if ltb 0 padding then copy at (zeros padding) now else now)
padding-Filled buffer enc now padding {at} e filled = elim (Bool-cases (ltb 0 padding)) [
  | inl some ↦ rw some (Filled-copy buffer enc (zeros padding) now e filled)
  | inr none ↦
      let nothing : padding ≡ 0 = ground arith in
      rw (none, nothing) (filled ∙ ap (λ bs. bs ++ drop (length bs) buffer) (sym (append-nil enc)))
]

-- The bytes of a POD with this body and this padding.
abbrev pub pod_bytes : ℕ → PodType → List ℕ → List ℕ → List ℕ
pod_bytes size kind body padding = (header_bytes size kind ++ body) ++ padding

-- What `decode` reads of them.
pub record Reads (size : ℕ) (kind : PodType) (body : List ℕ) (buffer : List ℕ) : Type 0 where
  pub long : 8 + size + pad_8 size ≤ length buffer
  pub size_read : u32_at 0 buffer ≡ size
  pub type_read : u32_at 4 buffer ≡ type_code kind
  pub body_read : slice 8 (8 + size) buffer ≡ body
  pub rest : List ℕ
  pub behind : drop 8 buffer ≡ body ++ rest

pub length-pod_bytes :
    (size : ℕ) (kind : PodType) (body padding : List ℕ)
    → length body ≡ size
    → length padding ≡ pad_8 size
    → length (pod_bytes size kind body padding) ≡ 8 + size + pad_8 size
length-pod_bytes size kind body padding l p = omega (
  arith,
  length-append (header_bytes size kind ++ body) padding,
  length-append (header_bytes size kind) body,
  length-header size kind,
)

pub pod_bytes-Reads :
    (size : ℕ) (kind : PodType) (body padding tail : List ℕ)
    → size < 2 ^ 32
    → length body ≡ size
    → length padding ≡ pad_8 size
    → Reads size kind body (pod_bytes size kind body padding ++ tail)
pod_bytes-Reads size kind body padding tail h l p =
    let header = header_bytes size kind in
    let apart : pod_bytes size kind body padding ++ tail ≡ header ++ (body ++ (padding ++ tail)) =
      append_assoc (header ++ body) padding tail ∙ append_assoc header body (padding ++ tail) in
    record {
      long = omega (
        arith,
        length-append (pod_bytes size kind body padding) tail,
        length-pod_bytes size kind body padding l p,
      );
      size_read = ap (u32_at 0) apart ∙ header_size size kind _ h;
      type_read = ap (u32_at 4) apart ∙ header_type size kind _;
      body_read =
          ap (slice 8 (8 + size)) apart
          ∙ slice-middle header body (padding ++ tail) (length-header size kind) (omega (arith, l));
      rest = padding ++ tail;
      behind =
          ap (drop 8) apart ∙ drop-at header (body ++ (padding ++ tail)) (length-header size kind);
    }

-- The parts of a round trip, put together.
pub RoundTrip-of {ℓ κ} :
    {T : Type ℓ} {D : Type κ} (P : Pod T D) (v : T) (d : D) (buffer now : List ℕ) (n size : ℕ)
    (kind : PodType) (body padding : List ℕ)
    → size < 2 ^ 32
    → length body ≡ size
    → length padding ≡ pad_8 size
    → Filled buffer (pod_bytes size kind body padding) now
    → n ≡ 8 + size + pad_8 size
    → n ≤ length buffer
    → ((whole : List ℕ)
        → Reads size kind body whole
        → P.decode whole ≡ ok (d, 8 + size + pad_8 size))
    → RoundTrip P v d buffer now n
RoundTrip-of P v d buffer now n size kind body padding h l p filled e room reads =
    let width = length-pod_bytes size kind body padding l p in
    record {
      bytes = pod_bytes size kind body padding;
      front = filled ∙ ap (λ k. pod_bytes size kind body padding ++ drop k buffer) (omega arith);
      size = omega arith;
      room = room;
      aligned = omega (arith, pad-aligned size);
      decodes = λ tail.
          reads (pod_bytes size kind body padding ++ tail)
            (pod_bytes-Reads size kind body padding tail h l p)
          ∙ ap (λ k. ok (d, k)) (sym e);
    }
