-- ===== src/Pod/Bytes/Fill.antt =====
-- Filling a buffer from its front, and reading back.
use pipewire_native_rs.Prelude.{
  ℕ, zero, suc, ◌+◌, ◌-◌, ◌^◌, ◌<◌, ◌≡◌, refl, sym, ap, ap₂, ◌∙◌, List, [], ◌∷◌, ◌++◌, take, drop,
  slice, length, append_assoc, length-append, drop-drop, take_append, take_all, arith,
}
use pipewire_native_rs.Frame.Header.{u32_from_ne_bytes, u32_to_ne_bytes}
use pipewire_native_rs.Frame.Header.RoundTrip.{from-to, to-bytes}
use pipewire_native_rs.Prelude.Int.{ℤ, pos, negsuc}
use pipewire_native_rs.Pod.Bytes.{
  copy, within, zeros, u32_at, u64_to_ne_bytes, u64_at, to_unsigned, to_signed,
}

-- The buffer `now` was filled from `buffer` with the bytes `enc` at its front.
abbrev pub Filled : List ℕ → List ℕ → List ℕ → Type 0
Filled buffer enc now = now ≡ enc ++ drop (length enc) buffer

take-front {ℓ} : {A : Type ℓ} (xs ys : List A) → take (length xs) (xs ++ ys) ≡ xs
take-front xs ys =
    take_append (length xs) xs ys (omega arith) ∙ take_all (length xs) xs (omega arith)

drop-front {ℓ} : {A : Type ℓ} (xs ys : List A) → drop (length xs) (xs ++ ys) ≡ ys
drop-front [] ys = refl
drop-front (x ∷ xs) ys = drop-front xs ys

pub take-at {ℓ} : {A : Type ℓ} (xs ys : List A) {n : ℕ} → length xs ≡ n → take n (xs ++ ys) ≡ xs
take-at xs ys e = rw (← e) (take-front xs ys)

pub drop-at {ℓ} : {A : Type ℓ} (xs ys : List A) {n : ℕ} → length xs ≡ n → drop n (xs ++ ys) ≡ ys
drop-at xs ys e = rw (← e) (drop-front xs ys)

pub Filled-none : (buffer : List ℕ) → Filled buffer [] buffer
Filled-none buffer = refl

-- What is written into the rest of the buffer comes behind what is there.
pub Filled-within :
    (buffer enc bs now : List ℕ) (f : List ℕ → List ℕ) {at : ℕ}
    → length enc ≡ at
    → Filled buffer enc now
    → f (drop at buffer) ≡ bs ++ drop (length bs) (drop at buffer)
    → Filled buffer (enc ++ bs) (within at f now)
unfolding within
Filled-within buffer enc bs now f {at} e filled wrote =
    let start : now ≡ enc ++ drop at buffer = rw (← e) filled in
    let front = ap (take at) start ∙ take-at enc (drop at buffer) e in
    let back = ap (drop at) start ∙ drop-at enc (drop at buffer) e in
    let width : at + length bs ≡ length (enc ++ bs) = omega (arith, length-append enc bs) in
    let left = drop-drop (length bs) at buffer ∙ ap (λ n. drop n buffer) width in
    ap₂ (λ xs ys. xs ++ ys) front (ap f back ∙ wrote ∙ ap (λ ys. bs ++ ys) left)
    ∙ sym (append_assoc enc bs (drop (length (enc ++ bs)) buffer))

pub Filled-copy :
    (buffer enc bs now : List ℕ) {at : ℕ}
    → length enc ≡ at
    → Filled buffer enc now
    → Filled buffer (enc ++ bs) (copy at bs now)
unfolding copy within
Filled-copy buffer enc bs now {at} e filled =
    let rest = ap (λ ys. bs ++ ys) (sym (drop-drop (length bs) at now)) in
    ap (λ ys. take at now ++ ys) rest
    ∙ Filled-within buffer enc bs now (λ xs. bs ++ drop (length bs) xs) e filled refl

pub length-u32 : (x : ℕ) → length (u32_to_ne_bytes x) ≡ 4
length-u32 x = (to-bytes x).0

pub length-zeros : (n : ℕ) → length (zeros n) ≡ n
length-zeros zero = refl
length-zeros (suc n) = ap suc (length-zeros n)

pub u32_at-here : (x : ℕ) (rest : List ℕ) → x < 2 ^ 32 → u32_at 0 (u32_to_ne_bytes x ++ rest) ≡ x
unfolding u32_to_ne_bytes
u32_at-here x rest h = from-to x h

pub u32_at-next :
    (x k : ℕ) (rest : List ℕ) → u32_at (4 + k) (u32_to_ne_bytes x ++ rest) ≡ u32_at k rest
unfolding u32_to_ne_bytes
u32_at-next x k rest =
    let width : 4 + k + 4 - (4 + k) ≡ k + 4 - k = omega arith in
    ap₂ (λ n ys. u32_from_ne_bytes (take n ys)) width
      (sym (drop-drop k 4 (u32_to_ne_bytes x ++ rest)))

-- A slice of what stands between `pre` and `post`.
pub slice-middle {ℓ} :
    {A : Type ℓ} (pre xs post : List A) {at end : ℕ}
    → length pre ≡ at
    → at + length xs ≡ end
    → slice at end (pre ++ (xs ++ post)) ≡ xs
slice-middle pre xs post {at} {end} e f =
    let width : end - at ≡ length xs = omega arith in
    ap₂ (λ n ys. take n ys) width (drop-at pre (xs ++ post) e) ∙ take-at xs post refl

pub u64_at-here : (x : ℕ) (rest : List ℕ) → x < 2 ^ 64 → u64_at 0 (u64_to_ne_bytes x ++ rest) ≡ x
unfolding u64_to_ne_bytes u32_to_ne_bytes u32_from_ne_bytes
u64_at-here x rest h = omega arith

pub length-u64 : (x : ℕ) → length (u64_to_ne_bytes x) ≡ 8
unfolding u64_to_ne_bytes u32_to_ne_bytes
length-u64 x = refl

-- The values of a signed integer of `w` bits.
abbrev pub FitsSigned : ℕ → ℤ → Type 0
FitsSigned w (pos n) = n < 2 ^ (w - 1)
FitsSigned w (negsuc n) = n < 2 ^ (w - 1)

pub signed-unsigned_32 :
    (z : ℤ) → FitsSigned 32 z → (to_signed 32 (to_unsigned 32 z) ≡ z) × (to_unsigned 32 z < 2 ^ 32)
signed-unsigned_32 (pos n) h = ground arith
signed-unsigned_32 (negsuc n) h = (ground arith, omega arith)

pub signed-unsigned_64 :
    (z : ℤ) → FitsSigned 64 z → (to_signed 64 (to_unsigned 64 z) ≡ z) × (to_unsigned 64 z < 2 ^ 64)
signed-unsigned_64 (pos n) h = ground arith
signed-unsigned_64 (negsuc n) h = (ground arith, omega arith)
