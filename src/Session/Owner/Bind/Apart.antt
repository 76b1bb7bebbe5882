-- ===== src/Session/Owner/Bind/Apart.antt =====
-- Intervals that share no byte, as the bindings test for it.
use pipewire_native_rs.Prelude.{
  ℕ, ◌≡◌, refl, sym, ap, ◌∙◌, inl, inr, false, Bool-cases, List, [], ◌∷◌, ◌++◌, append_assoc,
  append-nil, ok, >>=-eq-ok, Result-cases, All, arith,
}
use pipewire_native_rs.Session.Memory.{MemoryInterval, MemoryLease, overlaps, interval}
use pipewire_native_rs.Session.Memory.Overlap.{overlaps_comm}
use pipewire_native_rs.Session.Owner.{
  BufferDescriptor, BufferSetDescriptor, PortIoDescriptor, NegotiatedAudioFormat, BoundBuffer,
  OutputGeneration,
}
use pipewire_native_rs.Session.Owner.Bind.{
  World, resolve_lease, map_key, meets_any, overlap_within, bind_buffer, bind_buffers,
  bind_output_generation, buffer_intervals, output_intervals,
}
use pipewire_native_rs.Session.Owner.NodeMap.Sorted.{Pairwise}

abbrev pub AreApart : MemoryInterval → MemoryInterval → Type 0
AreApart a b = overlaps a b ≡ false

pub AreApart-comm : (a b : MemoryInterval) → AreApart a b → AreApart b a
AreApart-comm a b e = overlaps_comm b a ∙ e

-- No interval of the first list overlaps one of the second.
abbrev pub Apart : List MemoryInterval → List MemoryInterval → Type 0
Apart xs ys = All (λ x. All (AreApart x) ys) xs

pub meets_any-apart :
    (x : MemoryInterval) (ys : List MemoryInterval) → meets_any x ys ≡ false → All (AreApart x) ys
unfolding meets_any
meets_any-apart x [] e = tt
meets_any-apart x (y ∷ ys) e = elim (Bool-cases (overlaps x y)) [
  | inl f ↦ absurd (ground arith)
  | inr f ↦ (f, meets_any-apart x ys (ground arith))
]

pub overlap_within-Pairwise :
    (xs : List MemoryInterval) → overlap_within xs ≡ false → Pairwise AreApart xs
unfolding overlap_within
overlap_within-Pairwise [] e = tt
overlap_within-Pairwise (x ∷ xs) e =
    (meets_any-apart x xs (ground arith), overlap_within-Pairwise xs (ground arith))

-- Relations between lists, taken apart.
pub All-left {ℓ κ} : {A : Type ℓ} (P : A → Type κ) (xs ys : List A) → All P (xs ++ ys) → All P xs
All-left P [] ys h = tt
All-left P (x ∷ xs) ys (p, h) = (p, All-left P xs ys h)

pub All-right {ℓ κ} : {A : Type ℓ} (P : A → Type κ) (xs ys : List A) → All P (xs ++ ys) → All P ys
All-right P [] ys h = h
All-right P (x ∷ xs) ys (p, h) = All-right P xs ys h

pub Apart-left : (xs ys zs : List MemoryInterval) → Apart xs (ys ++ zs) → Apart xs ys
Apart-left [] ys zs h = tt
Apart-left (x ∷ xs) ys zs (p, h) = (All-left _ ys zs p, Apart-left xs ys zs h)

pub Apart-right : (xs ys zs : List MemoryInterval) → Apart xs (ys ++ zs) → Apart xs zs
Apart-right [] ys zs h = tt
Apart-right (x ∷ xs) ys zs (p, h) = (All-right _ ys zs p, Apart-right xs ys zs h)

Apart-nil : (xs : List MemoryInterval) → Apart xs []
Apart-nil [] = tt
Apart-nil (x ∷ xs) = (tt, Apart-nil xs)

Apart-cons :
    (y : MemoryInterval) (xs ys : List MemoryInterval)
    → All (λ x. AreApart x y) xs
    → Apart xs ys
    → Apart xs (y ∷ ys)
Apart-cons y [] ys p h = tt
Apart-cons y (x ∷ xs) ys (p, ps) (q, h) = ((p, q), Apart-cons y xs ys ps h)

All-apart-comm :
    (x : MemoryInterval) (ys : List MemoryInterval)
    → All (AreApart x) ys
    → All (λ y. AreApart y x) ys
All-apart-comm x [] h = tt
All-apart-comm x (y ∷ ys) (p, h) = (AreApart-comm x y p, All-apart-comm x ys h)

pub Apart-comm : (xs ys : List MemoryInterval) → Apart xs ys → Apart ys xs
Apart-comm [] ys h = Apart-nil ys
Apart-comm (x ∷ xs) ys (p, h) = Apart-cons x ys xs (All-apart-comm x ys p) (Apart-comm xs ys h)

-- A buffer that is bound adds its two mappings to the intervals, which are then apart in pairs.
bind_buffer-intervals :
    (w : World) (leases : List MemoryLease) (intervals : List MemoryInterval) (d : BufferDescriptor)
    {b : BoundBuffer} {all : List MemoryInterval}
    → bind_buffer w leases intervals d ≡ ok (b, all)
    → (all ≡ intervals ++ (b.metadata ∷ (b.media ∷ []))) × (overlap_within all ≡ false)
unfolding bind_buffer
bind_buffer-intervals w leases intervals d e = ground arith

bind_buffers-intervals :
    (w : World) (leases : List MemoryLease) (intervals : List MemoryInterval)
    (ds : List BufferDescriptor) {bs : List BoundBuffer} {final : List MemoryInterval}
    → overlap_within intervals ≡ false
    → bind_buffers w leases intervals ds ≡ ok (bs, final)
    → (final ≡ intervals ++ buffer_intervals bs) × (overlap_within final ≡ false)
unfolding bind_buffers buffer_intervals
bind_buffers-intervals w leases intervals [] {bs} {final} h e =
    let none_bound : bs ≡ [] = ground arith in
    let same : final ≡ intervals = ground arith in
    rw (none_bound, same) (sym (append-nil intervals), h)
bind_buffers-intervals w leases intervals (d ∷ ds) {bs} {final} h e =
    let ((b, all), first, more) = >>=-eq-ok (bind_buffer w leases intervals d) _ e in
    let ((rest, last), others, done) = >>=-eq-ok (bind_buffers w leases all ds) _ more in
    let (grown, clear) = bind_buffer-intervals w leases intervals d first in
    let (total, apart) = bind_buffers-intervals w leases all ds clear others in
    let all_bound : bs ≡ b ∷ rest = ground arith in
    let same : final ≡ last = ground arith in
    rw (all_bound, same)
      (
        total
            ∙ ap (λ xs. xs ++ buffer_intervals rest) grown
            ∙ append_assoc intervals (b.metadata ∷ (b.media ∷ [])) (buffer_intervals rest),
        apart,
      )

-- The mappings of an output that is bound are apart in pairs.
pub bind_output_generation-Pairwise :
    (w : World) (id : ℕ) (format : NegotiatedAudioFormat) (set : BufferSetDescriptor)
    (d : PortIoDescriptor) (leases : List MemoryLease) {o : OutputGeneration}
    → bind_output_generation w id format set d leases ≡ ok o
    → Pairwise AreApart (output_intervals o)
unfolding bind_output_generation overlap_within meets_any
bind_output_generation-Pairwise w id format set d leases {o} e =
    elim (Result-cases (resolve_lease leases d.region.memory)) [
      | inr (x, f) ↦ absurd (ground arith)
      | inl (key, f) ↦ elim (Result-cases (map_key w leases key d.region.offset d.region.len)) [
        | inr (x, g) ↦ absurd (ground arith)
        | inl (io, g) ↦ elim (Result-cases (bind_buffers w leases (interval io ∷ []) set.buffers)) [
          | inr (x, h) ↦ absurd (ground arith)
          | inl ((bs, final), h) ↦
              let (total, apart) =
                bind_buffers-intervals w leases (interval io ∷ []) set.buffers refl h in
              let bound : output_intervals o ≡ interval io ∷ buffer_intervals bs = ground arith in
              overlap_within-Pairwise (output_intervals o)
                (ap overlap_within (bound ∙ sym total) ∙ apart)
        ]
      ]
    ]
