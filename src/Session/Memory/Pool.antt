-- ===== src/Session/Memory/Pool.antt =====
-- `MemoryPool`: identifiers are unique while live, generations are never used twice.
use pipewire_native_rs.Prelude.{
  ℕ, suc, ◌≤◌, ◌<◌, ◌≡◌, ◌≢◌, ◌⊎◌, inl, inr, refl, subst, subst₂, ◌∙◌, false, List, [], ◌∷◌, none,
  some, ok, ◌==◌, if◌then◌else◌, Result-cases, Option-cases, All, arith,
}
use native.Mathlib.Decide.{ℕ_discrete}
use pipewire_native_rs.Session.Shm.{Kernel}
use pipewire_native_rs.Session.Memory.{
  MemoryEntry, MemoryPool, find, erase, import, memory_kind, file_identity,
}

abbrev pub Slot : Type 0
Slot = ℕ × MemoryEntry

-- An entry stands under its own identifier, with a generation that was assigned.
abbrev pub IsSlot : ℕ → Slot → Type 0
IsSlot next slot = (slot.1.key.id ≡ slot.0) × (slot.1.key.generation < next)

-- No identifier stands twice.
abbrev pub AreDistinct : List Slot → Type 0
AreDistinct [] = Unit {0}
AreDistinct (slot ∷ live) = All (λ other. other.0 ≢ slot.0) live × AreDistinct live

pub record IsPool (p : MemoryPool) : Type 0 where
  pub slots : All (IsSlot p.next_generation) p.live
  pub distinct : AreDistinct p.live
  pub ended : (p.is_disconnected ≡ false) ⊎ (p.live ≡ [])

pub slots_mono : (n m : ℕ) (live : List Slot) → n ≤ m → All (IsSlot n) live → All (IsSlot m) live
slots_mono n m [] h v = tt
slots_mono n m (slot ∷ live) h ((i, g), v) = ((i, omega arith), slots_mono n m live h v)

module _ (id : ℕ) (slot : Slot) (live : List Slot) where
  erase-hit : slot.0 ≡ id → erase id (slot ∷ live) ≡ live
  unfolding erase
  erase-hit e = ground arith

  erase-miss : slot.0 ≢ id → erase id (slot ∷ live) ≡ slot ∷ erase id live
  unfolding erase
  erase-miss e = ground arith

  pub find-hit : slot.0 ≡ id → find id (slot ∷ live) ≡ some slot.1
  unfolding find
  find-hit e = ground arith

  pub find-miss : slot.0 ≢ id → find id (slot ∷ live) ≡ find id live
  unfolding find
  find-miss e = ground arith

pub All-erase {ℓ} :
    (P : Slot → Type ℓ) (id : ℕ) (live : List Slot) → All P live → All P (erase id live)
unfolding erase
All-erase P id [] v = tt
All-erase P id (slot ∷ live) (p, v) = elim (ℕ_discrete slot.0 id) [
  | yes e ↦ rw (erase-hit id slot live e) v
  | no ne ↦ rw (erase-miss id slot live ne) (p, All-erase P id live v)
]

pub distinct-erase : (id : ℕ) (live : List Slot) → AreDistinct live → AreDistinct (erase id live)
unfolding erase
distinct-erase id [] v = tt
distinct-erase id (slot ∷ live) (p, v) = elim (ℕ_discrete slot.0 id) [
  | yes e ↦ rw (erase-hit id slot live e) v
  | no ne ↦ rw (erase-miss id slot live ne) (All-erase _ id live p, distinct-erase id live v)
]

-- A property of all slots holds of what `find` finds.
pub All-find {ℓ} :
    (P : Slot → Type ℓ) (id : ℕ) (live : List Slot) {entry : MemoryEntry}
    → All P live
    → find id live ≡ some entry
    → P (id, entry)
unfolding find
All-find P id [] v e = absurd (cc)
All-find P id (slot ∷ live) {entry} (p, v) e = elim (ℕ_discrete slot.0 id) [
  | yes h ↦ let same : slot.1 ≡ entry = ground arith in subst₂ (λ i x. P (i, x)) h same p
  | no ne ↦ All-find P id live v (ground arith)
]

pub fresh_of_none :
    (id : ℕ) (live : List Slot) → find id live ≡ none → All (λ slot. slot.0 ≢ id) live
unfolding find
fresh_of_none id [] e = tt
fresh_of_none id (slot ∷ live) e = elim (ℕ_discrete slot.0 id) [
  | yes h ↦ absurd (ground arith)
  | no ne ↦ (ne, fresh_of_none id live (ground arith))
]

none_of_fresh : (id : ℕ) (live : List Slot) → All (λ slot. slot.0 ≢ id) live → find id live ≡ none
unfolding find
none_of_fresh id [] v = refl
none_of_fresh id (slot ∷ live) (p, v) = ground (arith, none_of_fresh id live v)

-- What is erased is gone, since it stood once; every other identifier keeps its entry.
pub find-erase :
    (id other : ℕ) (live : List Slot)
    → AreDistinct live
    → find other (erase id live) ≡ (if id == other then none else find other live)
unfolding find erase
find-erase id other [] v = ground arith
find-erase id other (slot ∷ live) (p, v) = elim (ℕ_discrete slot.0 id) [
  | yes e ↦ elim (ℕ_discrete id other) [
    | yes f ↦
        rw (erase-hit id slot live e) (
          ground (arith, none_of_fresh other live (subst (λ i. All (λ s. s.0 ≢ i) live) (e ∙ f) p)))
    | no nf ↦ rw (erase-hit id slot live e) (ground arith)
  ]
  | no ne ↦ rw (erase-miss id slot live ne) (ground (arith, find-erase id other live v))
]

-- What `import` accepts: the pool is connected, the identifier is free, the entry has the next
-- generation, and there is one after it.
pub import-ok :
    (k : Kernel) (p : MemoryPool) (id memory_type flags fd : ℕ) {entry : MemoryEntry} {next : ℕ}
    → import k p id memory_type flags fd ≡ ok (entry, next)
    → (p.is_disconnected ≡ false)
      × (find id p.live ≡ none)
      × (entry.key ≡ record { id = id; generation = p.next_generation })
      × (next ≡ suc p.next_generation)
      × (entry.fd ≡ fd)
      × (entry.flags ≡ flags)
unfolding import
import-ok k p id memory_type flags fd {entry} {next} e = elim (Option-cases (find id p.live)) [
  | inr (x, f) ↦ absurd (ground arith)
  | inl f ↦ elim (Result-cases (memory_kind memory_type)) [
    | inr (x, g) ↦ absurd (ground arith)
    | inl (kind, g) ↦ elim (Result-cases (file_identity k fd)) [
      | inr (x, h) ↦ absurd (ground arith)
      | inl ((len, backing), h) ↦
          (ground arith, f, ground arith, ground arith, ground arith, ground arith)
    ]
  ]
]
