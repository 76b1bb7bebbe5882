-- ===== src/Session/Memory/Retired.antt =====
-- A retired generation stays retired: no later history brings its key back.
use pipewire_native_rs.Prelude.{
  ℕ, ◌<◌, ◌≡◌, ◌≢◌, inl, inr, sym, ap, subst₂, ◌∙◌, Bool, false, List, [], ◌∷◌, some, ok,
  Result-cases, >>=-eq-ok, Option-cases, Bool-cases, All, arith,
}
use pipewire_native_rs.Session.Shm.{Kernel}
use pipewire_native_rs.Session.Memory.{
  MemoryKey, MemoryEntry, MemoryPool, MemoryMapping, MemoryLease, find, erase, import, add, resolve,
  remove, clear, disconnect, exact, map_region, lease,
}
use pipewire_native_rs.Session.Memory.Pool.{
  Slot, IsSlot, IsPool, All-erase, All-find, fresh_of_none, find-erase, import-ok,
}
use pipewire_native_rs.Session.Memory.Laws.{
  add-err, add-ok, remove-some, remove-none, remove-disconnected, add_lem, remove_lem, clear-IsPool,
  disconnect-IsPool,
}

pub data Op : Type 0 where
  adds : ℕ → ℕ → ℕ → ℕ → Op
  removes : ℕ → Op
  clears disconnects : Op

module _ (k : Kernel) where
  pub step : MemoryPool → Op → MemoryPool
  step p (adds id memory_type flags fd) = (add k p id memory_type flags fd).0
  step p (removes id) = (remove p id).0
  step p clears = clear p
  step p disconnects = disconnect p

  pub run : MemoryPool → List Op → MemoryPool
  run p [] = p
  run p (op ∷ ops) = run (step p op) ops

  step-IsPool : (p : MemoryPool) (op : Op) → IsPool p → IsPool (step p op)
  unfolding step
  step-IsPool p (adds id memory_type flags fd) v = (add_lem k p id memory_type flags fd v).0
  step-IsPool p (removes id) v = (remove_lem p id v).0
  step-IsPool p clears v = clear-IsPool p
  step-IsPool p disconnects v = disconnect-IsPool p

  -- A pool's invariant holds after any history of imports, removals, clears and disconnections.
  pub run-IsPool : (p : MemoryPool) (ops : List Op) → IsPool p → IsPool (run p ops)
  unfolding run
  run-IsPool p [] v = v
  run-IsPool p (op ∷ ops) v = run-IsPool (step p op) ops (step-IsPool p op v)

-- The key was assigned, and no live entry has it.
pub record IsRetired (key : MemoryKey) (p : MemoryPool) : Type 0 where
  pub assigned : key.generation < p.next_generation
  pub gone : All (λ slot. slot.1.key ≢ key) p.live

module _ (k : Kernel) (key : MemoryKey) where
  add-IsRetired :
      (p : MemoryPool) (id memory_type flags fd : ℕ)
      → IsRetired key p
      → IsRetired key (add k p id memory_type flags fd).0
  add-IsRetired p id memory_type flags fd v =
      elim (Result-cases (import k p id memory_type flags fd)) [
        | inr (x, e) ↦ rw (add-err k p id memory_type flags fd e) v
        | inl ((entry, next), e) ↦
            let (c, f, named, n, _, _) = import-ok k p id memory_type flags fd e in
            rw (add-ok k p id memory_type flags fd e) (record {
              assigned = omega (arith, v.assigned, n);
              gone = (
                λ same. absurd (
                    omega (
                      arith,
                      v.assigned,
                      ap (λ x. x.generation) same,
                      ap (λ x. x.generation) named,
                    )),
                v.gone,
              );
            })
      ]

  remove-IsRetired : (p : MemoryPool) (id : ℕ) → IsRetired key p → IsRetired key (remove p id).0
  remove-IsRetired p id v = elim (Bool-cases p.is_disconnected) [
    | inl d ↦ rw (remove-disconnected p id d) v
    | inr d ↦ elim (Option-cases (find id p.live)) [
      | inl e ↦ rw (remove-none p id d e) v
      | inr (entry, e) ↦
          rw (remove-some p id d e)
            (record { assigned = v.assigned; gone = All-erase _ id p.live v.gone })
    ]
  ]

  step-IsRetired : (p : MemoryPool) (op : Op) → IsRetired key p → IsRetired key (step k p op)
  unfolding step clear disconnect
  step-IsRetired p (adds id memory_type flags fd) v = add-IsRetired p id memory_type flags fd v
  step-IsRetired p (removes id) v = remove-IsRetired p id v
  step-IsRetired p clears v = record { assigned = v.assigned; gone = tt }
  step-IsRetired p disconnects v = record { assigned = v.assigned; gone = tt }

  run-IsRetired : (p : MemoryPool) (ops : List Op) → IsRetired key p → IsRetired key (run k p ops)
  unfolding run
  run-IsRetired p [] v = v
  run-IsRetired p (op ∷ ops) v = run-IsRetired (step k p op) ops (step-IsRetired p op v)

-- `exact` finds the live entry of exactly this key.
pub exact-ok :
    (p : MemoryPool) (key : MemoryKey) {entry : MemoryEntry}
    → exact p key ≡ ok entry
    → (p.is_disconnected ≡ false) × (find key.id p.live ≡ some entry) × (entry.key ≡ key)
unfolding exact
exact-ok p key e = ground arith

resolve-ok :
    (p : MemoryPool) (id : ℕ) {key : MemoryKey}
    → resolve p id ≡ ok key
    → (entry : MemoryEntry) × (find id p.live ≡ some entry) × (entry.key ≡ key)
unfolding resolve
resolve-ok p id e = elim (Option-cases (find id p.live)) [
  | inl f ↦ absurd (ground arith)
  | inr (entry, f) ↦ (entry, f, ground arith)
]

exact_retired :
    (p : MemoryPool) (key : MemoryKey) {entry : MemoryEntry}
    → IsRetired key p
    → exact p key ≢ ok entry
exact_retired p key v e =
    let (d, f, same) = exact-ok p key e in All-find (λ s. s.1.key ≢ key) key.id p.live v.gone f same

-- Removal retires the key that it returns.
gone_of_fresh :
    (next id : ℕ) (key : MemoryKey) (live : List Slot)
    → key.id ≡ id
    → All (IsSlot next) live
    → All (λ slot. slot.0 ≢ id) live
    → All (λ slot. slot.1.key ≢ key) live
gone_of_fresh next id key [] e v w = tt
gone_of_fresh next id key (slot ∷ live) e (p, v) (q, w) =
    (λ same. q (sym p.0 ∙ ap (λ x. x.id) same ∙ e), gone_of_fresh next id key live e v w)

removed-IsRetired :
    (p : MemoryPool) (id : ℕ) (entry : MemoryEntry)
    → IsPool p
    → find id p.live ≡ some entry
    → IsRetired entry.key (record p { live = erase id p.live })
removed-IsRetired p id entry v e =
    let slot = All-find (IsSlot p.next_generation) id p.live v.slots e in
    record {
      assigned = slot.1;
      gone =
          gone_of_fresh p.next_generation id entry.key (erase id p.live) slot.0
            (All-erase _ id p.live v.slots)
            (fresh_of_none id (erase id p.live)
              (let h = find-erase id id p.live v.distinct in ground arith));
    }

-- Removal retires the key that it returns.
remove-retires :
    (p : MemoryPool) (id : ℕ) {p' : MemoryPool} {key : MemoryKey}
    → IsPool p
    → remove p id ≡ (p', ok key)
    → IsRetired key p'
remove-retires p id {p'} {key} v e = elim (Bool-cases p.is_disconnected) [
  | inl d ↦ absurd (let h = remove-disconnected p id d in ground arith)
  | inr d ↦ elim (Option-cases (find id p.live)) [
    | inl f ↦ absurd (let h = remove-none p id d f in ground arith)
    | inr (entry, f) ↦
        let h = remove-some p id d f in
        subst₂ IsRetired (ground arith) (ground arith) (removed-IsRetired p id entry v f)
  ]
]

-- After a key's removal from a pool within its invariant no history of imports, removals, clears
-- and disconnections, even one that imports its identifier again, lets the key be mapped or leased,
-- or any identifier resolve to it.
pub removed_forever :
    (k : Kernel) (p : MemoryPool) (id : ℕ) {p' : MemoryPool} {key : MemoryKey} (ops : List Op)
    → IsPool p
    → remove p id ≡ (p', ok key)
    → ((offset len : ℕ) (writable : Bool) (m : MemoryMapping)
        → map_region k (run k p' ops) key offset len writable ≢ ok m)
      × ((l : MemoryLease) → lease (run k p' ops) key ≢ ok l)
      × ((other : ℕ) → resolve (run k p' ops) other ≢ ok key)
unfolding map_region lease
removed_forever k p id {p'} {key} ops v e =
    let gone = run-IsRetired k key p' ops (remove-retires p id v e) in
    (
      λ offset len writable m f.
          let (entry, h, g) = >>=-eq-ok (exact (run k p' ops) key) _ f in
          exact_retired _ key gone h,
      λ l f.
          let (entry, h, g) = >>=-eq-ok (exact (run k p' ops) key) _ f in
          exact_retired _ key gone h,
      λ other f.
          let (entry, h, same) = resolve-ok _ other f in
          All-find (λ s. s.1.key ≢ key) other _ gone.gone h same,
    )
