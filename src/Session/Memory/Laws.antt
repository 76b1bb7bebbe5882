-- ===== src/Session/Memory/Laws.antt =====
-- The operations of `MemoryPool` on every branch, and the invariant along any history.
use pipewire_native_rs.Prelude.{
  ℕ, suc, ◌≡◌, ◌⊎◌, inl, inr, refl, ap, true, false, ◌∷◌, none, some, ok, err, ◌==◌, if◌then◌else◌,
  Result-cases, Option-cases, Bool-cases, arith,
}
use pipewire_native_rs.Session.Shm.{Kernel, ShrinkPolicy}
use pipewire_native_rs.Session.Memory.{
  MemoryEntry, MemoryPool, MemoryError, disconnected, unknown_memory, find, erase, import, add,
  resolve, remove, clear, disconnect, new_pool,
}
use pipewire_native_rs.Session.Memory.Pool.{
  IsPool, All-erase, slots_mono, distinct-erase, fresh_of_none, find-erase, import-ok,
}

module _ (k : Kernel) (p : MemoryPool) (id memory_type flags fd : ℕ) where
  pub add-err :
      {e : MemoryError}
      → import k p id memory_type flags fd ≡ err e
      → add k p id memory_type flags fd ≡ (p, err e)
  unfolding add
  add-err e = rw (e, add)

  pub add-ok :
      {entry : MemoryEntry} {next : ℕ}
      → import k p id memory_type flags fd ≡ ok (entry, next)
      → add k p id memory_type flags fd
        ≡ (record p { next_generation = next; live = (id, entry) ∷ p.live }, ok entry.key)
  unfolding add
  add-ok e = rw (e, add)

-- The pool after `add` put an entry in.
abbrev added : MemoryPool → ℕ → MemoryEntry → ℕ → MemoryPool
added p id entry next = record p { next_generation = next; live = (id, entry) ∷ p.live }

added-IsPool :
    (k : Kernel) (p : MemoryPool) (id memory_type flags fd : ℕ) {entry : MemoryEntry} {next : ℕ}
    → IsPool p
    → import k p id memory_type flags fd ≡ ok (entry, next)
    → IsPool (added p id entry next)
added-IsPool k p id memory_type flags fd {entry} {next} v e =
    let (c, f, key, n, _, _) = import-ok k p id memory_type flags fd e in
    record {
      slots = (
        (ap (λ x. x.id) key, omega (arith, n, ap (λ x. x.generation) key)),
        slots_mono p.next_generation next p.live (omega (arith, n)) v.slots,
      );
      distinct = (fresh_of_none id p.live f, v.distinct);
      ended = inl c;
    }

-- On a pool within its invariant: an import that succeeds gives the identifier the next generation,
-- later than that of every live entry; the identifier then resolves to the new key and every other
-- one as before. One that fails changes nothing. The invariant holds either way.
pub add_lem :
    (k : Kernel) (p : MemoryPool) (id memory_type flags fd : ℕ)
    → IsPool p
    → let (p', r) = add k p id memory_type flags fd in
      IsPool p'
      × (((r ≡ ok (record { id = id; generation = p.next_generation }))
            × (p'.next_generation ≡ suc p.next_generation)
            × (resolve p id ≡ err (unknown_memory id))
            × ((other : ℕ)
                → resolve p' other ≡ (
                    if id == other
                    then ok (record { id = id; generation = p.next_generation })
                    else resolve p other)))
          ⊎ ((p' ≡ p) × ((e : MemoryError) × (r ≡ err e))))
unfolding resolve find
add_lem k p id memory_type flags fd v = elim (Result-cases (import k p id memory_type flags fd)) [
  | inr (x, e) ↦ rw (add-err k p id memory_type flags fd e) (v, inr (refl, (x, refl)))
  | inl ((entry, next), e) ↦
      let (c, f, key, n, _, _) = import-ok k p id memory_type flags fd e in
      rw (add-ok k p id memory_type flags fd e) (
        added-IsPool k p id memory_type flags fd v e,
        inl (ap ok key, n, ground arith, λ other. ground arith),
      )
]

pub remove-some :
    (p : MemoryPool) (id : ℕ) {entry : MemoryEntry}
    → p.is_disconnected ≡ false
    → find id p.live ≡ some entry
    → remove p id ≡ (record p { live = erase id p.live }, ok entry.key)
unfolding remove
remove-some p id d e = ground arith

pub remove-none :
    (p : MemoryPool) (id : ℕ)
    → p.is_disconnected ≡ false
    → find id p.live ≡ none
    → remove p id ≡ (p, err (unknown_memory id))
unfolding remove
remove-none p id d e = ground arith

pub remove-disconnected :
    (p : MemoryPool) (id : ℕ) → p.is_disconnected ≡ true → remove p id ≡ (p, err disconnected)
unfolding remove
remove-disconnected p id d = ground arith

erased-IsPool : (p : MemoryPool) (id : ℕ) → IsPool p → IsPool (record p { live = erase id p.live })
unfolding erase
erased-IsPool p id v = record {
  slots = All-erase _ id p.live v.slots;
  distinct = distinct-erase id p.live v.distinct;
  ended = elim v.ended [ inl c ↦ inl c | inr e ↦ inr (ap (erase id) e) ];
}

resolve-erase :
    (p : MemoryPool) (id other : ℕ)
    → IsPool p
    → p.is_disconnected ≡ false
    → resolve (record p { live = erase id p.live }) other
      ≡ (if id == other then err (unknown_memory id) else resolve p other)
unfolding resolve
resolve-erase p id other v d = ground (arith, find-erase id other p.live v.distinct)

-- `remove` returns the key to which the identifier resolved, or the error of `resolve`; then,
-- while connected, the identifier is unknown and every other one resolves as before. The invariant
-- holds on.
pub remove_lem :
    (p : MemoryPool) (id : ℕ)
    → IsPool p
    → let (p', r) = remove p id in
      IsPool p'
      × (r ≡ resolve p id)
      × (p'.next_generation ≡ p.next_generation)
      × ((other : ℕ)
          → p.is_disconnected ≡ false
          → resolve p' other ≡ (if id == other then err (unknown_memory id) else resolve p other))
unfolding resolve
remove_lem p id v = elim (Bool-cases p.is_disconnected) [
  | inl d ↦ rw (remove-disconnected p id d) (v, ground arith, refl, λ other c. cc)
  | inr d ↦ elim (Option-cases (find id p.live)) [
    | inl e ↦ rw (remove-none p id d e) (v, ground arith, refl, λ other c. ground arith)
    | inr (entry, e) ↦
        rw (remove-some p id d e)
          (erased-IsPool p id v, ground arith, refl, λ other c. resolve-erase p id other v d)
  ]
]

pub clear-IsPool : (p : MemoryPool) → IsPool (clear p)
unfolding clear
clear-IsPool p = record { slots = tt; distinct = tt; ended = inr refl }

pub disconnect-IsPool : (p : MemoryPool) → IsPool (disconnect p)
unfolding disconnect
disconnect-IsPool p = record { slots = tt; distinct = tt; ended = inr refl }

pub new_pool-IsPool : (policy : ShrinkPolicy) → IsPool (new_pool policy)
new_pool-IsPool policy = record { slots = tt; distinct = tt; ended = inl refl }
