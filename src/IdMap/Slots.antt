-- ===== src/IdMap/Slots.antt =====
-- What the operations of the map do to its objects.
use pipewire_native_rs.Prelude.{
  ℕ, zero, suc, ◌+◌, ◌^◌, ◌≤◌, ◌<◌, ◌≡◌, ◌≢◌, ◌⊎◌, inl, inr, refl, ap, subst, ◌∙◌, sym, [], ◌∷◌,
  ◌++◌, none, some, length, get_elem?, set, arith, Option-cases, get_elem?-set_self,
  get_elem?-set_ne,
}
use native.Mathlib.Nat.{mod-eq_of_lt}
use native.Mathlib.Decide.{dec_lt}
use pipewire_native_rs.IdMap.{
  Item, empty, reserved, occupied, IdMap, item_as_ref, find_empty, put, insert, reserve, insert_at,
  remove, get,
}

-- An identifier that no object and no reservation has.
abbrev pub IsFree {ℓ} : {T : Type ℓ} → IdMap T → ℕ → Type ℓ
IsFree objects id = (get_elem? objects id ≡ none) ⊎ (get_elem? objects id ≡ some empty)

module _ {ℓ} {T : Type ℓ} where
  -- The search finds the first empty item.
  find_empty-some :
      (i : ℕ) (objects : IdMap T) {id : ℕ}
      → find_empty i objects ≡ some id
      → (k : ℕ) × (id ≡ i + k) × (get_elem? objects k ≡ some empty) × (k < length objects)
  find_empty-some i [] e = absurd (ground arith)
  find_empty-some i (empty ∷ items) e = (0, ground arith, refl, omega arith)
  find_empty-some i (reserved ∷ items) e =
      let (k, at, found, l) = find_empty-some (suc i) items e in
      (suc k, omega arith, found, omega arith)
  find_empty-some i (occupied x ∷ items) e =
      let (k, at, found, l) = find_empty-some (suc i) items e in
      (suc k, omega arith, found, omega arith)

  get_elem?-end : (xs : IdMap T) (x : Item T) → get_elem? (xs ++ (x ∷ [])) (length xs) ≡ some x
  get_elem?-end [] x = refl
  get_elem?-end (y ∷ xs) x = get_elem?-end xs x

  get_elem?-past : (xs : IdMap T) → get_elem? xs (length xs) ≡ none
  get_elem?-past [] = refl
  get_elem?-past (x ∷ xs) = get_elem?-past xs

  get_elem?-append_ne :
      (xs : IdMap T) (x : Item T) (j : ℕ)
      → length xs ≢ j
      → get_elem? (xs ++ (x ∷ [])) j ≡ get_elem? xs j
  get_elem?-append_ne [] x zero ne = absurd (ne refl)
  get_elem?-append_ne [] x (suc j) ne = refl
  get_elem?-append_ne (y ∷ xs) x zero ne = refl
  get_elem?-append_ne (y ∷ xs) x (suc j) ne = get_elem?-append_ne xs x j (λ e. ne (ap suc e))

  put-found :
      (objects : IdMap T) (item : Item T) {id : ℕ}
      → length objects < 2 ^ 32
      → find_empty 0 objects ≡ some id
      → id < length objects
      → put objects item ≡ (set objects id item, id)
  unfolding put
  put-found objects item {id} h e l =
      let same = mod-eq_of_lt {n = id} {m = 2 ^ 32} (omega arith) in ground arith

  put-end :
      (objects : IdMap T) (item : Item T)
      → length objects < 2 ^ 32
      → find_empty 0 objects ≡ none
      → put objects item ≡ (objects ++ (item ∷ []), length objects)
  unfolding put
  put-end objects item h e =
      let same = mod-eq_of_lt {n = length objects} {m = 2 ^ 32} h in ground arith

  -- What it means to put an item at a free identifier: nothing else changes.
  pub IsPut : IdMap T → Item T → IdMap T × ℕ → Type ℓ
  IsPut objects item (after, id) =
      IsFree objects id
      × (get_elem? after id ≡ some item)
      × ((other : ℕ) → id ≢ other → get_elem? after other ≡ get_elem? objects other)

  put-IsPut :
      (objects : IdMap T) (item : Item T)
      → length objects < 2 ^ 32
      → IsPut objects item (put objects item)
  unfolding IsPut
  put-IsPut objects item h = elim (Option-cases (find_empty 0 objects)) [
    | inl e ↦ rw (put-end objects item h e) (
      inl (get_elem?-past objects),
      get_elem?-end objects item,
      λ other ne. get_elem?-append_ne objects item other ne,
    )
    | inr (id, e) ↦
        let (k, at, found, l) = find_empty-some 0 objects e in
        let here : id ≡ k = omega arith in
        rw (put-found objects item h e (omega arith)) (
          inr (subst (λ j. get_elem? objects j ≡ some empty) (sym here) found),
          get_elem?-set_self objects id item (omega arith),
          λ other ne. get_elem?-set_ne objects item ne,
        )
  ]

  get-item :
      (objects : IdMap T) (id : ℕ) (item : Item T)
      → get_elem? objects id ≡ some item
      → get objects id ≡ item_as_ref item
  unfolding get
  get-item objects id item e = rw (get, e) refl

  get-same :
      (objects after : IdMap T) (id : ℕ)
      → get_elem? after id ≡ get_elem? objects id
      → get after id ≡ get objects id
  unfolding get
  get-same objects after id e = rw (get, e) refl

  insert_at-reserved :
      (objects : IdMap T) (id : ℕ) (object : T)
      → get_elem? objects id ≡ some reserved
      → insert_at objects id object ≡ some (set objects id (occupied object))
  unfolding insert_at
  insert_at-reserved objects id object e = rw (insert_at, e) refl

  insert_at-occupied :
      (objects : IdMap T) (id : ℕ) (object : T) {x : T}
      → get_elem? objects id ≡ some (occupied x)
      → insert_at objects id object ≡ none
  unfolding insert_at
  insert_at-occupied objects id object e = rw (insert_at, e) refl

  lt_of_get_elem? : (xs : IdMap T) (i : ℕ) {x : Item T} → get_elem? xs i ≡ some x → i < length xs
  lt_of_get_elem? [] i e = cc
  lt_of_get_elem? (x ∷ xs) zero e = omega arith
  lt_of_get_elem? (x ∷ xs) (suc i) e = omega (arith, lt_of_get_elem? xs i e)

  get_elem?-none : (xs : IdMap T) (i : ℕ) → length xs ≤ i → get_elem? xs i ≡ none
  get_elem?-none [] i h = refl
  get_elem?-none (x ∷ xs) zero h = absurd (omega arith)
  get_elem?-none (x ∷ xs) (suc i) h = get_elem?-none xs i (omega arith)

  get-none : (objects : IdMap T) (id : ℕ) → length objects ≤ id → get objects id ≡ none
  unfolding get
  get-none objects id h = rw (get, get_elem?-none objects id h) refl

  remove-in :
      (objects : IdMap T) (id : ℕ) → id < length objects → remove objects id ≡ set objects id empty
  unfolding remove
  remove-in objects id l = ground arith

  remove-out : (objects : IdMap T) (id : ℕ) → length objects ≤ id → remove objects id ≡ objects
  unfolding remove
  remove-out objects id l = ground arith

  -- With fewer than 2^32 slots an inserted object gets an identifier that no object and no
  -- reservation had; `get` then finds it there, and finds what it found before under every other
  -- identifier.
  pub get-insert :
      (objects : IdMap T) (object : T)
      → length objects < 2 ^ 32
      → let (after, id) = insert objects object in
        IsFree objects id
        × (get after id ≡ some object)
        × ((other : ℕ) → id ≢ other → get after other ≡ get objects other)
  unfolding insert IsPut
  get-insert objects object h =
      let (f, here, others) = put-IsPut objects (occupied object) h in
      (f, get-item _ _ _ here, λ other ne. get-same objects _ other (others other ne))

  -- With fewer than 2^32 slots a reserved identifier was free and shows no object until `insert_at`
  -- fills it, which then succeeds; filling it a second time panics. The slot of every other
  -- identifier, a reservation's too, is as it was before both.
  pub insert_at-reserve :
      (objects : IdMap T) (object : T)
      → length objects < 2 ^ 32
      → let (after, id) = reserve objects in
        IsFree objects id
        × (get after id ≡ none)
        × ((filled : IdMap T) × (insert_at after id object ≡ some filled)
            × (get filled id ≡ some object)
            × (insert_at filled id object ≡ none)
            × ((other : ℕ) → id ≢ other → get_elem? filled other ≡ get_elem? objects other))
  unfolding reserve IsPut
  insert_at-reserve objects object h =
      let (f, here, others) = put-IsPut objects reserved h in
      let (after, id) = reserve objects in
      let filled = get_elem?-set_self after id (occupied object) (lt_of_get_elem? after id here) in
      (
        f,
        get-item _ _ _ here,
        (
          set after id (occupied object),
          insert_at-reserved _ _ object here,
          get-item _ _ _ filled,
          insert_at-occupied _ _ object filled,
          λ other ne. get_elem?-set_ne after _ ne ∙ others other ne,
        ),
      )

  -- After a removal the identifier shows no object and is free again; the slot of every other
  -- identifier, a reservation's too, is as it was.
  pub get-remove :
      (objects : IdMap T) (id : ℕ)
      → (get (remove objects id) id ≡ none)
        × IsFree (remove objects id) id
        × ((other : ℕ) → id ≢ other → get_elem? (remove objects id) other ≡ get_elem? objects other)
  get-remove objects id = elim (dec_lt id (length objects)) [
    | yes l ↦
        let gone = get_elem?-set_self objects id empty l in
        rw (remove-in objects id l)
          (get-item _ _ _ gone, inr gone, λ other ne. get_elem?-set_ne objects empty ne)
    | no ge ↦ rw (remove-out objects id (omega arith)) (
      get-none objects id (omega arith),
      inl (get_elem?-none objects id (omega arith)),
      λ other ne. refl,
    )
  ]
