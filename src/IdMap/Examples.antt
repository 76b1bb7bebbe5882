-- ===== src/IdMap/Examples.antt =====
-- The map on a few identifiers.
use pipewire_native_rs.Prelude.{ℕ, ◌≡◌, ◌≢◌, [], ◌∷◌, none, some, get_elem?, arith}
use pipewire_native_rs.IdMap.{
  empty, reserved, occupied, IdMap, insert, reserve, insert_at, remove, get,
}
use pipewire_native_rs.IdMap.Slots.{IsFree, get-insert, insert_at-reserve, get-remove}

abbrev some_objects : IdMap ℕ
some_objects = occupied 10 ∷ empty ∷ reserved ∷ []

get-insert_example :
    let (after, id) = insert some_objects 20 in
    IsFree some_objects id
    × (get after id ≡ some 20)
    × ((other : ℕ) → id ≢ other → get after other ≡ get some_objects other)
get-insert_example = get-insert some_objects 20 (omega arith)

insert_at-reserve_example :
    let (after, id) = reserve some_objects in
    IsFree some_objects id
    × (get after id ≡ none)
    × ((filled : IdMap ℕ) × (insert_at after id 20 ≡ some filled)
        × (get filled id ≡ some 20)
        × (insert_at filled id 20 ≡ none)
        × ((other : ℕ) → id ≢ other → get_elem? filled other ≡ get_elem? some_objects other))
insert_at-reserve_example = insert_at-reserve some_objects 20 (omega arith)

get-remove_example :
    (get (remove some_objects 0) 0 ≡ none)
    × IsFree (remove some_objects 0) 0
    × ((other : ℕ)
        → 0 ≢ other
        → get_elem? (remove some_objects 0) other ≡ get_elem? some_objects other)
get-remove_example = get-remove some_objects 0
