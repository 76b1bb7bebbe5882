-- ===== src/IdMap.antt =====
-- pipewire/src/id_map.rs: objects by small identifiers, which are their indices.
pub mod Slots
mod Examples
use pipewire_native_rs.Prelude.{
  ℕ, zero, suc, ◌+◌, ◌%◌, ◌^◌, ◌≡◌, Bool, true, false, List, [], ◌∷◌, ◌++◌, Option, none, some,
  length, get_elem?, set, ltb, leb, if◌then◌else◌,
}

pub data Item {ℓ} (T : Type ℓ) : Type ℓ where
  empty reserved : Item T
  occupied : T → Item T

abbrev pub IdMap {ℓ} : Type ℓ → Type ℓ
IdMap T = List (Item T)

-- `Item::is_empty`
abbrev pub item_is_empty {ℓ} : {T : Type ℓ} → Item T → Bool
item_is_empty empty = true
item_is_empty reserved = false
item_is_empty (occupied x) = false

-- `Item::as_ref`
abbrev pub item_as_ref {ℓ} : {T : Type ℓ} → Item T → Option T
item_as_ref empty = none
item_as_ref reserved = none
item_as_ref (occupied x) = some x

-- `iter().enumerate().find(|(_, o)| o.is_empty())`, counting from `i`.
abbrev pub find_empty {ℓ} : {T : Type ℓ} → ℕ → IdMap T → Option ℕ
find_empty i [] = none
find_empty i (item ∷ items) =
    let rest = find_empty (suc i) items in if item_is_empty item then some i else rest

-- `insert` and `reserve` put their item at the first empty index, or at the end; `as Id` keeps the
-- low 32 bits of the index.
unfoldable pub put {ℓ} : {T : Type ℓ} → IdMap T → Item T → IdMap T × ℕ
put objects item = elim (find_empty 0 objects) [
  | some id ↦ (set objects id item, id % 2 ^ 32)
  | none ↦ (objects ++ (item ∷ []), length objects % 2 ^ 32)
]

-- `IdMap::insert`
unfoldable pub insert {ℓ} : {T : Type ℓ} → IdMap T → T → IdMap T × ℕ
unfolding put
insert objects object = put objects (occupied object)

-- `IdMap::reserve`
unfoldable pub reserve {ℓ} : {T : Type ℓ} → IdMap T → IdMap T × ℕ
unfolding put
reserve objects = put objects reserved

-- `IdMap::insert_at`; `none` stands for its panics.
unfoldable pub insert_at {ℓ} : {T : Type ℓ} → IdMap T → ℕ → T → Option (IdMap T)
insert_at objects id object = elim (get_elem? objects id) [
  | some reserved ↦ some (set objects id (occupied object))
  | _ ↦ none
]

-- `IdMap::remove`
unfoldable pub remove {ℓ} : {T : Type ℓ} → IdMap T → ℕ → IdMap T
remove objects id = if leb (length objects) id then objects else set objects id empty

-- `IdMap::clear`
unfoldable pub clear {ℓ} : {T : Type ℓ} → IdMap T → IdMap T
clear objects = []

-- `IdMap::get`
unfoldable pub get {ℓ} : {T : Type ℓ} → IdMap T → ℕ → Option T
get objects id = elim (get_elem? objects id) [ none ↦ none | some item ↦ item_as_ref item ]
