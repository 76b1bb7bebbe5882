-- ===== src/Session/Owner/NodeMap.antt =====
-- `BTreeMap` by node: the values in the order of their nodes.
pub mod Sorted
use pipewire_native_rs.Prelude.{ℕ, List, [], ◌∷◌, Option, none, some, ltb, ◌==◌, if◌then◌else◌}

module _ {ℓ} {A : Type ℓ} (node : A → ℕ) where
  unfoldable pub find_node : ℕ → List A → Option A
  find_node n [] = none
  find_node n (x ∷ xs) = if node x == n then some x else find_node n xs

  unfoldable pub remove_node : ℕ → List A → List A
  remove_node n [] = []
  remove_node n (x ∷ xs) = let rest = remove_node n xs in if node x == n then rest else x ∷ rest

  unfoldable pub insert_node : A → List A → List A
  insert_node x [] = x ∷ []
  insert_node x (y ∷ ys) =
      let rest = insert_node x ys in
      if node y == node x then x ∷ ys else if ltb (node x) (node y) then x ∷ (y ∷ ys) else y ∷ rest
