-- ===== src/Session/Owner/NodeMap/Sorted.antt =====
-- Lists whose values are related in pairs, such as a map's in the order of their nodes.
use pipewire_native_rs.Prelude.{
  ℕ, ◌≤◌, ◌<◌, ◌≡◌, refl, ap, subst, inl, inr, false, Bool-cases, List, [], ◌∷◌, map, ltb, ◌==◌,
  All, arith,
}
use pipewire_native_rs.Session.Owner.NodeMap.{remove_node, insert_node}

-- Each value is related to all that come after it.
abbrev pub Pairwise {ℓ κ} : {A : Type ℓ} → (A → A → Type κ) → List A → Type κ
Pairwise R [] = Unit
Pairwise R (x ∷ xs) = All (R x) xs × Pairwise R xs

-- A list without some of its values.
pub data Thinned {ℓ} {A : Type ℓ} : List A → List A → Type ℓ where
  none_left : Thinned [] []
  left_out : {x : A} {xs ys : List A} → Thinned xs ys → Thinned (x ∷ xs) ys
  kept : {x : A} {xs ys : List A} → Thinned xs ys → Thinned (x ∷ xs) (x ∷ ys)

pub Thinned-All {ℓ κ} :
    {A : Type ℓ} (P : A → Type κ) {xs ys : List A} → Thinned xs ys → All P xs → All P ys
Thinned-All P none_left h = tt
Thinned-All P (left_out t) (p, h) = Thinned-All P t h
Thinned-All P (kept t) (p, h) = (p, Thinned-All P t h)

pub Thinned-Pairwise {ℓ κ} :
    {A : Type ℓ} (R : A → A → Type κ) {xs ys : List A}
    → Thinned xs ys
    → Pairwise R xs
    → Pairwise R ys
Thinned-Pairwise R none_left h = tt
Thinned-Pairwise R (left_out t) (p, h) = Thinned-Pairwise R t h
Thinned-Pairwise R (kept t) (p, h) = (Thinned-All _ t p, Thinned-Pairwise R t h)

pub Thinned-map {ℓ κ} :
    {A : Type ℓ} {B : Type κ} (f : A → B) {xs ys : List A}
    → Thinned xs ys
    → Thinned (map f xs) (map f ys)
Thinned-map f none_left = none_left
Thinned-map f (left_out t) = left_out (Thinned-map f t)
Thinned-map f (kept t) = kept (Thinned-map f t)

module _ {ℓ} {A : Type ℓ} (node : A → ℕ) where
  -- In the order of their nodes, each once.
  abbrev pub IsSorted : List A → Type 0
  IsSorted = Pairwise (λ x y. node x < node y)

  pub Thinned-remove : (n : ℕ) (xs : List A) → Thinned xs (remove_node node n xs)
  unfolding remove_node
  Thinned-remove n [] = none_left
  Thinned-remove n (x ∷ xs) = elim (Bool-cases (node x == n)) [
    | inl e ↦ rw e (left_out (Thinned-remove n xs))
    | inr e ↦ rw e (kept (Thinned-remove n xs))
  ]

  pub remove-absent : (n : ℕ) (xs : List A) → All (λ x. n < node x) xs → remove_node node n xs ≡ xs
  unfolding remove_node
  remove-absent n [] h = refl
  remove-absent n (x ∷ xs) (p, h) =
      let other : (node x == n) ≡ false = ground arith in rw (other, remove-absent n xs h) refl

  pub All-insert {κ} :
      (P : A → Type κ) (x : A) (xs : List A) → P x → All P xs → All P (insert_node node x xs)
  unfolding insert_node
  All-insert P x [] p h = (p, tt)
  All-insert P x (y ∷ ys) p (q, h) = elim (Bool-cases (node y == node x)) [
    | inl e ↦ rw e (p, h)
    | inr e ↦ elim (Bool-cases (ltb (node x) (node y))) [
      | inl f ↦ rw (e, f) (p, (q, h))
      | inr f ↦ rw (e, f) (q, All-insert P x ys p h)
    ]
  ]

  after :
      (x y : A) (ys : List A)
      → node x ≤ node y
      → All (λ z. node y < node z) ys
      → All (λ z. node x < node z) ys
  after x y [] h v = tt
  after x y (z ∷ zs) h (p, v) = (omega arith, after x y zs h v)

  pub IsSorted-insert : (x : A) (xs : List A) → IsSorted xs → IsSorted (insert_node node x xs)
  unfolding insert_node
  IsSorted-insert x [] h = (tt, tt)
  IsSorted-insert x (y ∷ ys) (p, h) = elim (Bool-cases (node y == node x)) [
    | inl e ↦ rw e (after x y ys (ground arith) p, h)
    | inr e ↦ elim (Bool-cases (ltb (node x) (node y))) [
      | inl f ↦ rw (e, f) ((ground arith, after x y ys (ground arith) p), (p, h))
      | inr f ↦ rw (e, f) (All-insert _ x ys (ground arith) p, IsSorted-insert x ys h)
    ]
  ]

  -- A value related to all but the one that it replaces.
  pub Pairwise-insert {κ} :
      (R : A → A → Type κ) (x : A) (xs : List A)
      → ((y z : A) → R y z → R z y)
      → IsSorted xs
      → All (R x) (remove_node node (node x) xs)
      → Pairwise R xs
      → Pairwise R (insert_node node x xs)
  unfolding insert_node remove_node
  Pairwise-insert R x [] swap s v h = (tt, tt)
  Pairwise-insert R x (y ∷ ys) swap (p, s) v (q, h) = elim (Bool-cases (node y == node x)) [
    | inl e ↦
        let absent = remove-absent (node x) ys (after x y ys (ground arith) p) in
        let near : remove_node node (node x) (y ∷ ys) ≡ ys = rw (remove_node, e, absent) refl in
        rw e (subst (All (R x)) near v, h)
    | inr e ↦ elim (Bool-cases (ltb (node x) (node y))) [
      | inl f ↦
          let absent =
            remove-absent (node x) (y ∷ ys) (ground arith, after x y ys (ground arith) p) in
          rw (e, f) (subst (All (R x)) absent v, (q, h))
      | inr f ↦
          let near : remove_node node (node x) (y ∷ ys) ≡ y ∷ remove_node node (node x) ys =
            rw (remove_node, e) refl in
          let (r, v') = subst (All (R x)) near v in
          rw (e, f) (All-insert (R y) x ys (swap x y r) q, Pairwise-insert R x ys swap s v' h)
    ]
  ]

module _ {ℓ κ} {A : Type ℓ} {B : Type κ} (f : A → B) (node : B → ℕ) where
  pub map-insert :
      (x : A) (xs : List A)
      → map f (insert_node (λ a. node (f a)) x xs) ≡ insert_node node (f x) (map f xs)
  unfolding insert_node
  map-insert x [] = refl
  map-insert x (y ∷ ys) = elim (Bool-cases (node (f y) == node (f x))) [
    | inl e ↦ rw e refl
    | inr e ↦ elim (Bool-cases (ltb (node (f x)) (node (f y)))) [
      | inl g ↦ rw (e, g) refl
      | inr g ↦ rw (e, g) (ap (λ t. f y ∷ t) (map-insert x ys))
    ]
  ]

  pub map-remove :
      (n : ℕ) (xs : List A)
      → map f (remove_node (λ a. node (f a)) n xs) ≡ remove_node node n (map f xs)
  unfolding remove_node
  map-remove n [] = refl
  map-remove n (y ∷ ys) = elim (Bool-cases (node (f y) == n)) [
    | inl e ↦ rw e (map-remove n ys)
    | inr e ↦ rw e (ap (λ t. f y ∷ t) (map-remove n ys))
  ]
