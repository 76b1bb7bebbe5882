-- ===== src/Frame/Fds/Laws.antt =====
-- A descriptor leaves its collection once.
use pipewire_native_rs.Prelude.{
  ℕ, zero, suc, ◌<◌, ◌≡◌, ◌≢◌, List, [], ◌∷◌, none, some, ok, err, length, get_elem?, set, arith,
  length-set, get_elem?-set_self, get_elem?-set_ne,
}
use pipewire_native_rs.Frame.Limits.{fd_already_taken}
use pipewire_native_rs.Frame.Fds.{FrameFds, get, take_fd}

lt_of_get {ℓ} : {A : Type ℓ} (xs : List A) (i : ℕ) {a : A} → get_elem? xs i ≡ some a → i < length xs
lt_of_get [] i e = cc
lt_of_get (x ∷ xs) zero e = omega arith
lt_of_get (x ∷ xs) (suc i) e = omega (arith, lt_of_get xs i e)

take_fd-ok :
    (fds : FrameFds) (index : ℕ) {fds' : FrameFds} {fd : ℕ}
    → take_fd fds index ≡ (fds', ok fd)
    → (get_elem? fds index ≡ some (some fd)) × (set fds index none ≡ fds')
unfolding take_fd
take_fd-ok fds index e = ground arith

-- When `take` yields a descriptor, that is the one `get` showed; taking or reading the same index
-- again reports it as taken, the collection keeps its length and every other index its entry.
pub take_fd_once :
    (fds : FrameFds) (index : ℕ) {fds' : FrameFds} {fd : ℕ}
    → take_fd fds index ≡ (fds', ok fd)
    → (get fds index ≡ ok fd)
      × (take_fd fds' index ≡ (fds', err (fd_already_taken index)))
      × (get fds' index ≡ err (fd_already_taken index))
      × (length fds' ≡ length fds)
      × ((other : ℕ) → index ≢ other → get fds' other ≡ get fds other)
unfolding get take_fd
take_fd_once fds index e =
    let taken = take_fd-ok fds index e in
    let at = lt_of_get fds index taken.0 in
    let emptied = get_elem?-set_self fds index none at in
    rw (← taken.1) (
      ground arith,
      rw (take_fd, emptied),
      rw (get, emptied),
      length-set fds index none,
      λ other ne.
          ground (
            arith,
            get_elem?-set_ne fds {i = index} {j = other} none ne,
            length-set fds index none,
          ),
    )
