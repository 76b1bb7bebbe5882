-- ===== src/Session/Peer/Visit.antt =====
-- Every peer is visited, whatever fails on the way.
use pipewire_native_rs.Prelude.{
  ℕ, ◌≡◌, refl, ap, ◌∙◌, inl, inr, List, [], ◌∷◌, map, Option, none, some, Result, ok, err, arith,
  Result-cases,
}
use pipewire_native_rs.Session.Activation.{TriggerOutcome}
use pipewire_native_rs.Session.Peer.{
  PeerActivation, PeerError, trigger, keep_first, visit, trigger_all,
}

-- The first error in a list of results, if one failed.
abbrev pub first_failure : List (Result PeerError TriggerOutcome) → Result PeerError (Unit {0})
first_failure [] = ok tt
first_failure (err e ∷ rs) = err e
first_failure (ok x ∷ rs) = first_failure rs

visit-peers :
    (now_ns : ℕ) (first_error : Option PeerError) (ps : List PeerActivation)
    → (visit now_ns first_error ps).0 ≡ map (λ p. (trigger p now_ns).0) ps
unfolding visit
visit-peers now_ns first_error [] = refl
visit-peers now_ns first_error (p ∷ ps) =
    ap (λ qs. (trigger p now_ns).0 ∷ qs)
      (visit-peers now_ns (keep_first first_error (trigger p now_ns).1) ps)

visit-some :
    (now_ns : ℕ) (e : PeerError) (ps : List PeerActivation) → (visit now_ns (some e) ps).1 ≡ some e
unfolding visit
visit-some now_ns e [] = refl
visit-some now_ns e (p ∷ ps) = visit-some now_ns e ps

abbrev as_result : Option PeerError → Result PeerError (Unit {0})
as_result none = ok tt
as_result (some e) = err e

visit-none :
    (now_ns : ℕ) (ps : List PeerActivation)
    → as_result (visit now_ns none ps).1 ≡ first_failure (map (λ p. (trigger p now_ns).1) ps)
unfolding visit
visit-none now_ns [] = refl
visit-none now_ns (p ∷ ps) = elim (Result-cases (trigger p now_ns).1) [
  | inl (x, e) ↦ rw e (visit-none now_ns ps)
  | inr (x, e) ↦ rw e (rw (visit-some now_ns x ps) refl)
]

trigger_all-visit :
    (ps : List PeerActivation) (now_ns : ℕ)
    → ((trigger_all ps now_ns).0 ≡ (visit now_ns none ps).0)
      × ((trigger_all ps now_ns).1 ≡ as_result (visit now_ns none ps).1)
unfolding trigger_all
trigger_all-visit ps now_ns = ground arith

-- `trigger_all` leaves each peer as its own trigger leaves it, the peers after a failed one too,
-- and reports the first failure in the order of the nodes, or success when none failed.
pub trigger_all_lem :
    (ps : List PeerActivation) (now_ns : ℕ)
    → ((trigger_all ps now_ns).0 ≡ map (λ p. (trigger p now_ns).0) ps)
      × ((trigger_all ps now_ns).1 ≡ first_failure (map (λ p. (trigger p now_ns).1) ps))
trigger_all_lem ps now_ns =
    let (left, r) = trigger_all-visit ps now_ns in
    (left ∙ visit-peers now_ns none ps, r ∙ visit-none now_ns ps)
