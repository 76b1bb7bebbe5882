-- ===== src/Frame/Recv/Batches.antt =====
-- The queue of received descriptors: batches in stream order, and what a frame takes of them.
use pipewire_native_rs.Prelude.{
  ℕ, suc, ◌+◌, ◌-◌, ◌≤◌, ◌<◌, ◌≡◌, ◌≢◌, refl, sym, ap, List, [], ◌∷◌, ◌++◌, append_assoc, some,
  length, take, drop, arith, length-append, length-take, length-drop, take-append-drop, take_all,
  drop_all,
}
use native.Mathlib.Decide.{ℕ_discrete, dec_lt}
use pipewire_native_rs.Frame.Recv.{FdBatch, pending_fds, available, take_fds}

-- All pending descriptors, in the order in which they came.
abbrev pub flat : List FdBatch → List ℕ
flat [] = []
flat (b ∷ bs) = b.fds ++ flat bs

-- The batches are not empty, and their positions rise, from `lo` on and below `hi`.
abbrev pub IsOrdered : ℕ → ℕ → List FdBatch → Type 0
IsOrdered lo hi [] = Unit {0}
IsOrdered lo hi (b ∷ bs) =
    (lo ≤ b.at) × (b.at < hi) × (0 < length b.fds) × IsOrdered (suc b.at) hi bs

pub IsOrdered-mono :
    (lo lo' hi hi' : ℕ) (bs : List FdBatch)
    → lo' ≤ lo
    → hi ≤ hi'
    → IsOrdered lo hi bs
    → IsOrdered lo' hi' bs
IsOrdered-mono lo lo' hi hi' [] h k o = tt
IsOrdered-mono lo lo' hi hi' (b ∷ bs) h k (p, q, r, o) =
    (omega arith, omega arith, r, IsOrdered-mono (suc b.at) (suc b.at) hi hi' bs (omega arith) k o)

-- A batch that comes at the end of the stream joins the end of the queue.
pub IsOrdered-snoc :
    (lo hi : ℕ) (bs : List FdBatch) (b : FdBatch) (hi' : ℕ)
    → IsOrdered lo hi bs
    → lo ≤ hi
    → b.at ≡ hi
    → hi < hi'
    → 0 < length b.fds
    → IsOrdered lo hi' (bs ++ (b ∷ []))
IsOrdered-snoc lo hi [] b hi' o h e k n = (omega arith, omega arith, n, tt)
IsOrdered-snoc lo hi (c ∷ bs) b hi' (p, q, r, o) h e k n =
    (p, omega arith, r, IsOrdered-snoc (suc c.at) hi bs b hi' o (omega arith) e k n)

pub flat-append : (bs cs : List FdBatch) → flat (bs ++ cs) ≡ flat bs ++ flat cs
flat-append [] cs = refl
flat-append (b ∷ bs) cs = rw (flat-append bs cs) (sym (append_assoc b.fds (flat bs) (flat cs)))

pub pending_fds-flat : (bs : List FdBatch) → pending_fds bs ≡ length (flat bs)
pending_fds-flat [] = refl
pending_fds-flat (b ∷ bs) = omega (arith, length-append b.fds (flat bs), pending_fds-flat bs)

-- Past the frame's end no batch is eligible.
available_late :
    (frame_end lo hi : ℕ) (bs : List FdBatch)
    → frame_end ≤ lo
    → IsOrdered lo hi bs
    → available frame_end bs ≡ 0
available_late frame_end lo hi [] h o = refl
available_late frame_end lo hi (b ∷ bs) h (p, q, r, o) =
    ground (arith, available_late frame_end (suc b.at) hi bs (omega arith) o)

-- What `take_fds` yields when enough descriptors are eligible.
pub record Takes (n hi : ℕ) (bs : List FdBatch) (r : List ℕ × List FdBatch) : Type 0 where
  pub count : length r.0 ≡ n
  pub split : r.0 ++ flat r.1 ≡ flat bs

eligible :
    (n frame_end lo hi : ℕ) (b : FdBatch) (bs : List FdBatch)
    → n ≢ 0
    → IsOrdered lo hi (b ∷ bs)
    → n ≤ available frame_end (b ∷ bs)
    → (b.at < frame_end) × (n ≤ length b.fds + available frame_end bs)
eligible n frame_end lo hi b bs nz (p, q, r, o) h =
    ground (arith, available_late frame_end (suc b.at) hi bs)

module _ (n frame_end : ℕ) (b : FdBatch) (bs : List FdBatch) (nz : n ≢ 0)
    (h : b.at < frame_end) where
  -- The front batch is used up.
  take_fds-whole :
      {fds : List ℕ} {rest : List FdBatch}
      → length b.fds ≤ n
      → take_fds (n - length b.fds) frame_end bs ≡ some (fds, rest)
      → take_fds n frame_end (b ∷ bs) ≡ some (b.fds ++ fds, rest)
  unfolding take_fds
  take_fds-whole l e = ground (arith, drop_all n b.fds l, take_all n b.fds l)

  -- The front batch has more than enough.
  take_fds-part :
      n < length b.fds
      → take_fds n frame_end (b ∷ bs) ≡ some (take n b.fds, record b { fds = drop n b.fds } ∷ bs)
  unfolding take_fds
  take_fds-part l = ground (arith, length-drop n b.fds)

take_fds-zero :
    (n frame_end : ℕ) (bs : List FdBatch) → n ≡ 0 → take_fds n frame_end bs ≡ some ([], bs)
unfolding take_fds
take_fds-zero n frame_end [] z = ground arith
take_fds-zero n frame_end (b ∷ bs) z = ground arith

-- The loop that takes `n` descriptors never panics once that many are eligible: it yields the
-- first `n` pending ones, and leaves the others in order.
pub take_fds-Takes :
    (n frame_end lo hi : ℕ) (bs : List FdBatch)
    → IsOrdered lo hi bs
    → n ≤ available frame_end bs
    → (r : List ℕ × List FdBatch) × (take_fds n frame_end bs ≡ some r)
      × Takes n hi bs r
      × IsOrdered lo hi r.1
take_fds-Takes n frame_end lo hi [] o h =
    (([], []), take_fds-zero n frame_end [] (omega arith), ground arith, tt)
take_fds-Takes n frame_end lo hi (b ∷ bs) o h = elim (ℕ_discrete n 0) [
  | yes z ↦ (([], b ∷ bs), take_fds-zero n frame_end (b ∷ bs) z, ground arith, o)
  | no nz ↦
      let (early, enough) = eligible n frame_end lo hi b bs nz o h in
      elim (dec_lt n (length b.fds)) [
        | yes l ↦ (
          (take n b.fds, record b { fds = drop n b.fds } ∷ bs),
          take_fds-part n frame_end b bs nz early l,
          record {
            count = omega (arith, length-take n b.fds);
            split =
                rw (← append_assoc (take n b.fds) (drop n b.fds) (flat bs))
                  (ap (λ t. t ++ flat bs) (take-append-drop n b.fds));
          },
          (o.0, o.1, omega (arith, length-drop n b.fds), o.3),
        )
        | no l ↦
            let ((fds, rest), e, t, w) =
              take_fds-Takes (n - length b.fds) frame_end (suc b.at) hi bs o.3 (omega arith) in
            (
              (b.fds ++ fds, rest),
              take_fds-whole n frame_end b bs nz early (omega arith) e,
              record {
                count = omega (arith, length-append b.fds fds, t.count);
                split = rw (append_assoc b.fds fds (flat rest), t.split);
              },
              IsOrdered-mono (suc b.at) lo hi hi rest (omega arith) (omega arith) w,
            )
      ]
]
