-- ===== src/Frame/Send/Pending.antt =====
-- What a sender still owes to the socket, and the counters that `FrameSender` keeps of it.
use pipewire_native_rs.Prelude.{
  ℕ, ◌-◌, ◌≤◌, ◌<◌, ◌≡◌, ◌≢◌, ◌⊎◌, refl, sym, ap, subst, false, not, ◌&&◌, List, [], ◌∷◌, ◌++◌,
  append_assoc, length, is_empty, take, drop, if◌then◌else◌, All, arith, length-append, length-drop,
  length-take, take-append-drop, drop-drop, take_all,
}
use pipewire_native_rs.Frame.Send.{SendFrame, FrameSender, include_fds, sent_some, fail, clear}

-- The bytes that are queued and not sent, in the order in which they have to leave.
abbrev pub stream : List SendFrame → List ℕ
stream [] = []
stream (f ∷ q) = drop f.offset f.bytes ++ stream q

-- The descriptors that are queued and not sent.
abbrev pub rights : List SendFrame → List ℕ
rights [] = []
rights (f ∷ q) = f.fds ++ rights q

-- A queued frame has a byte to send, and holds no descriptor that was sent.
pub record IsPending (f : SendFrame) : Type 0 where
  pub unfinished : f.offset < length f.bytes
  pub cleared : f.ancillary_sent && not (is_empty f.fds) ≡ false

-- The counters are exact and within the limits, and a failed sender holds nothing.
pub record IsSender (s : FrameSender) : Type 0 where
  pub pending : All IsPending s.queue
  pub bytes_exact : s.queued_bytes ≡ length (stream s.queue)
  pub fds_exact : s.queued_fds ≡ length (rights s.queue)
  pub bytes_bound : s.queued_bytes ≤ s.limits.max_queued_bytes
  pub fds_bound : s.queued_fds ≤ s.limits.max_queued_fds
  pub failed_empty : (s.failed ≡ false) ⊎ (s.queue ≡ [])

pub stream-append : (p q : List SendFrame) → stream (p ++ q) ≡ stream p ++ stream q
stream-append [] q = refl
stream-append (f ∷ p) q = rw (stream-append p q) (sym (append_assoc _ (stream p) (stream q)))

pub rights-append : (p q : List SendFrame) → rights (p ++ q) ≡ rights p ++ rights q
rights-append [] q = refl
rights-append (f ∷ p) q = rw (rights-append p q) (sym (append_assoc _ (rights p) (rights q)))

pub clear-IsSender : (s : FrameSender) → IsSender (clear s)
unfolding clear
clear-IsSender s = ground arith

pub fail-IsSender : (s : FrameSender) → IsSender (fail s)
unfolding fail
fail-IsSender s = ground arith

module _ (s : FrameSender) (frame : SendFrame) (rest : List SendFrame) (n : ℕ) where
  -- What went out, followed by what is still owed, is what was owed before.
  pub stream-sent_some :
      n ≤ length (drop frame.offset frame.bytes)
      → take n (drop frame.offset frame.bytes) ++ stream (sent_some s frame rest n).queue
        ≡ stream (frame ∷ rest)
  unfolding sent_some
  stream-sent_some h = ground (
    arith,
    take-append-drop n (drop frame.offset frame.bytes),
    drop-drop n frame.offset frame.bytes,
    append_assoc (take n left) (drop n left) (stream rest),
    take_all n (drop frame.offset frame.bytes),
    length-drop frame.offset frame.bytes,
  )
    where
      left : List ℕ
      left = drop frame.offset frame.bytes

  pub rights-sent_some :
      IsPending frame
      → (if include_fds frame then frame.fds else []) ++ rights (sent_some s frame rest n).queue
        ≡ rights (frame ∷ rest)
  unfolding sent_some
  rights-sent_some v = ground (arith, v.cleared)

  pub counts-sent_some :
      ((sent_some s frame rest n).queued_bytes ≡ s.queued_bytes - n)
      × ((sent_some s frame rest n).queued_fds
          ≡ s.queued_fds - length (if include_fds frame then frame.fds else []))
  unfolding sent_some
  counts-sent_some = ground arith

  IsPending-sent_some :
      n ≢ 0
      → n ≤ length (drop frame.offset frame.bytes)
      → All IsPending (frame ∷ rest)
      → All IsPending (sent_some s frame rest n).queue
  unfolding sent_some
  IsPending-sent_some nz h v = ground (arith, v.0.cleared, length-drop frame.offset frame.bytes)

  same-sent_some :
      ((sent_some s frame rest n).limits ≡ s.limits)
      × ((sent_some s frame rest n).failed ≡ s.failed)
  unfolding sent_some
  same-sent_some = (refl, refl)

  pub sent_some-IsSender :
      s.queue ≡ frame ∷ rest
      → n ≢ 0
      → n ≤ length (drop frame.offset frame.bytes)
      → IsSender s
      → IsSender (sent_some s frame rest n)
  sent_some-IsSender e nz h v = record {
    pending = IsPending-sent_some nz h front;
    bytes_exact = omega (
      arith,
      counts-sent_some,
      subst (λ q. s.queued_bytes ≡ length (stream q)) e v.bytes_exact,
      ap length (stream-sent_some h),
      length-append (take n left) (stream after),
      length-take n left,
    );
    fds_exact = omega (
      arith,
      counts-sent_some,
      subst (λ q. s.queued_fds ≡ length (rights q)) e v.fds_exact,
      ap length (rights-sent_some front.0),
      length-append (if include_fds frame then frame.fds else []) (rights after),
    );
    bytes_bound = rw (same-sent_some.0, counts-sent_some.0) (omega (arith, v.bytes_bound));
    fds_bound = rw (same-sent_some.0, counts-sent_some.1) (omega (arith, v.fds_bound));
    failed_empty = ground (arith, same-sent_some, v.failed_empty);
  }
    where
      left : List ℕ
      left = drop frame.offset frame.bytes

      after : List SendFrame
      after = (sent_some s frame rest n).queue

      front : All IsPending (frame ∷ rest)
      front = subst (λ q. All IsPending q) e v.pending
