-- ===== src/Session/Cycle/Publication.antt =====
-- How a process cycle ends: with its buffer published, or with its buffer handed back empty.
use pipewire_native_rs.Prelude.{
  ℕ, zero, suc, [], ◌∷◌, ◌*◌, ◌%◌, ◌^◌, ◌≤◌, ◌≡◌, ◌≢◌, ◌⊎◌, inl, inr, refl, sym, ap, subst, ◌∙◌,
  List, ◌<◌, ◌||◌, ltb, length, get_elem?, set, Option, none, some, true, false, Result, ok, err,
  arith, Bool-cases, Option-cases,
}
use native.Mathlib.Nat.{mod-eq_of_lt}
use native.Mathlib.Decide.{ℕ_discrete}
use pipewire_native_rs.Prelude.Words.{u32_max, i32_max}
use pipewire_native_rs.Prelude.Int.{ℤ, pos, ◌==ℤ◌, ==ℤ-eq}
use pipewire_native_rs.Session.Port.{
  need_data, have_data, PortError, invalid_stride, clamp_i32, OutputBuffer, capacity, publish,
  abort,
}
use pipewire_native_rs.Session.Port.Bounds.{IsBuffer, publish_lem}
use pipewire_native_rs.Session.Cycle.{
  CycleError, OutputBufferPublisher, OutputCycle, CommittedOutput, PublishedOutput, CallbackOutcome,
  ProcessFailure, select, commit_bytes, commit, publish_committed, drop_publisher, finish, process,
  commits, fails, panics, callback_failed, callback_panicked, cycle, port, invalid_buffer_id,
}

-- The cycle that a selection of buffer `b` gives out.
abbrev pub cycle_of : OutputBufferPublisher → OutputBuffer → OutputCycle
cycle_of p b = record { buffer = b; buffer_id = p.io.buffer_id; frame_stride = p.frame_stride }

-- The publisher while the callback runs.
abbrev pub selecting : OutputBufferPublisher → OutputBufferPublisher
selecting p = record p { selected = some p.io.buffer_id }

-- The buffer with nothing in its chunk, and the buffer with the chunk that a commitment describes.
abbrev pub emptied : OutputBuffer → OutputBuffer
emptied b = record b { chunk = record b.chunk { size = 0 } }

abbrev pub filled : OutputBuffer → CommittedOutput → OutputBuffer
filled b c = record b {
  chunk = record {
    offset = b.data_offset % 2 ^ 32;
    size = c.bytes_used % 2 ^ 32;
    stride = pos c.stride;
    flags = c.flags;
  };
}

-- The publisher after the cycle's buffer `b` has been handed back empty.
abbrev pub aborted : OutputBufferPublisher → OutputBuffer → OutputBufferPublisher
aborted p b = record p {
  io = record { status = need_data; buffer_id = p.io.buffer_id };
  buffers = set p.buffers p.io.buffer_id (emptied b);
  selected = none;
}

-- The publisher after the cycle's buffer `b` has been published as `c` says.
abbrev pub completed :
    OutputBufferPublisher → OutputBuffer → CommittedOutput → OutputBufferPublisher
completed p b c = record p {
  io = record { status = have_data; buffer_id = p.io.buffer_id };
  buffers = set p.buffers p.io.buffer_id (filled b c);
  selected = none;
}

abbrev pub published_as : CommittedOutput → PublishedOutput
published_as c = record { buffer_id = c.buffer_id; bytes_used = c.bytes_used }

set-get_elem? {ℓ} :
    {A : Type ℓ} (xs : List A) (i : ℕ) {x : A} → get_elem? xs i ≡ some x → set xs i x ≡ xs
set-get_elem? [] i e = refl
set-get_elem? (x ∷ xs) zero e = ground arith
set-get_elem? (x ∷ xs) (suc i) e = ap (λ ys. x ∷ ys) (set-get_elem? xs i e)

select-some :
    (p : OutputBufferPublisher) {b : OutputBuffer}
    → p.io.status ≡ need_data
    → get_elem? p.buffers p.io.buffer_id ≡ some b
    → select p ≡ (selecting p, ok (some (cycle_of p b)))
unfolding select
select-some p n e = ground arith

drop-selecting :
    (p : OutputBufferPublisher) {b : OutputBuffer}
    → p.io.buffer_id ≤ u32_max
    → get_elem? p.buffers p.io.buffer_id ≡ some b
    → drop_publisher (selecting p) ≡ aborted p b
unfolding drop_publisher abort
drop-selecting p h e =
    let same = mod-eq_of_lt {n = p.io.buffer_id} {m = 2 ^ 32} (omega arith) in
    rw (drop_publisher, e, same) refl

-- Whether the callback's outcome publishes the cycle's buffer `b`.
pub Publishes : OutputBufferPublisher → OutputBuffer → CallbackOutcome → CommittedOutput → Type 0
Publishes p b o c =
    (o ≡ commits c)
    × (c.buffer_id ≡ p.io.buffer_id)
    × (c.stride ≤ b.max_size)
    × (c.stride ≤ i32_max)

publish-err :
    (b : OutputBuffer) (bytes_used stride flags : ℕ) {e : PortError}
    → (publish b bytes_used stride flags).1 ≡ err e
    → (publish b bytes_used stride flags).0 ≡ b
unfolding publish
publish-err b bytes_used stride flags e = ground arith

publish_committed-other :
    (p : OutputBufferPublisher) (c : CommittedOutput)
    → c.buffer_id ≢ p.io.buffer_id
    → publish_committed (selecting p) c
      ≡ (selecting p, err (invalid_buffer_id c.buffer_id (length p.buffers)))
unfolding publish_committed
publish_committed-other p c ne = ground arith

publish_committed-refused :
    (p : OutputBufferPublisher) (b : OutputBuffer) (c : CommittedOutput) {x : PortError}
    → get_elem? p.buffers p.io.buffer_id ≡ some b
    → c.buffer_id ≡ p.io.buffer_id
    → (publish b c.bytes_used c.stride c.flags).1 ≡ err x
    → publish_committed (selecting p) c ≡ (selecting p, err (port x))
unfolding publish_committed
publish_committed-refused p b c h same e =
    let unchanged = publish-err b c.bytes_used c.stride c.flags e in
    let kept = set-get_elem? p.buffers p.io.buffer_id h in ground arith

publish-filled :
    (b : OutputBuffer) (c : CommittedOutput)
    → (publish b c.bytes_used c.stride c.flags).1 ≡ ok tt
    → (publish b c.bytes_used c.stride c.flags).0 ≡ filled b c
unfolding publish
publish-filled b c e = ground arith

publish_committed-ok :
    (p : OutputBufferPublisher) (b : OutputBuffer) (c : CommittedOutput)
    → get_elem? p.buffers p.io.buffer_id ≡ some b
    → c.buffer_id ≡ p.io.buffer_id
    → (publish b c.bytes_used c.stride c.flags).1 ≡ ok tt
    → publish_committed (selecting p) c ≡ (completed p b c, ok (published_as c))
unfolding publish_committed
publish_committed-ok p b c h same e = let new = publish-filled b c e in ground arith

finish-commits :
    (p : OutputBufferPublisher) (c : CommittedOutput) {q : OutputBufferPublisher}
    {published : PublishedOutput}
    → publish_committed (selecting p) c ≡ (q, ok published)
    → finish (selecting p) (commits c) ≡ (q, ok published)
unfolding finish
finish-commits p c e = ground arith

finish-refuses :
    (p : OutputBufferPublisher) (c : CommittedOutput) {q : OutputBufferPublisher} {x : CycleError}
    → publish_committed (selecting p) c ≡ (q, err x)
    → finish (selecting p) (commits c) ≡ (q, err (cycle x))
unfolding finish
finish-refuses p c e = ground arith

process-finishes :
    (p : OutputBufferPublisher) (callback : OutputCycle → CallbackOutcome) (c : OutputCycle)
    {q : OutputBufferPublisher} {published : PublishedOutput}
    → select p ≡ (selecting p, ok (some c))
    → finish (selecting p) (callback c) ≡ (q, ok published)
    → process p callback ≡ (drop_publisher q, ok (some published, have_data))
unfolding process
process-finishes p callback c e f = ground arith

process-aborts :
    (p : OutputBufferPublisher) (callback : OutputCycle → CallbackOutcome) (c : OutputCycle)
    {q : OutputBufferPublisher} {x : ProcessFailure}
    → select p ≡ (selecting p, ok (some c))
    → finish (selecting p) (callback c) ≡ (q, err x)
    → process p callback ≡ (drop_publisher q, err x)
unfolding process
process-aborts p callback c e f = ground arith

-- What keeps the callback's outcome from publishing the cycle's buffer `b`, and the error that
-- reports it.
pub Refuses : OutputBufferPublisher → OutputBuffer → CallbackOutcome → ProcessFailure → Type 0
Refuses p b o e =
    ((o ≡ fails) × (e ≡ callback_failed))
    ⊎ ((o ≡ panics) × (e ≡ callback_panicked))
    ⊎ ((c : CommittedOutput) × (o ≡ commits c)
        × (((c.buffer_id ≢ p.io.buffer_id)
              × (e ≡ cycle (invalid_buffer_id c.buffer_id (length p.buffers))))
            ⊎ ((c.buffer_id ≡ p.io.buffer_id)
                × ((b.max_size < c.stride) ⊎ (i32_max < c.stride))
                × (e ≡ cycle (port (invalid_stride (clamp_i32 c.stride) b.max_size))))))

-- A publication refuses only strides out of bounds.
publish-cases :
    (b : OutputBuffer) (bytes_used stride flags : ℕ)
    → ((stride ≤ b.max_size) × (stride ≤ i32_max) × ((publish b bytes_used stride flags).1 ≡ ok tt))
      ⊎ (((b.max_size < stride) ⊎ (i32_max < stride))
          × ((publish b bytes_used stride flags).1
              ≡ err (invalid_stride (clamp_i32 stride) b.max_size)))
unfolding publish
publish-cases b bytes_used stride flags =
    elim (Bool-cases (ltb b.max_size stride || ltb i32_max stride)) [
      | inl wide ↦ inr (ground arith, ground arith)
      | inr fits ↦ inl (ground arith, ground arith, ground arith)
    ]

finish_lem :
    (p : OutputBufferPublisher) (b : OutputBuffer) (o : CallbackOutcome)
    → get_elem? p.buffers p.io.buffer_id ≡ some b
    → ((e : ProcessFailure) × Refuses p b o e × (finish (selecting p) o ≡ (selecting p, err e)))
      ⊎ ((c : CommittedOutput) × Publishes p b o c
          × (finish (selecting p) o ≡ (completed p b c, ok (published_as c))))
unfolding finish Publishes Refuses
finish_lem p b fails h = inl (callback_failed, inl (refl, refl), refl)
finish_lem p b panics h = inl (callback_panicked, inr (inl (refl, refl)), refl)
finish_lem p b (commits c) h = elim (ℕ_discrete c.buffer_id p.io.buffer_id) [
  | no ne ↦ inl (
    cycle (invalid_buffer_id c.buffer_id (length p.buffers)),
    inr (inr (c, refl, inl (ne, refl))),
    finish-refuses p c (publish_committed-other p c ne),
  )
  | yes same ↦ elim (publish-cases b c.bytes_used c.stride c.flags) [
    | inl (fits, small, e) ↦
        inr (c, (refl, same, fits, small), finish-commits p c (publish_committed-ok p b c h same e))
    | inr (wide, e) ↦ inl (
      cycle (port (invalid_stride (clamp_i32 c.stride) b.max_size)),
      inr (inr (c, refl, inr (same, wide, refl))),
      finish-refuses p c (publish_committed-refused p b c h same e),
    )
  ]
]

-- How a cycle ends in which `select` gives out buffer `b`.
pub Ends :
    OutputBufferPublisher
    → OutputBuffer
    → CallbackOutcome
    → OutputBufferPublisher × Result ProcessFailure (Option PublishedOutput × ℤ)
    → Type 0
Ends p b o run =
    ((c : CommittedOutput) × Publishes p b o c
      × (run ≡ (completed p b c, ok (some (published_as c), have_data))))
    ⊎ ((e : ProcessFailure) × Refuses p b o e × (run ≡ (aborted p b, err e)))

process-selected :
    (p : OutputBufferPublisher) (callback : OutputCycle → CallbackOutcome) (b : OutputBuffer)
    → p.io.buffer_id ≤ u32_max
    → p.io.status ≡ need_data
    → get_elem? p.buffers p.io.buffer_id ≡ some b
    → Ends p b (callback (cycle_of p b)) (process p callback)
unfolding process Ends drop_publisher
process-selected p callback b h n e = elim (finish_lem p b (callback (cycle_of p b)) e) [
  | inl (x, why, f) ↦ inr (
    x,
    why,
    process-aborts p callback (cycle_of p b) (select-some p n e) f
        ∙ ap (λ q. (q, err x)) (drop-selecting p h e),
  )
  | inr (c, v, f) ↦ inl (c, v, process-finishes p callback (cycle_of p b) (select-some p n e) f)
]

process-unasked :
    (p : OutputBufferPublisher) (callback : OutputCycle → CallbackOutcome)
    → p.selected ≡ none
    → (p.io.status ==ℤ need_data) ≡ false
    → (p.io.status ≢ need_data) × (process p callback ≡ (p, ok (none, pos 0)))
unfolding process select drop_publisher
process-unasked p callback s off =
    (λ n. let t = ap (λ x. x ==ℤ need_data) n in ground arith, ground arith)

process-unknown :
    (p : OutputBufferPublisher) (callback : OutputCycle → CallbackOutcome)
    → p.selected ≡ none
    → (p.io.status ==ℤ need_data) ≡ true
    → get_elem? p.buffers p.io.buffer_id ≡ none
    → process p callback ≡ (p, err (cycle (invalid_buffer_id p.io.buffer_id (length p.buffers))))
unfolding process select drop_publisher
process-unknown p callback s n e = ground arith

-- For a new publisher, whose IO holds a `u32` identifier: a cycle runs the callback only when the
-- shared IO asks for data and names a buffer. Its buffer is then published, with the IO at
-- `have_data`, when the callback returns a commitment for that buffer with a stride that fits the
-- buffer and an `i32`. It is handed back, the chunk's size at 0 and the IO back at `need_data`, only
-- when the callback fails or panics, or commits another buffer or a stride that does not fit, and
-- the error says which. The published chunk has the committed size, stride and flags, the size as a
-- `u32`, at the buffer's own offset. Without a request, or with an unknown buffer, nothing changes.
pub process_lem :
    (p : OutputBufferPublisher) (callback : OutputCycle → CallbackOutcome)
    → p.selected ≡ none
    → p.io.buffer_id ≤ u32_max
    → ((p.io.status ≢ need_data) × (process p callback ≡ (p, ok (none, pos 0))))
      ⊎ ((p.io.status ≡ need_data)
          × (get_elem? p.buffers p.io.buffer_id ≡ none)
          × (process p callback
              ≡ (p, err (cycle (invalid_buffer_id p.io.buffer_id (length p.buffers))))))
      ⊎ ((p.io.status ≡ need_data)
          × ((b : OutputBuffer) × (get_elem? p.buffers p.io.buffer_id ≡ some b)
              × Ends p b (callback (cycle_of p b)) (process p callback)))
unfolding process select drop_publisher
process_lem p callback s h = elim (Bool-cases (p.io.status ==ℤ need_data)) [
  | inr off ↦ inl (process-unasked p callback s off)
  | inl on ↦ elim (Option-cases (get_elem? p.buffers p.io.buffer_id)) [
    | inl e ↦ inr (inl (==ℤ-eq p.io.status need_data on, e, process-unknown p callback s on e))
    | inr (b, e) ↦
        let n = ==ℤ-eq p.io.status need_data on in
        inr (inr (n, (b, e, process-selected p callback b h n e)))
  ]
]

-- A commit succeeds only for whole frames that fit the cycle's capacity, and names its buffer.
commit-ok :
    (c : OutputCycle) (frames : ℕ) {d : CommittedOutput}
    → commit c frames ≡ ok d
    → (d.buffer_id ≡ c.buffer_id)
      × (d.bytes_used ≡ frames * c.frame_stride)
      × (d.stride ≡ c.frame_stride)
      × (d.bytes_used ≤ capacity c.buffer)
unfolding commit commit_bytes
commit-ok c frames e = ground arith

-- A publication refuses only strides out of bounds.
publish-accepts :
    (b : OutputBuffer) (bytes_used stride flags : ℕ)
    → stride ≤ b.max_size
    → stride ≤ i32_max
    → (publish b bytes_used stride flags).1 ≡ ok tt
unfolding publish
publish-accepts b bytes_used stride flags fits small = ground arith

-- A callback that commits whole frames of the buffer it was given has them published when the frame
-- stride fits the buffer and an `i32`: the cycle succeeds with that number of bytes, the IO has
-- data in that buffer, and the buffer with its new chunk, of that size, is valid again.
pub process-commit :
    (p : OutputBufferPublisher) (callback : OutputCycle → CallbackOutcome) (b : OutputBuffer)
    (frames : ℕ) {c : CommittedOutput}
    → p.io.buffer_id ≤ u32_max
    → p.io.status ≡ need_data
    → get_elem? p.buffers p.io.buffer_id ≡ some b
    → IsBuffer b
    → p.frame_stride ≤ b.max_size
    → p.frame_stride ≤ i32_max
    → commit (cycle_of p b) frames ≡ ok c
    → callback (cycle_of p b) ≡ commits c
    → (process p callback ≡ (completed p b c, ok (some (published_as c), have_data)))
      × (c.bytes_used ≡ frames * p.frame_stride)
      × IsBuffer (publish b c.bytes_used c.stride c.flags).0
      × ((publish b c.bytes_used c.stride c.flags).0.chunk.size ≡ c.bytes_used)
unfolding drop_publisher
process-commit p callback b frames {c} h n e v fits small made o =
    let (id, bytes, stride, inside) = commit-ok (cycle_of p b) frames made in
    let t = publish-accepts b c.bytes_used c.stride c.flags (ground arith) (ground arith) in
    let f = finish-commits p c (publish_committed-ok p b c e id t) in
    let run =
      subst (λ x. finish (selecting p) x ≡ (completed p b c, ok (published_as c))) (sym o) f in
    let (kept, how) = publish_lem b c.bytes_used c.stride c.flags v inside in
    (
      process-finishes p callback (cycle_of p b) (select-some p n e) run,
      bytes,
      kept,
      elim how [
        | inl (_, chunk, _) ↦ ap (λ x. x.size) chunk
        | inr (_, (x, refused)) ↦ ground arith
      ],
    )
