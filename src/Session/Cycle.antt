-- ===== src/Session/Cycle.antt =====
-- node/src/session/cycle.rs, and the cycle of `OutputGeneration::process`
-- (node/src/session/output.rs) once its views are bound. The application's callback is a parameter,
-- and what it writes into the media plane is left out. Indexing past the buffers, which panics, is
-- `index_panic`.
pub mod Publication
use pipewire_native_rs.Prelude.{
  ℕ, zero, suc, ◌+◌, ◌-◌, ◌*◌, ◌%◌, ◌^◌, ◌≡◌, List, [], ◌∷◌, length, get_elem?, set, Option, none,
  some, Bool, true, false, not, ◌||◌, Result, ok, err, ◌>>=◌, ◌>>◌, reject, ok_or, ltb, ◌==◌,
  if◌then◌else◌,
}
use pipewire_native_rs.Prelude.Words.{checked_mul, u32_max}
use pipewire_native_rs.Prelude.Int.{ℤ, pos, negsuc, ◌==ℤ◌}
use pipewire_native_rs.Session.Port.{
  BuffersIoState, need_data, have_data, PortError, OutputBuffer, capacity, publish, abort,
}

pub data CycleError : Type 0 where
  invalid_buffer_id capacity_exceeded : ℕ → ℕ → CycleError
  chunk_size_overflow frame_count_overflow : ℕ → CycleError
  port : PortError → CycleError
  no_committed_cycle index_panic : CycleError

pub record OutputBufferPublisher : Type 0 where
  pub io : BuffersIoState
  pub buffers : List OutputBuffer
  pub frame_stride : ℕ
  pub selected : Option ℕ

pub record OutputCycle : Type 0 where
  pub buffer : OutputBuffer
  pub buffer_id : ℕ
  pub frame_stride : ℕ

pub record CommittedOutput : Type 0 where
  pub buffer_id : ℕ
  pub bytes_used : ℕ
  pub stride : ℕ
  pub flags : ℕ

pub record PublishedOutput : Type 0 where
  pub buffer_id : ℕ
  pub bytes_used : ℕ

-- `OutputBufferPublisher::new`
abbrev pub new_publisher : BuffersIoState → List OutputBuffer → ℕ → OutputBufferPublisher
new_publisher io buffers frame_stride = record {
  io = io;
  buffers = buffers;
  frame_stride = frame_stride;
  selected = none;
}

-- `OutputBufferPublisher::select`
unfoldable pub select :
    OutputBufferPublisher → OutputBufferPublisher × Result CycleError (Option OutputCycle)
select p =
    let index = p.io.buffer_id in
    if not (p.io.status ==ℤ need_data) then (p, ok none) else elim (get_elem? p.buffers index) [
      | none ↦ (p, err (invalid_buffer_id index (length p.buffers)))
      | some b ↦ (
        record p { selected = some index },
        ok (some (record { buffer = b; buffer_id = index; frame_stride = p.frame_stride })),
      )
    ]

-- `OutputCycle::frame_capacity` is this capacity in whole frames.
abbrev pub cycle_capacity : OutputCycle → ℕ
cycle_capacity c = capacity c.buffer

-- `OutputCycle::commit_bytes`
unfoldable pub commit_bytes : OutputCycle → ℕ → ℕ → ℕ → Result CycleError CommittedOutput
commit_bytes c bytes_used stride flags = do
  reject (ltb (cycle_capacity c) bytes_used) (capacity_exceeded bytes_used (cycle_capacity c))
  reject (ltb u32_max bytes_used) (chunk_size_overflow bytes_used)
  ok (record { buffer_id = c.buffer_id; bytes_used = bytes_used; stride = stride; flags = flags })

-- `OutputCycle::commit`
unfoldable pub commit : OutputCycle → ℕ → Result CycleError CommittedOutput
unfolding commit_bytes
commit c frames = do
  bytes ← ok_or (checked_mul frames c.frame_stride) (frame_count_overflow frames)
  commit_bytes c bytes c.frame_stride 0

-- `OutputBufferPublisher::publish_committed`
unfoldable pub publish_committed :
    OutputBufferPublisher
    → CommittedOutput
    → OutputBufferPublisher × Result CycleError PublishedOutput
publish_committed p c = elim p.selected [
  | none ↦ (p, err no_committed_cycle)
  | some selected ↦
      if not (c.buffer_id == selected)
      then (p, err (invalid_buffer_id c.buffer_id (length p.buffers)))
      else elim (get_elem? p.buffers selected) [
        | none ↦ (p, err index_panic)
        | some b ↦
            let (b', r) = publish b c.bytes_used c.stride c.flags in
            let p' = record p { buffers = set p.buffers selected b' } in
            elim r [
              | err e ↦ (p', err (port e))
              | ok _ ↦ (
                record p' {
                  io = record { status = have_data; buffer_id = c.buffer_id };
                  selected = none;
                },
                ok (record { buffer_id = c.buffer_id; bytes_used = c.bytes_used }),
              )
            ]
      ]
]

-- `Drop for OutputBufferPublisher`
unfoldable pub drop_publisher : OutputBufferPublisher → OutputBufferPublisher
drop_publisher p = elim p.selected [
  | none ↦ p
  | some selected ↦ elim (get_elem? p.buffers selected) [
    | none ↦ record p { selected = none }
    | some b ↦ record p {
      io = record { status = need_data; buffer_id = selected % 2 ^ 32 };
      buffers = set p.buffers selected (abort b);
      selected = none;
    }
  ]
]

-- How the application's `OutputProcess::process` ends.
pub data CallbackOutcome : Type 0 where
  commits : CommittedOutput → CallbackOutcome
  fails panics : CallbackOutcome

pub data ProcessFailure : Type 0 where
  cycle : CycleError → ProcessFailure
  callback_failed callback_panicked : ProcessFailure

-- What the callback's outcome makes of the publisher that selected its cycle.
unfoldable pub finish :
    OutputBufferPublisher
    → CallbackOutcome
    → OutputBufferPublisher × Result ProcessFailure PublishedOutput
unfolding publish_committed
finish p fails = (p, err callback_failed)
finish p panics = (p, err callback_panicked)
finish p (commits c) =
    let (p', r) = publish_committed p c in
    elim r [ err e ↦ (p', err (cycle e)) | ok published ↦ (p', ok published) ]

-- `OutputGeneration::process` from the publisher on, which is dropped however the cycle ends.
unfoldable pub process :
    OutputBufferPublisher
    → (OutputCycle → CallbackOutcome)
    → OutputBufferPublisher × Result ProcessFailure (Option PublishedOutput × ℤ)
unfolding select finish drop_publisher
process p callback =
    let (p', selection) = select p in
    elim selection [
      | err e ↦ (drop_publisher p', err (cycle e))
      | ok none ↦ (drop_publisher p', ok (none, pos 0))
      | ok (some c) ↦
          let (p₂, r) = finish p' (callback c) in
          elim r [
            | err e ↦ (drop_publisher p₂, err e)
            | ok published ↦ (drop_publisher p₂, ok (some published, have_data))
          ]
    ]
