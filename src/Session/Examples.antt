-- ===== src/Session/Examples.antt =====
-- The client-node session on concrete memory, records and buffers.
use pipewire_native_rs.Prelude.{
  ℕ, ◌+◌, ◌*◌, ◌≤◌, ◌<◌, ◌≡◌, ◌≢◌, ◌⊎◌, ◌↔◌, refl, Bool, true, false, List, [], ◌∷◌, none, some, ok,
  err, map, get_elem?, arith, ◌==◌, if◌then◌else◌,
}
use pipewire_native_rs.Prelude.Words.{isize_max}
use pipewire_native_rs.Prelude.Int.{pos, negsuc}
use pipewire_native_rs.Session.Activation.{
  Activation, ActivationStatus, ActivationError, code, transition, triggered, awake, not_triggered,
  unknown_status, decrement_loop, invalid_transition,
}
use pipewire_native_rs.Session.Activation.Atomic.{
  idle, trigger_call, claim_call, deactivate_call, System, RecordEvent, starts, advances, foreign,
  event_step, make_access,
}
use pipewire_native_rs.Session.Activation.Atomic.Balance as Balance
use pipewire_native_rs.Session.Activation.Atomic.Balance.{
  claims_of, triggers_of, withdraws_of, total,
}
use pipewire_native_rs.Session.Activation.Trigger.{
  Linearized, decrement_loop-Linearized, decrements, countdown, decrements-countdown,
}
use pipewire_native_rs.Session.Transport
use pipewire_native_rs.Session.Transport.{
  Processed, processed, failed, panicked, failure, callback_panicked, finish_clock_panicked,
  not_claimed, activation, claim_and_finish,
}
use pipewire_native_rs.Session.Transport.Finish.{
  claimed_at, finished_at, claim_and_finish-triggered, claim_and_finish-untriggered,
}
use pipewire_native_rs.Session.Peer.{PeerActivation, trigger, trigger_all}
use pipewire_native_rs.Session.Peer.Visit.{first_failure, trigger_all_lem}
use pipewire_native_rs.Session.Shm.{
  Kernel, MappedRegion, available, allow, require_sealed, prevents_shrink, map_shared_with_policy,
  seal_status,
}
use pipewire_native_rs.Session.Shm.Bounds.{IsMapped, IsSealed, map-IsMapped}
use pipewire_native_rs.Session.Memory.{
  MemoryEntry, MemoryInterval, MemoryKey, MemoryMapping, MemoryLease, MemoryPool, MemoryError,
  BackingIdentity, memfd, add, remove, resolve, lease, map_region, map_entry, interval, overlaps,
  unknown_memory, find, erase,
}
use pipewire_native_rs.Session.Memory.Overlap.{Covers, overlaps_iff, map_entry-interval}
use pipewire_native_rs.Session.Memory.Pool.{IsPool}
use pipewire_native_rs.Session.Memory.Laws.{add_lem, remove_lem}
use pipewire_native_rs.Session.Memory.Retired
use pipewire_native_rs.Session.Memory.Retired.{
  run, run-IsPool, removed_forever, adds, removes, clears,
}
use pipewire_native_rs.Session.Port.{
  ChunkState, OutputBuffer, from_raw_parts, checked_record, publish, capacity, need_data, have_data,
}
use pipewire_native_rs.Session.Port.Bounds.{IsBuffer, from_raw_parts-IsBuffer}
use pipewire_native_rs.Session.Cycle.{
  OutputBufferPublisher, OutputCycle, CommittedOutput, CallbackOutcome, commits, process, commit,
  commit_bytes, cycle, invalid_buffer_id,
}
use pipewire_native_rs.Session.Cycle.Publication.{
  Ends, cycle_of, completed, published_as, process_lem, process-commit,
}

abbrev waiting_node : Activation
waiting_node = record {
  status = 0;
  state0_status = pos 0;
  required = pos 2;
  pending = pos 2;
  signal_time = 0;
  awake_time = 0;
  finish_time = 0;
  client_version = 1;
  server_version = 1;
}

abbrev ready_node : Activation
ready_node = record waiting_node { status = 1 }

-- The other participants leave the record alone; the callback panics.
abbrev quiet : Activation → Activation
quiet a = a

abbrev panic : Processed ℕ ℕ
panic = panicked

claim_and_finish-triggered_example :
    let run = claim_and_finish {T = ℕ} {E = ℕ} 4096 2312 ready_node 5 quiet in
    let left = finished_at (claimed_at ready_node 5) in
    (run (some 9) (processed 3 (pos 2)) ≡ (left (pos 2) 9, ok (Transport.finished (ok 3) 9)))
    × (run (some 9) (failed (failure 8))
        ≡ (left (negsuc 4) 9, ok (Transport.finished (err (failure 8)) 9)))
    × (run (some 9) panicked
        ≡ (left (negsuc 4) 9, ok (Transport.finished (err callback_panicked) 9)))
    × (run none panic ≡ (left (negsuc 4) 5, ok (Transport.finished (err finish_clock_panicked) 5)))
unfolding pipewire_native_rs.Session.Activation.from_raw_parts
claim_and_finish-triggered_example =
    claim_and_finish-triggered 4096 2312 ready_node 5 9 quiet 3 (pos 2) (failure 8) panic refl refl
      refl

claim_and_finish-untriggered_example :
    (claim_and_finish 4096 2312 waiting_node 5 quiet (some 9) panic
      ≡ (waiting_node, ok not_claimed))
    ⊎ (claim_and_finish 4096 2312 waiting_node 5 quiet (some 9) panic
        ≡ (waiting_node, err (activation (unknown_status 0))))
unfolding pipewire_native_rs.Session.Activation.from_raw_parts
claim_and_finish-untriggered_example =
    claim_and_finish-untriggered 4096 2312 waiting_node 5 quiet (some 9) panic refl
      (λ e. absurd (omega (arith, e)))

-- The first peer's record is not mapped in whole, the second one's is.
abbrev two_peers : List PeerActivation
two_peers =
    record {
      node = 3;
      generation = 1;
      key = record { id = 3; generation = 1 };
      interval = record { backing = record { device = 1; inode = 9 }; start = 0; end = 16 };
      base = 4096;
      len = 16;
      activation = waiting_node;
      others = [];
      between = quiet;
      signal = ok tt;
    }
    ∷ record {
      node = 5;
      generation = 2;
      key = record { id = 4; generation = 2 };
      interval = record { backing = record { device = 1; inode = 10 }; start = 0; end = 2312 };
      base = 8192;
      len = 2312;
      activation = waiting_node;
      others = [];
      between = quiet;
      signal = ok tt;
    }
    ∷ []

trigger_all_lem_example :
    ((trigger_all two_peers 7).0 ≡ map (λ p. (trigger p 7).0) two_peers)
    × ((trigger_all two_peers 7).1 ≡ first_failure (map (λ p. (trigger p 7).1) two_peers))
trigger_all_lem_example = trigger_all_lem two_peers 7

-- Two dependencies report at the same time, the second one takes the last count, and the node
-- claims the cycle before the signal time is written; then the server triggers again.
abbrev three_participants : System
three_participants = (waiting_node, idle ∷ idle ∷ idle ∷ [])

abbrev crossing_events : List RecordEvent
crossing_events =
    starts 0 (trigger_call 1)
    ∷ starts 1 (trigger_call 2)
    ∷ advances 0
    ∷ advances 1
    ∷ advances 0
    ∷ advances 1
    ∷ advances 1
    ∷ advances 1
    ∷ starts 2 (claim_call 3)
    ∷ advances 2
    ∷ advances 1
    ∷ foreign (λ a. record a { status = 1 })
    ∷ starts 0 deactivate_call
    ∷ advances 0
    ∷ []

-- One cycle is claimed, and the second trigger is withdrawn.
crossing_claims :
    (total claims_of three_participants crossing_events ≡ 1)
    × (total triggers_of three_participants crossing_events ≡ 2)
    × (total withdraws_of three_participants crossing_events ≡ 1)
unfolding event_step make_access transition pipewire_native_rs.Session.Activation.deactivate
crossing_claims = (refl, refl, refl)

-- Another dependency reports between the read and the compare-and-swap.
abbrev reported : Activation → Activation
reported a = record a { pending = pos 1 }

decrement_loop-Linearized_example :
    Linearized waiting_node (reported ∷ []) (decrement_loop (pos 2) waiting_node (reported ∷ []))
decrement_loop-Linearized_example =
    decrement_loop-Linearized (pos 2) waiting_node (reported ∷ []) refl

decrements-countdown_example :
    decrements waiting_node (7 ∷ 8 ∷ [])
    ≡ (record waiting_node { pending = pos 0; status = 1; signal_time = 8 }, countdown 1)
decrements-countdown_example = decrements-countdown 1 waiting_node (7 ∷ []) 8 refl refl refl

-- Every file has two pages and a seal against shrinking.
abbrev sealed_files : Kernel
sealed_files = record {
  fstat = λ fd. ok (record { size = pos 8192; device = 1; inode = fd });
  get_seals = λ fd. pos 2;
  page_size = pos 4096;
  mmap = λ fd len offset writable. ok 65536;
}

abbrev mapped_tail : MappedRegion
mapped_tail = record {
  mapping_ptr = 65536;
  mapping_len = 104;
  ptr = 65540;
  len = 100;
  seal_status = available 2;
}

map-IsMapped_example :
    IsMapped sealed_files 9 4100 100 true mapped_tail
    × (mapped_tail.seal_status ≡ seal_status sealed_files 9)
    × ((require_sealed ≡ allow) ⊎ IsSealed sealed_files 9)
unfolding map_shared_with_policy seal_status prevents_shrink
map-IsMapped_example = map-IsMapped sealed_files 9 4100 100 true require_sealed mapped_tail refl

abbrev shared_entry : MemoryEntry
shared_entry = record {
  key = record { id = 3; generation = 1 };
  backing = record { device = 1; inode = 9 };
  kind = memfd;
  flags = 0;
  file_len = 8192;
  fd = 9;
}

map_entry-interval_example :
    let m : MemoryMapping = record { mapped = mapped_tail; entry = shared_entry; offset = 4100 } in
    (shared_entry ≡ shared_entry)
    × (interval m ≡ record { backing = shared_entry.backing; start = 4100; end = 4100 + 100 })
    × (0 < 100)
    × (100 ≤ isize_max)
    × (4100 + 100 ≤ 8192)
    × IsMapped sealed_files 9 4100 100 true mapped_tail
unfolding map_entry map_shared_with_policy seal_status prevents_shrink
    pipewire_native_rs.Session.Memory.region_valid
map_entry-interval_example =
    map_entry-interval sealed_files shared_entry require_sealed 4100 100 true
      {m = record { mapped = mapped_tail; entry = shared_entry; offset = 4100 }} refl

abbrev low_interval : MemoryInterval
low_interval = record { backing = record { device = 1; inode = 9 }; start = 0; end = 4096 }

abbrev high_interval : MemoryInterval
high_interval = record { backing = record { device = 1; inode = 9 }; start = 4095; end = 5000 }

overlaps_iff_example : (overlaps low_interval high_interval ≡ true) ↔ (
    (low_interval.backing ≡ high_interval.backing)
    × ((x : ℕ) × Covers low_interval x × Covers high_interval x))
overlaps_iff_example = overlaps_iff low_interval high_interval (omega arith) (omega arith)

-- Identifier 3 is live.
abbrev one_entry : MemoryPool
one_entry = record {
  next_generation = 2;
  live = (3, shared_entry) ∷ [];
  shrink_policy = require_sealed;
  is_disconnected = false;
}

abbrev no_entry : MemoryPool
no_entry = record one_entry { live = [] }

one_entry-IsPool : IsPool one_entry
one_entry-IsPool = ground arith

add_lem_example :
    let (p', r) = add sealed_files one_entry 4 2 0 10 in
    IsPool p'
    × (((r ≡ ok (record { id = 4; generation = 2 }))
          × (p'.next_generation ≡ 3)
          × (resolve one_entry 4 ≡ err (unknown_memory 4))
          × ((other : ℕ)
              → resolve p' other ≡ (
                  if 4 == other
                  then ok (record { id = 4; generation = 2 })
                  else resolve one_entry other)))
        ⊎ ((p' ≡ one_entry) × ((e : MemoryError) × (r ≡ err e))))
add_lem_example = add_lem sealed_files one_entry 4 2 0 10 one_entry-IsPool

remove_lem_example :
    let (p', r) = remove one_entry 3 in
    IsPool p'
    × (r ≡ resolve one_entry 3)
    × (p'.next_generation ≡ 2)
    × ((other : ℕ)
        → false ≡ false
        → resolve p' other
          ≡ (if 3 == other then err (unknown_memory 3) else resolve one_entry other))
remove_lem_example = remove_lem one_entry 3 one_entry-IsPool

abbrev later_ops : List Retired.Op
later_ops = adds 3 2 0 12 ∷ removes 3 ∷ adds 3 2 0 13 ∷ clears ∷ []

run-IsPool_example : IsPool (run sealed_files one_entry later_ops)
run-IsPool_example = run-IsPool sealed_files one_entry later_ops one_entry-IsPool

removed_forever_example :
    let later = run sealed_files no_entry later_ops in
    ((offset len : ℕ) (writable : Bool) (m : MemoryMapping)
      → map_region sealed_files later shared_entry.key offset len writable ≢ ok m)
    × ((l : MemoryLease) → lease later shared_entry.key ≢ ok l)
    × ((other : ℕ) → resolve later other ≢ ok shared_entry.key)
unfolding remove find erase
removed_forever_example =
    removed_forever sealed_files one_entry 3 {p' = no_entry} {key = shared_entry.key} later_ops
      one_entry-IsPool refl

abbrev written_chunk : ChunkState
written_chunk = record { offset = 20; size = 4; stride = pos 4; flags = 0 }

abbrev media_base : ℕ
media_base = 4096

-- A plane of 16 bytes; the view writes from byte 4 on.
abbrev small_buffer : OutputBuffer
small_buffer = record { chunk = written_chunk; media = 4104; max_size = 16; data_offset = 4 }

from_raw_parts-IsBuffer_example :
    IsBuffer small_buffer
    × (small_buffer.chunk ≡ written_chunk)
    × (small_buffer.max_size ≡ 16)
    × (small_buffer.media ≡ media_base + 8)
    × (small_buffer.media + small_buffer.max_size ≤ media_base + 24)
    × (media_base ≢ 0)
unfolding from_raw_parts checked_record
from_raw_parts-IsBuffer_example =
    from_raw_parts-IsBuffer 2048 16 written_chunk media_base 24 8 16 {b = small_buffer} refl

small_buffer-IsBuffer : IsBuffer small_buffer
small_buffer-IsBuffer = ground arith

abbrev asked_publisher : OutputBufferPublisher
asked_publisher = record {
  io = record { status = need_data; buffer_id = 0 };
  buffers = small_buffer ∷ [];
  frame_stride = 4;
  selected = none;
}

abbrev three_frames : CommittedOutput
three_frames = record { buffer_id = 0; bytes_used = 12; stride = 4; flags = 0 }

abbrev fill : OutputCycle → CallbackOutcome
fill c = commits three_frames

process_lem_example :
    let run_of = process asked_publisher fill in
    ((need_data ≢ need_data) × (run_of ≡ (asked_publisher, ok (none, pos 0))))
    ⊎ ((need_data ≡ need_data)
        × (get_elem? asked_publisher.buffers 0 ≡ none)
        × (run_of ≡ (asked_publisher, err (cycle (invalid_buffer_id 0 1)))))
    ⊎ ((need_data ≡ need_data)
        × ((b : OutputBuffer) × (get_elem? asked_publisher.buffers 0 ≡ some b)
            × Ends asked_publisher b (fill (cycle_of asked_publisher b)) run_of))
process_lem_example = process_lem asked_publisher fill refl (omega arith)

process-commit_example :
    (process asked_publisher fill ≡ (
      completed asked_publisher small_buffer three_frames,
      ok (some (published_as three_frames), have_data),
    ))
    × (12 ≡ 3 * 4)
    × IsBuffer (publish small_buffer 12 4 0).0
    × ((publish small_buffer 12 4 0).0.chunk.size ≡ 12)
unfolding commit commit_bytes capacity
process-commit_example =
    process-commit asked_publisher fill small_buffer 3 {c = three_frames} (omega arith) refl refl
      small_buffer-IsBuffer (omega arith) (omega arith) refl refl
