-- ===== src/Session/Owner/Bind.antt =====
-- The binding of generations: `OrderedMemory` of node/src/session/owner.rs, and `bind` of
-- node/src/session/transport.rs, peer.rs and output.rs.
pub mod Apart
use pipewire_native_rs.Prelude.{
  ℕ, ◌+◌, ◌-◌, ◌%◌, List, [], ◌∷◌, ◌++◌, Option, none, some, is_empty, Bool, true, false, not, ◌||◌,
  Result, ok, err, ◌>>=◌, ◌>>◌, reject, ok_or, map_err, ltb, ◌==◌, if◌then◌else◌,
}
use pipewire_native_rs.Prelude.Words.{checked_add}
use pipewire_native_rs.Session.Shm.{Kernel}
use pipewire_native_rs.Session.Memory.{
  MemoryKey, MemoryInterval, MemoryError, MemoryLease, MemoryMapping, unknown_memory,
  stale_generation, same_key, map_lease, interval, overlaps,
}
use pipewire_native_rs.Session.Port as Port
use pipewire_native_rs.Session.Port.{ChunkState, buffers, check_io}
use pipewire_native_rs.Session.Activation.{Activation, from_raw_parts, initialize_client_v1}
use pipewire_native_rs.Session.Transport.{activation, failure}
use pipewire_native_rs.Session.Peer.{PeerActivation}
use pipewire_native_rs.Session.Owner.{
  Error, memory, port, signal, metadata_layout, chunk_layout, empty_buffer_set, io_size,
  chunk_outside, zero_capacity, overlapping_regions, TransportDescriptor, PeerActivationDescriptor,
  PortIoDescriptor, MetaDescriptor, BufferDescriptor, BufferSetDescriptor, NegotiatedAudioFormat,
  TransportGeneration, BoundBuffer, OutputGeneration,
}

-- What a session meets: the kernel, what a new mapping's activation record and a buffer's chunk
-- hold, and whether a descriptor is an eventfd, as `EventFd::from_owned_fd` finds.
pub record World : Type 0 where
  pub kernel : Kernel
  pub record_at : MemoryMapping → Activation
  pub chunk_at : MemoryMapping → ℕ → ChunkState
  pub eventfd : ℕ → Result ℕ (Unit {0})

-- The map of available memory, by the leases' identifiers.
unfoldable pub find_lease : ℕ → List MemoryLease → Option MemoryLease
find_lease id [] = none
find_lease id (l ∷ leases) = if l.entry.key.id == id then some l else find_lease id leases

unfoldable pub remove_lease : ℕ → List MemoryLease → List MemoryLease
remove_lease id [] = []
remove_lease id (l ∷ leases) =
    let rest = remove_lease id leases in if l.entry.key.id == id then rest else l ∷ rest

-- `OrderedMemory::resolve` and `OrderedMemory::map`
unfoldable pub resolve_lease : List MemoryLease → ℕ → Result MemoryError MemoryKey
resolve_lease leases id = do l ← ok_or (find_lease id leases) (unknown_memory id); ok l.entry.key

unfoldable pub map_key :
    World → List MemoryLease → MemoryKey → ℕ → ℕ → Result MemoryError MemoryMapping
map_key w leases key offset len = do
  l ← ok_or (find_lease key.id leases) (stale_generation key none)
  reject (not (same_key l.entry.key key)) (stale_generation key (some l.entry.key))
  map_lease w.kernel l offset len true

-- `unresolved`; `resolve_lease` has no other error.
unfoldable pub unresolved : Result MemoryError MemoryKey → Result Error Bool
unresolved (ok key) = ok false
unresolved (err (unknown_memory id)) = ok true
unresolved (err e) = err (failure (memory e))

-- `TransportGeneration::bind`
unfoldable pub bind_transport_generation :
    World → ℕ → TransportDescriptor → List MemoryLease → Result Error TransportGeneration
bind_transport_generation w id d leases = do
  let region = d.activation
  key ← map_err (λ e. failure (memory e)) (resolve_lease leases region.memory)
  mapping ← map_err (λ e. failure (memory e)) (map_key w leases key region.offset region.len)
  let base = mapping.mapped.ptr
  let len = mapping.mapped.len
  map_err activation (from_raw_parts base len (w.record_at mapping))
  map_err (λ e. failure (signal e)) (w.eventfd d.trigger_fd)
  map_err (λ e. failure (signal e)) (w.eventfd d.completion_fd)
  ok (record {
    id = id;
    trigger = d.trigger_fd;
    completion = d.completion_fd;
    activation_key = key;
    base = base;
    len = len;
    interval = interval mapping;
    record_now = initialize_client_v1 (w.record_at mapping);
  })

-- `PeerActivation::bind`; what others do to the record is nothing until a wake.
unfoldable pub bind_peer_activation :
    World → ℕ → PeerActivationDescriptor → List MemoryLease → Result Error PeerActivation
bind_peer_activation w generation d leases = do
  let region = d.activation
  key ← map_err (λ e. failure (memory e)) (resolve_lease leases region.memory)
  mapping ← map_err (λ e. failure (memory e)) (map_key w leases key region.offset region.len)
  let base = mapping.mapped.ptr
  let len = mapping.mapped.len
  map_err activation (from_raw_parts base len (w.record_at mapping))
  map_err (λ e. failure (signal e)) (w.eventfd d.signal_fd)
  ok (record {
    node = d.node;
    generation = generation;
    key = key;
    interval = interval mapping;
    base = base;
    len = len;
    activation = w.record_at mapping;
    others = [];
    between = λ a. a;
    signal = ok tt;
  })

-- The fold over a buffer's metadata: where its chunk stands. `end & !7` is `end - end % 8`.
unfoldable pub chunk_offset_from : ℕ → List MetaDescriptor → Result Error ℕ
chunk_offset_from offset [] = ok offset
chunk_offset_from offset (meta ∷ metas) = do
  end ← ok_or (checked_add offset meta.size) (failure metadata_layout)
  rounded ← ok_or (checked_add end 7) (failure metadata_layout)
  chunk_offset_from (rounded - rounded % 8) metas

-- The loops of `reject_overlaps` and of `ensure_disjoint`.
unfoldable pub meets_any : MemoryInterval → List MemoryInterval → Bool
meets_any left [] = false
meets_any left (right ∷ rest) = overlaps left right || meets_any left rest

unfoldable pub overlap_within : List MemoryInterval → Bool
overlap_within [] = false
overlap_within (left ∷ rest) = meets_any left rest || overlap_within rest

-- One turn of the loop of `OutputGeneration::bind`.
unfoldable pub bind_buffer :
    World
    → List MemoryLease
    → List MemoryInterval
    → BufferDescriptor
    → Result Error (BoundBuffer × List MemoryInterval)
bind_buffer w leases intervals d = do
  chunk_offset ← chunk_offset_from 0 d.metas
  chunk_end ← ok_or (checked_add chunk_offset 16) (failure chunk_layout)
  reject (ltb d.metadata.len chunk_end) (failure chunk_outside)
  reject (d.max_size == 0) (failure zero_capacity)
  metadata_key ← map_err (λ e. failure (memory e)) (resolve_lease leases d.metadata.memory)
  media_key ← map_err (λ e. failure (memory e)) (resolve_lease leases d.media_memory)
  metadata ←
      map_err (λ e. failure (memory e))
        (map_key w leases metadata_key d.metadata.offset d.metadata.len)
  media ← map_err (λ e. failure (memory e)) (map_key w leases media_key d.map_offset d.max_size)
  let all = intervals ++ (interval metadata ∷ (interval media ∷ []))
  reject (overlap_within all) (failure overlapping_regions)
  _ ←
      map_err (λ e. failure (port e))
        (Port.from_raw_parts (metadata.mapped.ptr + chunk_offset) 16
          (w.chunk_at metadata chunk_offset) media.mapped.ptr media.mapped.len 0 d.max_size)
  ok (
    record {
      metadata_key = metadata_key;
      metadata = interval metadata;
      chunk_offset = chunk_offset;
      media_key = media_key;
      media = interval media;
    },
    all,
  )

unfoldable pub bind_buffers :
    World
    → List MemoryLease
    → List MemoryInterval
    → List BufferDescriptor
    → Result Error (List BoundBuffer × List MemoryInterval)
bind_buffers w leases intervals [] = ok ([], intervals)
bind_buffers w leases intervals (d ∷ ds) = do
  (buffer, all) ← bind_buffer w leases intervals d
  (rest, final) ← bind_buffers w leases all ds
  ok (buffer ∷ rest, final)

-- `OutputGeneration::bind`
unfoldable pub bind_output_generation :
    World
    → ℕ
    → NegotiatedAudioFormat
    → BufferSetDescriptor
    → PortIoDescriptor
    → List MemoryLease
    → Result Error OutputGeneration
bind_output_generation w id format set d leases = do
  reject (is_empty set.buffers) (failure empty_buffer_set)
  io_key ← map_err (λ e. failure (memory e)) (resolve_lease leases d.region.memory)
  io ← map_err (λ e. failure (memory e)) (map_key w leases io_key d.region.offset d.region.len)
  map_err (λ e. failure (port e)) (check_io buffers io.mapped.ptr io.mapped.len)
  reject (not (d.region.len == 8)) (failure io_size)
  (bound, _) ← bind_buffers w leases (interval io ∷ []) set.buffers
  ok (record { id = id; format = format; io_key = io_key; io = interval io; buffers = bound })

-- `OutputGeneration::intervals` and `depends_on`
unfoldable pub buffer_intervals : List BoundBuffer → List MemoryInterval
buffer_intervals [] = []
buffer_intervals (b ∷ bs) = b.metadata ∷ (b.media ∷ buffer_intervals bs)

abbrev pub output_intervals : OutputGeneration → List MemoryInterval
output_intervals o = o.io ∷ buffer_intervals o.buffers

unfoldable pub buffers_depend_on : MemoryKey → List BoundBuffer → Bool
buffers_depend_on key [] = false
buffers_depend_on key (b ∷ bs) =
    (same_key b.metadata_key key || same_key b.media_key key) || buffers_depend_on key bs

unfoldable pub depends_on : OutputGeneration → MemoryKey → Bool
depends_on o key = same_key o.io_key key || buffers_depend_on key o.buffers
