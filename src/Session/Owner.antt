-- ===== src/Session/Owner.antt =====
-- node/src/session/owner.rs and the descriptors of node/src/session/config.rs: the owner of one
-- node's session, its commands and its state. A map is the list of its values, those of peers in the
-- order of their nodes. A descriptor's file descriptors are their numbers.
pub mod Bind
pub mod NodeMap
pub mod Effect
pub mod Install
pub mod Apply
pub mod Wake
pub mod Invariant
pub mod Reachable
pub mod Settled
mod Examples
use pipewire_native_rs.Prelude.{ℕ, List, Option, none, some, [], ◌∷◌, Bool, true, false, ◌&&◌, ◌==◌}
use pipewire_native_rs.Session.Memory.{
  MemoryKey, MemoryInterval, MemoryError, MemoryLease, RegionRef,
}
use pipewire_native_rs.Session.Port.{PortError}
use pipewire_native_rs.Session.Activation.{Activation}
use pipewire_native_rs.Session.Transport.{SessionError}
use pipewire_native_rs.Session.Peer.{PeerActivation, PeerError}

pub data NodeCommandState : Type 0 where
  pause start suspend : NodeCommandState

pub data SessionState : Type 0 where
  configuring ready running cycle_claimed stopped failed disconnected : SessionState

-- The errors of the owner; those of `SessionError` that concern activations and panics are its
-- own constructors.
pub data OwnerError : Type 0 where
  memory : MemoryError → OwnerError
  port : PortError → OwnerError
  peer : PeerError → OwnerError
  signal : ℕ → OwnerError
  callback session_generation metadata_layout chunk_layout too_many_peers : OwnerError
  transport_not_ready empty_buffer_set io_size chunk_outside zero_capacity : OwnerError
  overlapping_regions overlapping_generations during_callback start_status : OwnerError
  ended unwrapped_none : OwnerError

abbrev pub Error : Type 0
Error = SessionError OwnerError

-- `SampleFormat` has one value, S16LE.
pub record NegotiatedAudioFormat : Type 0 where
  pub rate : ℕ
  pub channels : List ℕ
  pub bytes_per_sample : ℕ
  pub frame_stride : ℕ

pub record TransportDescriptor : Type 0 where
  pub trigger_fd : ℕ
  pub completion_fd : ℕ
  pub activation : RegionRef

pub record PeerActivationDescriptor : Type 0 where
  pub node : ℕ
  pub signal_fd : ℕ
  pub activation : RegionRef

pub record PortIoDescriptor : Type 0 where
  pub port : ℕ
  pub region : RegionRef

pub record MetaDescriptor : Type 0 where
  pub type_id : ℕ
  pub size : ℕ

pub record BufferDescriptor : Type 0 where
  pub metadata : RegionRef
  pub metas : List MetaDescriptor
  pub media_memory : ℕ
  pub map_offset : ℕ
  pub max_size : ℕ

pub record BufferSetDescriptor : Type 0 where
  pub port : ℕ
  pub buffers : List BufferDescriptor

-- The derived equalities.
abbrev same_list {ℓ} : {A : Type ℓ} → (A → A → Bool) → List A → List A → Bool
same_list same [] [] = true
same_list same [] (y ∷ ys) = false
same_list same (x ∷ xs) [] = false
same_list same (x ∷ xs) (y ∷ ys) = same x y && same_list same xs ys

unfoldable pub same_format : NegotiatedAudioFormat → NegotiatedAudioFormat → Bool
same_format a b =
    a.rate == b.rate
    && (same_list (λ x y. x == y) a.channels b.channels
        && (a.bytes_per_sample == b.bytes_per_sample && a.frame_stride == b.frame_stride))

abbrev same_region : RegionRef → RegionRef → Bool
same_region a b = a.memory == b.memory && (a.offset == b.offset && a.len == b.len)

abbrev same_meta : MetaDescriptor → MetaDescriptor → Bool
same_meta a b = a.type_id == b.type_id && a.size == b.size

abbrev same_buffer : BufferDescriptor → BufferDescriptor → Bool
same_buffer a b =
    same_region a.metadata b.metadata
    && (same_list same_meta a.metas b.metas
        && (a.media_memory == b.media_memory
            && (a.map_offset == b.map_offset && a.max_size == b.max_size)))

unfoldable pub same_buffer_set : BufferSetDescriptor → BufferSetDescriptor → Bool
same_buffer_set a b = a.port == b.port && same_list same_buffer a.buffers b.buffers

pub data SessionCommand : Type 0 where
  replace_transport : TransportDescriptor → SessionCommand
  set_format : NegotiatedAudioFormat → SessionCommand
  clear_format : SessionCommand
  use_buffers : BufferSetDescriptor → SessionCommand
  clear_buffers : SessionCommand
  set_port_io : PortIoDescriptor → SessionCommand
  clear_port_io : SessionCommand
  set_peer_activation : PeerActivationDescriptor → SessionCommand
  remove_peer_activation : ℕ → SessionCommand
  memory_available : MemoryLease → SessionCommand
  remove_memory_key : MemoryKey → SessionCommand
  memory_disconnected : SessionCommand
  set_active : Bool → SessionCommand
  set_node_command : NodeCommandState → SessionCommand
  disconnect_session : SessionCommand

pub data ApplyOutcome : Type 0 where
  applied pending_memory already_disconnected : ApplyOutcome

pub data WakeOutcome : Type 0 where
  no_wake : WakeOutcome
  stale : ℕ → ℕ → WakeOutcome
  not_running : ℕ → WakeOutcome
  wake_not_claimed : ℕ → ℕ → WakeOutcome
  wake_processed : ℕ → ℕ → Bool → WakeOutcome

-- Its activation's mapping is at address `base` with `len` bytes; `record_now` is what the shared
-- record holds.
pub record TransportGeneration : Type 0 where
  pub id : ℕ
  pub trigger : ℕ
  pub completion : ℕ
  pub activation_key : MemoryKey
  pub base : ℕ
  pub len : ℕ
  pub interval : MemoryInterval
  pub record_now : Activation

pub record BoundBuffer : Type 0 where
  pub metadata_key : MemoryKey
  pub metadata : MemoryInterval
  pub chunk_offset : ℕ
  pub media_key : MemoryKey
  pub media : MemoryInterval

pub record OutputGeneration : Type 0 where
  pub id : ℕ
  pub format : NegotiatedAudioFormat
  pub io_key : MemoryKey
  pub io : MemoryInterval
  pub buffers : List BoundBuffer

pub record ClientNodeSession : Type 0 where
  pub available_memory : List MemoryLease
  pub next_generation : ℕ
  pub transport : Option TransportGeneration
  pub pending_transport : Option TransportDescriptor
  pub format : Option NegotiatedAudioFormat
  pub buffer_descriptor : Option BufferSetDescriptor
  pub io_descriptor : Option PortIoDescriptor
  pub output : Option OutputGeneration
  pub peers : List PeerActivation
  pub pending_peers : List PeerActivationDescriptor
  pub active_requested : Bool
  pub command : NodeCommandState
  pub state : SessionState

-- `ClientNodeSession::new`
abbrev pub new_session : ClientNodeSession
new_session = record {
  available_memory = [];
  next_generation = 1;
  transport = none;
  pending_transport = none;
  format = none;
  buffer_descriptor = none;
  io_descriptor = none;
  output = none;
  peers = [];
  pending_peers = [];
  active_requested = false;
  command = pause;
  state = configuring;
}
