-- ===== src/Session/Owner/Examples.antt =====
-- Sessions that are configured, run, woken and ended.
use pipewire_native_rs.Prelude.{
  ◌≡◌, ◌≢◌, refl, true, false, ◌&&◌, Option, none, some, List, [], ◌∷◌, ok, err,
}
use pipewire_native_rs.Prelude.Int.{pos}
use pipewire_native_rs.Session.Shm.{require_sealed}
use pipewire_native_rs.Session.Memory.{MemoryLease, memfd, overlaps}
use pipewire_native_rs.Session.Activation as Activation
use pipewire_native_rs.Session.Activation.{
  Activation, activation_status, read_status, transition, mark_ready,
}
use pipewire_native_rs.Session.Cycle.{PublishedOutput}
use pipewire_native_rs.Session.Transport.{Processed, processed, failure}
use pipewire_native_rs.Session.Owner.{
  OwnerError, unwrapped_none, NegotiatedAudioFormat, BufferSetDescriptor, PortIoDescriptor,
  TransportDescriptor, TransportGeneration, OutputGeneration, ClientNodeSession, new_session, start,
  stopped, running, replace_transport, set_format, memory_available, set_active, disconnect_session,
}
use pipewire_native_rs.Session.Owner.Bind.{World, buffer_intervals}
use pipewire_native_rs.Session.Owner.Bind.Apart.{AreApart}
use pipewire_native_rs.Session.Owner.NodeMap.Sorted.{Pairwise}
use pipewire_native_rs.Session.Owner.Effect.{
  is_some, is_ready, refresh_state, transport_status, mark_transport_ready, schedule, schedule_own,
  ensure_running,
}
use pipewire_native_rs.Session.Owner.Apply.{apply, perform, dispatch, settle}
use pipewire_native_rs.Session.Owner.Wake.{Surroundings, drained, on_wake_with_finish}
use pipewire_native_rs.Session.Owner.Invariant.{IsOwner}
use pipewire_native_rs.Session.Owner.Invariant.Wakes.{on_wake_with_finish-IsOwner}
use pipewire_native_rs.Session.Owner.Reachable.{created, commanded, woken, held, Reachable-sound}
use pipewire_native_rs.Session.Owner.Settled.{
  IsEnded, Event, command_event, wake_event, after_events, apply-runs, disconnect-final,
}

abbrev idle_record : Activation
idle_record = record {
  status = 4;
  state0_status = pos 0;
  required = pos 1;
  pending = pos 1;
  signal_time = 0;
  awake_time = 0;
  finish_time = 0;
  client_version = 1;
  server_version = 1;
}

abbrev calm_world : World
calm_world = record {
  kernel = record {
    fstat = λ fd. ok (record { size = pos 8192; device = 1; inode = fd });
    get_seals = λ fd. pos 2;
    page_size = pos 4096;
    mmap = λ fd len offset writable. ok 65536;
  };
  record_at = λ m. idle_record;
  chunk_at = λ m at. record { offset = 0; size = 0; stride = pos 0; flags = 0 };
  eventfd = λ fd. ok tt;
}

abbrev first_lease : MemoryLease
first_lease = record {
  entry = record {
    key = record { id = 3; generation = 1 };
    backing = record { device = 1; inode = 9 };
    kind = memfd;
    flags = 0;
    file_len = 8192;
    fd = 9;
  };
  shrink_policy = require_sealed;
}

abbrev own_transport : TransportDescriptor
own_transport = record {
  trigger_fd = 5;
  completion_fd = 6;
  activation = record { memory = 3; offset = 0; len = 2312 };
}

abbrev stereo : NegotiatedAudioFormat
stereo = record { rate = 48000; channels = 0 ∷ (0 ∷ []); bytes_per_sample = 2; frame_stride = 4 }

abbrev bound_transport : TransportGeneration
bound_transport = record {
  id = 1;
  trigger = 5;
  completion = 6;
  activation_key = first_lease.entry.key;
  base = 65536;
  len = 2312;
  interval = record { backing = first_lease.entry.backing; start = 0; end = 2312 };
  record_now = idle_record;
}

abbrev bound_output : OutputGeneration
bound_output = record {
  id = 2;
  format = stereo;
  io_key = first_lease.entry.key;
  io = record { backing = first_lease.entry.backing; start = 4096; end = 4104 };
  buffers =
      record {
        metadata_key = first_lease.entry.key;
        metadata = record { backing = first_lease.entry.backing; start = 4104; end = 4120 };
        chunk_offset = 0;
        media_key = first_lease.entry.key;
        media = record { backing = first_lease.entry.backing; start = 4120; end = 8192 };
      }
      ∷ [];
}

abbrev io_region : PortIoDescriptor
io_region = record { port = 0; region = record { memory = 3; offset = 4096; len = 8 } }

abbrev one_buffer : BufferSetDescriptor
one_buffer = record {
  port = 0;
  buffers =
      record {
        metadata = record { memory = 3; offset = 4104; len = 16 };
        metas = [];
        media_memory = 3;
        map_offset = 4120;
        max_size = 4072;
      }
      ∷ [];
}

-- Complete, started, but not active yet.
abbrev complete_session : ClientNodeSession
complete_session = record {
  available_memory = first_lease ∷ [];
  next_generation = 3;
  transport = some bound_transport;
  pending_transport = none;
  format = some stereo;
  buffer_descriptor = some one_buffer;
  io_descriptor = some io_region;
  output = some bound_output;
  peers = [];
  pending_peers = [];
  active_requested = false;
  command = start;
  state = stopped;
}

abbrev live_session : ClientNodeSession
live_session = record complete_session {
  transport = some (record bound_transport { record_now = record idle_record { status = 1 } });
  active_requested = true;
  state = running;
}

live_session-IsOwner : IsOwner live_session
unfolding overlaps buffer_intervals
live_session-IsOwner = record {
  scheduled = λ e. (refl, refl, refl);
  unclaimed = λ e. absurd (cc);
  described = λ e. (refl, refl, refl);
  sorted = tt;
  transport_output = ((refl, (refl, (refl, tt))), tt);
  transport_peers = (tt, tt);
  output_peers = (tt, (tt, (tt, tt)));
  within_output = ((refl, (refl, tt)), ((refl, tt), (tt, tt)));
  within_peers = tt;
}

-- The callback finds nothing to do.
abbrev silent : OutputGeneration → Processed (Option PublishedOutput) OwnerError
silent o = processed none (pos 0)

abbrev calm : Surroundings
calm = record {
  drain = drained 2;
  during = λ a. a;
  finish_time = some 9;
  process = silent;
  others = λ p. [];
  between = λ p a. a;
  signal = λ p. ok tt;
  now = λ p. p.activation;
}

on_wake_with_finish-IsOwner_example :
    IsOwner (on_wake_with_finish calm 1 5 live_session).0
    × ((on_wake_with_finish calm 1 5 live_session).1 ≢ err (failure unwrapped_none))
on_wake_with_finish-IsOwner_example =
    on_wake_with_finish-IsOwner calm 1 5 live_session (λ o e. absurd (cc)) live_session-IsOwner

-- The session that memory, a transport, a format and two wakes have led to.
abbrev led_session : ClientNodeSession
led_session =
    (on_wake_with_finish calm 1 5
      (apply calm_world (set_format stereo)
        (apply calm_world (replace_transport own_transport)
          (apply calm_world (memory_available first_lease) new_session).0).0).0).0

Reachable-sound_example :
    Pairwise AreApart (held led_session)
    × (led_session.state ≡ running → is_ready led_session ≡ true)
    × (is_some led_session.output ≡ true
        → (is_some led_session.format
            && (is_some led_session.buffer_descriptor && is_some led_session.io_descriptor))
          ≡ true)
Reachable-sound_example = Reachable-sound (
    woken calm 1 5 (
      commanded calm_world (set_format stereo) (
        commanded calm_world (replace_transport own_transport)
          (commanded calm_world (memory_available first_lease) created))))

apply-runs_example : (apply calm_world (set_active true) complete_session).0.state ≡ running
unfolding apply perform dispatch ensure_running is_ready schedule_own schedule transport_status
    mark_transport_ready refresh_state settle Activation.from_raw_parts read_status
    activation_status transition mark_ready
apply-runs_example =
    apply-runs calm_world (set_active true) complete_session
      {s' = (apply calm_world (set_active true) complete_session).0} (λ e. absurd (cc)) refl refl

abbrev late_events : List Event
late_events =
    command_event calm_world (set_format stereo)
    ∷ wake_event calm 1 5
    ∷ command_event calm_world disconnect_session
    ∷ []

disconnect-final_example :
    let ended = (apply calm_world disconnect_session live_session).0 in
    IsEnded ended × (after_events late_events ended ≡ ended)
disconnect-final_example =
    disconnect-final calm_world live_session late_events (λ e. absurd (cc)) (λ e. absurd (cc))
