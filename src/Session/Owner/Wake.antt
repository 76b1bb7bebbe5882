-- ===== src/Session/Owner/Wake.antt =====
-- `on_wake_with_finish` of node/src/session/owner.rs. What the callback, the clock and the eventfd do is
-- a parameter, and so is what the other participants do to the shared records meanwhile.
use pipewire_native_rs.Prelude.{
  ℕ, ◌-◌, List, map, Option, none, some, Bool, not, ◌==◌, Result, ok, err, if◌then◌else◌,
}
use pipewire_native_rs.Session.Activation.{Activation}
use pipewire_native_rs.Session.Cycle.{PublishedOutput}
use pipewire_native_rs.Session.Transport.{
  Processed, ClaimCompletion, not_claimed, finished, failure, claim_and_finish,
}
use pipewire_native_rs.Session.Peer.{PeerActivation, PeerError, trigger_all}
use pipewire_native_rs.Session.Owner.{
  Error, OwnerError, peer, signal, transport_not_ready, unwrapped_none, SessionState, running,
  cycle_claimed, TransportGeneration, OutputGeneration, WakeOutcome, no_wake, stale, not_running,
  wake_not_claimed, wake_processed,
}
use pipewire_native_rs.Session.Owner.Effect.{Step, is_some, fail}

-- What a read of the trigger eventfd answers.
pub data Drained : Type 0 where
  would_block : Drained
  drained : ℕ → Drained
  broken : ℕ → Drained

-- What a wake meets: the read, what others do to the transport's record while the callback runs, the
-- clock at its end, `OutputGeneration::process`, and what others have made of the peers' records,
-- and do to them next.
pub record Surroundings : Type 0 where
  pub drain : Drained
  pub during : Activation → Activation
  pub finish_time : Option ℕ
  pub process : OutputGeneration → Processed (Option PublishedOutput) OwnerError
  pub others : PeerActivation → List (Activation → Activation)
  pub between : PeerActivation → Activation → Activation
  pub signal : PeerActivation → Result ℕ (Unit {0})
  pub now : PeerActivation → Activation

unfoldable pub meet : Surroundings → PeerActivation → PeerActivation
meet x p = record p {
  activation = x.now p;
  others = x.others p;
  between = x.between p;
  signal = x.signal p;
}

-- After a cycle that has finished with a result: the peers are triggered.
abbrev pub triggered_peers : Result PeerError (Unit {0}) → ℕ → Bool → Step WakeOutcome
triggered_peers (ok _) counter produced s =
    (record s { state = running }, ok (wake_processed counter (counter - 1) produced))
triggered_peers (err e) counter produced s = (fail s, err (failure (peer e)))

unfoldable pub after_publish : Surroundings → ℕ → Bool → ℕ → Step WakeOutcome
after_publish x counter produced finish_ns s =
    let (peers, r) = trigger_all (map (meet x) s.peers) finish_ns in
    triggered_peers r counter produced (record s { peers = peers })

-- The claim of a cycle and what comes of it. An aborted publication, after a finish clock that
-- panics, touches the output's shared records only.
unfoldable pub finish_cycle :
    Surroundings
    → ℕ
    → Result Error (ClaimCompletion (Option PublishedOutput) OwnerError)
    → Step WakeOutcome
finish_cycle x counter (err e) s = (fail s, err e)
finish_cycle x counter (ok not_claimed) s =
    (record s { state = running }, ok (wake_not_claimed counter (counter - 1)))
finish_cycle x counter (ok (finished (ok published) finish_ns)) s =
    after_publish x counter (is_some published) finish_ns s
finish_cycle x counter (ok (finished (err e) finish_ns)) s = (fail s, err e)

unfoldable pub run_cycle :
    Surroundings → ℕ → ℕ → TransportGeneration → Option OutputGeneration → Step WakeOutcome
run_cycle x counter awake_ns t none s = (s, err (failure unwrapped_none))
run_cycle x counter awake_ns t (some o) s =
    let (a, completion) =
      claim_and_finish t.base t.len t.record_now awake_ns x.during x.finish_time (x.process o) in
    finish_cycle x counter completion (record s { transport = some (record t { record_now = a }) })

-- A wake whose counter has been read.
abbrev pub on_drained_in :
    SessionState → Surroundings → ℕ → ℕ → TransportGeneration → Step WakeOutcome
on_drained_in running x counter awake_ns t s =
    run_cycle x counter awake_ns t s.output (record s { state = cycle_claimed })
on_drained_in _ x counter awake_ns t s = (s, ok (not_running counter))

abbrev pub on_drain : Drained → Surroundings → ℕ → TransportGeneration → Step WakeOutcome
on_drain would_block x awake_ns t s = (s, ok no_wake)
on_drain (broken e) x awake_ns t s = (s, err (failure (signal e)))
on_drain (drained counter) x awake_ns t s = on_drained_in s.state x counter awake_ns t s

abbrev pub on_wake_of : Option TransportGeneration → Surroundings → ℕ → ℕ → Step WakeOutcome
on_wake_of none x generation awake_ns s = (s, err (failure transport_not_ready))
on_wake_of (some t) x generation awake_ns s =
    if not (generation == t.id)
    then (s, ok (stale t.id generation))
    else on_drain x.drain x awake_ns t s

unfoldable pub on_wake_with_finish : Surroundings → ℕ → ℕ → Step WakeOutcome
on_wake_with_finish x generation awake_ns s = on_wake_of s.transport x generation awake_ns s
