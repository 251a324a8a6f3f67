-- ===== src/Native/Actions.antt =====
-- rust/src/backend_native.rs, the lifecycle methods of `NativePairCore`. Each segment of a method
-- behind a call that can end it is a function of its own, in the order of the source from the last
-- to the first.
use jbl_aura_play_together.Base.{
  ℕ, Bool, true, false, ◌||◌, ltb, none, some, [], ok, err, if◌then◌else◌,
}
use jbl_aura_play_together.Error.{is_control_command_rejected}
use jbl_aura_play_together.Model.{DeviceIdentity}
use jbl_aura_play_together.Backend.{
  PairBackend, native_pair, PairLifecycle, PairActionResult, accepted, outcome_unknown,
  PairBackendError, lifecycle_eq,
}
use jbl_aura_play_together.Native.Types.{
  BroadcastAction, BroadcastResultEvidence, PlayTogetherWriteResult, AuraActionResult,
  JblRoleControl, AuraRoleControl, BroadcastResultObserver, map_aura_action_unknown,
  map_broadcast_result_failure,
}
use jbl_aura_play_together.Native.{
  NativePairCore, join_delay_slept, accepted_as, accepted_with_broadcast_evidence, degraded,
  latch_unknown, noted, shut_aura, start_aura, stop_aura, settled_in, acquire_fresh_aura_bearer,
  teardown_transport, health, enter_jbl, exit_jbl, arm_observer, execute_observer, cancel_observer,
}

abbrev pub is_accepted : PairActionResult → Bool
is_accepted (accepted r) = true
is_accepted _ = false

module _ {J A O : Type 0} where
  unfoldable pub new : J → A → O → DeviceIdentity → DeviceIdentity → ℕ → NativePairCore J A O
  new jbl aura observer jbl_identity aura_identity join_delay = record {
    jbl = jbl;
    aura = aura;
    broadcast_observer = observer;
    jbl_identity = jbl_identity;
    aura_identity = aura_identity;
    join_delay = join_delay;
    lifecycle = PairLifecycle.offline;
    unresolved = none;
    trace = [];
  }

  abbrev pub slept : NativePairCore J A O → NativePairCore J A O
  slept c = if ltb 0 c.join_delay then noted join_delay_slept c else c

module _ {J A O : Type 0} (jbl_ops : JblRoleControl J) (aura_ops : AuraRoleControl A)
    (observer_ops : BroadcastResultObserver O) where
  abbrev Action : Type 0
  Action = NativePairCore J A O → PairActionResult × NativePairCore J A O

  -- `start`: the join delay, then the Aura takes the receiving role.
  unfoldable pub start_join :
      BroadcastResultEvidence → NativePairCore J A O → PairActionResult × NativePairCore J A O
  start_join evidence c =
      let (answer, c1) = start_aura aura_ops (slept c) in
      elim answer [
        | AuraActionResult.accepted ↦ (
          accepted_with_broadcast_evidence PairLifecycle.linked evidence,
          record c1 { lifecycle = PairLifecycle.linked },
        )
        | AuraActionResult.rejected_before_send f ↦
            latch_unknown PairBackendError.aura_start_outcome_unknown (some PairLifecycle.linking)
              c1
        | AuraActionResult.outcome_unknown f ↦
            latch_unknown (map_aura_action_unknown f) (some PairLifecycle.linking) c1
      ]

  -- `start`: the broadcaster is started.
  unfoldable pub start_broadcast : NativePairCore J A O → PairActionResult × NativePairCore J A O
  start_broadcast c =
      let (answer, c1) = execute_observer observer_ops BroadcastAction.start c in
      elim answer [
        | ok evidence ↦ start_join evidence c1
        | err f ↦ latch_unknown (map_broadcast_result_failure f) (some PairLifecycle.linking) c1
      ]

  -- `start`: the JBL enters the mode. Only an explicit rejection by the device counts as sent.
  unfoldable pub start_enter : NativePairCore J A O → PairActionResult × NativePairCore J A O
  start_enter c =
      let (answer, c1) = enter_jbl jbl_ops c in
      elim answer [
        | PlayTogetherWriteResult.accepted ↦ start_broadcast c1
        | PlayTogetherWriteResult.outcome_unknown e ↦
            latch_unknown PairBackendError.jbl_enter_outcome_unknown (some PairLifecycle.linking)
              (cancel_observer observer_ops c1)
        | PlayTogetherWriteResult.rejected e ↦
            if is_control_command_rejected e
            then latch_unknown PairBackendError.jbl_enter_outcome_unknown
                (some PairLifecycle.linking) (cancel_observer observer_ops c1)
            else degraded PairBackendError.backend_reported_failure
                (cancel_observer observer_ops c1)
      ]

  -- `start`: the observer is armed before any role write.
  unfoldable pub start_arm : NativePairCore J A O → PairActionResult × NativePairCore J A O
  start_arm c =
      let (armed, c1) =
        arm_observer observer_ops BroadcastAction.start
          (record c { lifecycle = PairLifecycle.linking }) in
      elim armed [ ok _ ↦ start_enter c1 | err f ↦ degraded (map_broadcast_result_failure f) c1 ]

  -- `start` behind the latch and the idempotence test.
  unfoldable pub start_fresh : NativePairCore J A O → PairActionResult × NativePairCore J A O
  start_fresh c =
      let (acquired, c1) = acquire_fresh_aura_bearer aura_ops c in
      elim acquired [ ok _ ↦ start_arm c1 | err e ↦ degraded e c1 ]

  unfoldable pub start : NativePairCore J A O → PairActionResult × NativePairCore J A O
  start c = elim c.unresolved [
    | some f ↦ (outcome_unknown f, c)
    | none ↦
        let (already, c1) = settled_in aura_ops PairLifecycle.linked c in
        if already then (accepted_as PairLifecycle.linked true, c1) else start_fresh c1
  ]

  -- `stop`: the JBL leaves the mode.
  unfoldable pub stop_exit :
      BroadcastResultEvidence → NativePairCore J A O → PairActionResult × NativePairCore J A O
  stop_exit evidence c =
      let (answer, c1) = exit_jbl jbl_ops c in
      let unknown =
        latch_unknown PairBackendError.jbl_exit_outcome_unknown (some PairLifecycle.unlinking) c1 in
      elim answer [
        | PlayTogetherWriteResult.accepted ↦ (
          accepted_with_broadcast_evidence PairLifecycle.ready evidence,
          record c1 { lifecycle = PairLifecycle.ready },
        )
        | PlayTogetherWriteResult.rejected e ↦ unknown
        | PlayTogetherWriteResult.outcome_unknown e ↦ unknown
      ]

  -- `stop`: the broadcaster is stopped.
  unfoldable pub stop_broadcast : NativePairCore J A O → PairActionResult × NativePairCore J A O
  stop_broadcast c =
      let (answer, c1) = execute_observer observer_ops BroadcastAction.stop c in
      elim answer [
        | ok evidence ↦ stop_exit evidence c1
        | err f ↦ latch_unknown (map_broadcast_result_failure f) (some PairLifecycle.unlinking) c1
      ]

  -- `stop`: the receiver first.
  unfoldable pub stop_receiver : NativePairCore J A O → PairActionResult × NativePairCore J A O
  stop_receiver c =
      let (answer, c1) = stop_aura aura_ops c in
      elim answer [
        | AuraActionResult.accepted ↦ stop_broadcast c1
        | AuraActionResult.rejected_before_send f ↦
            degraded PairBackendError.backend_reported_failure (cancel_observer observer_ops c1)
        | AuraActionResult.outcome_unknown f ↦
            latch_unknown (map_aura_action_unknown f) (some PairLifecycle.unlinking)
              (cancel_observer observer_ops c1)
      ]

  unfoldable pub stop_arm : NativePairCore J A O → PairActionResult × NativePairCore J A O
  stop_arm c =
      let (armed, c1) =
        arm_observer observer_ops BroadcastAction.stop
          (record c { lifecycle = PairLifecycle.unlinking }) in
      elim armed [ ok _ ↦ stop_receiver c1 | err f ↦ degraded (map_broadcast_result_failure f) c1 ]

  unfoldable pub stop_fresh : NativePairCore J A O → PairActionResult × NativePairCore J A O
  stop_fresh c =
      let (acquired, c1) = acquire_fresh_aura_bearer aura_ops c in
      elim acquired [ ok _ ↦ stop_arm c1 | err e ↦ degraded e c1 ]

  unfoldable pub stop : NativePairCore J A O → PairActionResult × NativePairCore J A O
  stop c = elim c.unresolved [
    | some f ↦ (outcome_unknown f, c)
    | none ↦
        let (already, c1) = settled_in aura_ops PairLifecycle.ready c in
        if already then (accepted_as PairLifecycle.ready true, c1) else stop_fresh c1
  ]

  -- `shutdown` behind the stop.
  unfoldable pub shutdown_release : NativePairCore J A O → PairActionResult × NativePairCore J A O
  shutdown_release c =
      let (shut, c1) = shut_aura aura_ops (record c { lifecycle = PairLifecycle.shutting_down }) in
      elim shut [
        | err e ↦ latch_unknown PairBackendError.unavailable (some PairLifecycle.shutting_down) c1
        | ok _ ↦ (
          accepted_as PairLifecycle.shutting_down false,
          record c1 { lifecycle = PairLifecycle.offline },
        )
      ]

  unfoldable pub shutdown : NativePairCore J A O → PairActionResult × NativePairCore J A O
  shutdown c = elim c.unresolved [
    | some f ↦ (outcome_unknown f, c)
    | none ↦
        let (stopped, c1) = stop c in
        if lifecycle_eq c.lifecycle PairLifecycle.ready
          || lifecycle_eq c.lifecycle PairLifecycle.offline
        then shutdown_release c
        else if is_accepted stopped
        then shutdown_release c1
        else (stopped, c1)
  ]

  unfoldable pub recover_stop : NativePairCore J A O → PairActionResult × NativePairCore J A O
  recover_stop c =
      let (shut, c1) = shut_aura aura_ops (record c { lifecycle = PairLifecycle.recovering }) in
      elim shut [
        | err e ↦ latch_unknown PairBackendError.unavailable (some PairLifecycle.recovering) c1
        | ok _ ↦ stop (record c1 { unresolved = none; lifecycle = PairLifecycle.degraded })
      ]

  -- `impl PairBackend for NativePairBackend`.
  unfoldable pub native_backend : PairBackend (NativePairCore J A O)
  native_backend = record {
    kind = λ c. native_pair;
    health = λ c. let (h, c1) = health aura_ops c in (ok h, c1);
    start = start;
    stop = stop;
    shutdown = shutdown;
    recover_stop = recover_stop;
    teardown_transport = teardown_transport aura_ops;
  }
