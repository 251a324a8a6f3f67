-- ===== src/Native.antt =====
-- rust/src/backend_native.rs, `NativePairCore`: the whole-pair transaction over a JBL role control,
-- an Aura role control and a broadcast observer. `trace` records the calls made on them, newest
-- first, with their answers; it is the model's own and no code reads it. The sleep of the join
-- delay is such a call.
pub mod Types
pub mod Actions
pub mod WriteSafety
pub mod Order
pub mod Latch
pub mod Coordinator
use jbl_aura_play_together.Base.{
  ℕ, Bool, true, false, not, ◌&&◌, ◌||◌, ltb, Option, none, some, List, [], ◌∷◌, Result, ok, err,
  is_ok, if◌then◌else◌,
}
use jbl_aura_play_together.Error.{JblError, is_control_command_rejected}
use jbl_aura_play_together.Model.{DeviceIdentity}
use jbl_aura_play_together.Backend.{
  PairBackend, PairBackendKind, native_pair, PairHealth, PairLifecycle, PairActionReceipt,
  PairActionFailure, PairActionResult, accepted, rejected_before_send, outcome_unknown,
  PairBackendEvidence, PairBackendError, AuraControlTransport, AuraAcquisitionRoute, lifecycle_eq,
  is_ready_or_linked, new_with_route,
}
use Types.{
  BroadcastAction, BroadcastResultEvidence, BroadcastResultFailure, PlayTogetherWriteResult,
  AuraHealth, AuraBearerTransport, AuraFailureReason, AuraActionResult, is_aura_ready,
  is_aura_offline, JblRoleControl, AuraRoleControl, BroadcastResultObserver,
  map_aura_transport_error, map_aura_action_unknown, map_broadcast_result_failure,
}

pub data Call : Type 0 where
  aura_shutdown : Bool → Call
  aura_connect : Bool → Call
  aura_start aura_stop : AuraActionResult → Call
  observer_arm : BroadcastAction → Bool → Call
  observer_execute : BroadcastAction → Bool → Call
  observer_cancel : Call
  jbl_enter jbl_exit : PlayTogetherWriteResult → Call
  join_delay_slept : Call

pub record NativePairCore (J A O : Type 0) : Type 0 where
  pub jbl : J
  pub aura : A
  pub broadcast_observer : O
  pub jbl_identity : DeviceIdentity
  pub aura_identity : DeviceIdentity
  pub join_delay : ℕ
  pub lifecycle : PairLifecycle
  pub unresolved : Option PairActionFailure
  pub trace : List Call

abbrev pub accepted_as : PairLifecycle → Bool → PairActionResult
accepted_as lifecycle idempotent = accepted (record {
  backend = native_pair;
  lifecycle = lifecycle;
  evidence =
      if idempotent
      then PairBackendEvidence.local_session_state
      else PairBackendEvidence.lifecycle_acknowledgement;
  idempotent = idempotent;
})

abbrev pub evidence_of : BroadcastResultEvidence → PairBackendEvidence
evidence_of BroadcastResultEvidence.ack_only = PairBackendEvidence.broadcast_acknowledgement_only
evidence_of BroadcastResultEvidence.confirmed_notification =
    PairBackendEvidence.broadcast_business_notification

abbrev pub accepted_with_broadcast_evidence :
    PairLifecycle → BroadcastResultEvidence → PairActionResult
accepted_with_broadcast_evidence lifecycle evidence = accepted (record {
  backend = native_pair;
  lifecycle = lifecycle;
  evidence = evidence_of evidence;
  idempotent = false;
})

abbrev pub failure_of : PairBackendError → Option PairLifecycle → PairActionFailure
failure_of reason observed = record {
  backend = native_pair;
  reason = reason;
  observed_lifecycle = observed;
}

abbrev pub control_transport : Option AuraBearerTransport → AuraControlTransport
control_transport (some AuraBearerTransport.le) = AuraControlTransport.le
control_transport (some AuraBearerTransport.br_edr) = AuraControlTransport.br_edr
control_transport none = AuraControlTransport.unresolved

module _ {J A O : Type 0} where
  abbrev pub rejected :
      PairBackendError
      → Option PairLifecycle
      → NativePairCore J A O
      → PairActionResult × NativePairCore J A O
  rejected reason observed c = (rejected_before_send (failure_of reason observed), c)

  -- `self.lifecycle = Degraded; return self.rejected(…, Some(Degraded))`.
  abbrev pub degraded :
      PairBackendError → NativePairCore J A O → PairActionResult × NativePairCore J A O
  degraded reason c =
      rejected reason (some PairLifecycle.degraded)
        (record c { lifecycle = PairLifecycle.degraded })

  unfoldable pub latch_unknown :
      PairBackendError
      → Option PairLifecycle
      → NativePairCore J A O
      → PairActionResult × NativePairCore J A O
  latch_unknown reason observed c = (
    outcome_unknown (failure_of reason observed),
    record c { unresolved = some (failure_of reason observed); lifecycle = PairLifecycle.degraded },
  )

  abbrev pub noted : Call → NativePairCore J A O → NativePairCore J A O
  noted call c = record c { trace = call ∷ c.trace }

  module _ (aura_ops : AuraRoleControl A) where
    unfoldable pub shut_aura :
        NativePairCore J A O → Result (Unit {0}) AuraFailureReason × NativePairCore J A O
    shut_aura c =
        let (r, a) = aura_ops.shutdown c.aura in
        (r, noted (aura_shutdown (is_ok r)) (record c { aura = a }))

    unfoldable pub connect_aura :
        NativePairCore J A O → Result (Unit {0}) AuraFailureReason × NativePairCore J A O
    connect_aura c =
        let (r, a) = aura_ops.connect_verified c.aura_identity c.aura in
        (r, noted (aura_connect (is_ok r)) (record c { aura = a }))

    unfoldable pub start_aura : NativePairCore J A O → AuraActionResult × NativePairCore J A O
    start_aura c =
        let (r, a) = aura_ops.start c.aura in (r, noted (aura_start r) (record c { aura = a }))

    unfoldable pub stop_aura : NativePairCore J A O → AuraActionResult × NativePairCore J A O
    stop_aura c =
        let (r, a) = aura_ops.stop c.aura in (r, noted (aura_stop r) (record c { aura = a }))

    -- `self.lifecycle == expected && self.aura.health() == Ready`; the second test is made only if
    -- the first holds.
    unfoldable pub settled_in : PairLifecycle → NativePairCore J A O → Bool × NativePairCore J A O
    settled_in expected c =
        let (h, a) = aura_ops.health c.aura in
        if lifecycle_eq c.lifecycle expected
        then (is_aura_ready h, record c { aura = a })
        else (false, c)

    unfoldable pub acquire_fresh_aura_bearer :
        NativePairCore J A O → Result (Unit {0}) PairBackendError × NativePairCore J A O
    acquire_fresh_aura_bearer c =
        let (shut, c1) = shut_aura c in
        let (connected, c2) = connect_aura c1 in
        elim shut [
          | err e ↦ (err PairBackendError.unavailable, c1)
          | ok _ ↦ elim connected [
            | err e ↦ (err (map_aura_transport_error e), c2)
            | ok _ ↦ (ok tt, c2)
          ]
        ]

    unfoldable pub teardown_transport :
        NativePairCore J A O → Result (Unit {0}) PairBackendError × NativePairCore J A O
    teardown_transport c =
        let (shut, c1) = shut_aura c in
        (elim shut [ ok _ ↦ ok tt | err e ↦ err PairBackendError.unavailable ], c1)

    unfoldable pub health : NativePairCore J A O → PairHealth × NativePairCore J A O
    health c =
        let (h, a) = aura_ops.health c.aura in
        let clear = elim c.unresolved as (λ _. Bool) [ none ↦ true | some f ↦ false ] in
        let healthy =
          clear && is_ready_or_linked c.lifecycle && (is_aura_ready h || is_aura_offline h) in
        let offline =
          clear && is_aura_offline h && lifecycle_eq c.lifecycle PairLifecycle.offline in
        (
          new_with_route native_pair
              (if healthy || offline then c.lifecycle else PairLifecycle.degraded)
              (not healthy && not offline) (control_transport (aura_ops.transport a))
              (aura_ops.acquisition_route a),
          record c { aura = a },
        )

  module _ (jbl_ops : JblRoleControl J) where
    unfoldable pub enter_jbl : NativePairCore J A O → PlayTogetherWriteResult × NativePairCore J A O
    enter_jbl c =
        let (r, j) = jbl_ops.enter c.jbl in (r, noted (jbl_enter r) (record c { jbl = j }))

    unfoldable pub exit_jbl : NativePairCore J A O → PlayTogetherWriteResult × NativePairCore J A O
    exit_jbl c = let (r, j) = jbl_ops.exit c.jbl in (r, noted (jbl_exit r) (record c { jbl = j }))

  module _ (observer_ops : BroadcastResultObserver O) where
    unfoldable pub arm_observer :
        BroadcastAction
        → NativePairCore J A O
        → Result (Unit {0}) BroadcastResultFailure × NativePairCore J A O
    arm_observer action c =
        let (r, o) = observer_ops.arm action c.jbl_identity c.broadcast_observer in
        (r, noted (observer_arm action (is_ok r)) (record c { broadcast_observer = o }))

    unfoldable pub execute_observer :
        BroadcastAction
        → NativePairCore J A O
        → Result BroadcastResultEvidence BroadcastResultFailure × NativePairCore J A O
    execute_observer action c =
        let (r, o) = observer_ops.execute action c.jbl_identity c.broadcast_observer in
        (r, noted (observer_execute action (is_ok r)) (record c { broadcast_observer = o }))

    unfoldable pub cancel_observer : NativePairCore J A O → NativePairCore J A O
    cancel_observer c =
        noted observer_cancel
          (record c { broadcast_observer = observer_ops.cancel c.broadcast_observer })
