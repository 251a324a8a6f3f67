-- ===== src/Tests/CoordinatorTests.antt =====
-- Tests of the coordinator of rust/src/backend_native.rs.
use jbl_aura_play_together.Base.{◌≡◌, refl, Bool, true, false, [], ◌∷◌, Result, ok, err, is_ok}
use jbl_aura_play_together.Native.Types.{BroadcastAction, BroadcastResultEvidence, GenaFailure}
use jbl_aura_play_together.Native.Coordinator.{
  BroadcastMutationTransport, BroadcastBusinessObserver, ConfirmedBroadcastCoordinator, gena,
  mutation_executed, business_observed, business_cancelled, mutation_cancelled, cancel_all, arm,
  observe, execute, production_execute,
}
use jbl_aura_play_together.Native.Coordinator.Evidence.{
  executions, IsReleased, ArmedOrReleased, coordinator-IsReleased, execute_confirmed,
}
use jbl_aura_play_together.Tests.Fixtures.{jbl_identity}

abbrev transport : BroadcastMutationTransport (Unit {0})
transport = record {
  arm_mutation = λ i m. (ok tt, m);
  execute_mutation = λ c m. (ok tt, m);
  cancel_mutation = λ m. m;
}

-- The observer hears the event, but where it is told so its cleanup fails.
abbrev listener : BroadcastBusinessObserver Bool
listener = record {
  arm_business_observer = λ b. (ok tt, b);
  observe_business_result = λ a b. (ok tt, b);
  cancel_business_observer = λ b. (
    elim b as (λ _. Result (Unit {0}) GenaFailure) [
      | true ↦ ok tt
      | false ↦ err GenaFailure.cleanup_failed
    ],
    b,
  );
}

abbrev quiet : ConfirmedBroadcastCoordinator Bool (Unit {0})
quiet = record { business = true; mutation = tt; trace = [] }

confirmed :
    (execute listener transport BroadcastAction.start jbl_identity quiet).0
    ≡ ok BroadcastResultEvidence.confirmed_notification
unfolding execute observe cancel_all
confirmed = refl

unclean :
    is_ok
      (execute listener transport BroadcastAction.start jbl_identity
        (record quiet { business = false })).0
    ≡ false
unfolding execute observe cancel_all
unclean = refl

coordinator-IsReleased_example :
    (let x = arm listener transport BroadcastAction.stop jbl_identity quiet in
      ArmedOrReleased listener transport quiet x × (executions x.1.trace ≡ 0))
    × (let d = (execute listener transport BroadcastAction.stop jbl_identity quiet).1 in
        IsReleased listener transport d × (executions d.trace ≡ 1))
coordinator-IsReleased_example =
    coordinator-IsReleased listener transport BroadcastAction.stop jbl_identity quiet

execute_confirmed_example :
    (BroadcastResultEvidence.confirmed_notification
      ≡ BroadcastResultEvidence.confirmed_notification)
    × ((execute listener transport BroadcastAction.start jbl_identity quiet).1.trace
        ≡ business_cancelled true
          ∷ mutation_cancelled
          ∷ business_observed true
          ∷ mutation_executed true
          ∷ [])
execute_confirmed_example =
    execute_confirmed listener transport BroadcastAction.start jbl_identity quiet
      BroadcastResultEvidence.confirmed_notification confirmed

confirmed_production :
    (production_execute listener transport BroadcastAction.start jbl_identity (gena quiet)).0
    ≡ ok BroadcastResultEvidence.confirmed_notification
unfolding production_execute
confirmed_production = confirmed
