-- ===== src/Tests/NativeTests.antt =====
-- Tests of rust/src/backend_native.rs.
use jbl_aura_play_together.Base.{inl, ◌≡◌, refl, some, false}
use jbl_aura_play_together.Backend.{
  PairLifecycle, PairActionReceipt, PairActionFailure, PairBackendError, PairBackendEvidence,
  PairActionResult, outcome_unknown, native_pair,
}
use jbl_aura_play_together.Controller.Types.{ControllerAction}
use jbl_aura_play_together.Controller.Quiet.{KeepsContract, method}
use jbl_aura_play_together.Native.{
  settled_in, shut_aura, connect_aura, start_aura, stop_aura, acquire_fresh_aura_bearer, enter_jbl,
  exit_jbl, arm_observer, execute_observer, latch_unknown,
}
use jbl_aura_play_together.Native.Types.{map_aura_action_unknown}
use jbl_aura_play_together.Native.Actions.{
  start, start_fresh, start_arm, start_enter, start_broadcast, start_join, stop, stop_fresh,
  stop_arm, stop_receiver, stop_broadcast, stop_exit, native_backend,
}
use jbl_aura_play_together.Native.WriteSafety.{writes, native-KeepsContract}
use jbl_aura_play_together.Native.Order.{start_order, AcceptedOver, started, stopped}
use jbl_aura_play_together.Native.Order.Stop.{stop_order}
use jbl_aura_play_together.Native.Latch.{IsOver, IsResting}
use jbl_aura_play_together.Native.Latch.Actions.{method-IsOver, uncertain_then_silent}
use jbl_aura_play_together.Tests.Fixtures.{
  Core, jbl, aura, silent_aura, refusing_aura, observer, core,
}

-- What a start and a stop pass through.
run_start : Core → PairActionResult
unfolding start start_fresh start_arm start_enter start_broadcast start_join settled_in shut_aura
    connect_aura start_aura acquire_fresh_aura_bearer enter_jbl arm_observer execute_observer
    latch_unknown map_aura_action_unknown
run_start c = (start jbl aura observer c).0

run_stop : Core → PairActionResult
unfolding stop stop_fresh stop_arm stop_receiver stop_broadcast stop_exit settled_in shut_aura
    connect_aura stop_aura acquire_fresh_aura_bearer exit_jbl arm_observer execute_observer
    latch_unknown
run_stop c = (stop jbl aura observer c).0

abbrev business : PairLifecycle → PairActionReceipt
business l = record {
  backend = native_pair;
  lifecycle = l;
  evidence = PairBackendEvidence.broadcast_business_notification;
  idempotent = false;
}

abbrev ack_timeout : PairActionFailure
ack_timeout = record {
  backend = native_pair;
  reason = PairBackendError.aura_acknowledgement_timed_out;
  observed_lifecycle = some PairLifecycle.linking;
}

core-IsResting : IsResting core
unfolding core
core-IsResting = record { resting = refl; uncertain = inl refl }

start_order_example :
    AcceptedOver PairLifecycle.linked
      (started core.join_delay core.trace)
      (business PairLifecycle.linked)
      core
      (start jbl aura observer core).1
start_order_example =
    start_order jbl aura observer core (business PairLifecycle.linked)
      (unfold run_start core in refl)

stop_order_example :
    AcceptedOver PairLifecycle.ready
      (stopped core.trace)
      (business PairLifecycle.ready)
      core
      (stop jbl aura observer core).1
stop_order_example =
    stop_order jbl aura observer core (business PairLifecycle.ready) (unfold run_stop core in refl)

native-KeepsContract_example :
    KeepsContract (native_backend jbl refusing_aura observer) (λ c. writes c.trace)
native-KeepsContract_example = native-KeepsContract jbl refusing_aura observer

method-IsOver_example :
    IsOver (method (native_backend jbl silent_aura observer) ControllerAction.shutdown core)
method-IsOver_example =
    method-IsOver jbl silent_aura observer ControllerAction.shutdown core core-IsResting

uncertain_then_silent_example :
    method
      (native_backend jbl silent_aura observer)
      ControllerAction.stop
      (method (native_backend jbl silent_aura observer) ControllerAction.start core).1
    ≡ (
      outcome_unknown ack_timeout,
      (method (native_backend jbl silent_aura observer) ControllerAction.start core).1,
    )
uncertain_then_silent_example =
    uncertain_then_silent jbl silent_aura observer ControllerAction.start ControllerAction.stop core
      ack_timeout core-IsResting (unfold run_start core native_backend in refl) (λ e. cc)
