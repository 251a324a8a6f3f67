-- ===== src/Controller/Failures.antt =====
-- rust/src/controller.rs: the fixed projections of a backend's error to the controller's failure,
-- one for an action that sent nothing and one for an action of unknown outcome.
use jbl_aura_play_together.Backend.{PairBackendError}
use jbl_aura_play_together.Controller.Types.{ControllerFailure}

unfoldable pub controller_failure_from_backend : PairBackendError → ControllerFailure
controller_failure_from_backend PairBackendError.aura_adapter_unavailable =
    ControllerFailure.aura_adapter_unavailable
controller_failure_from_backend PairBackendError.aura_discovery_unavailable =
    ControllerFailure.aura_discovery_unavailable
controller_failure_from_backend PairBackendError.aura_verified_advertisement_not_found =
    ControllerFailure.aura_verified_advertisement_not_found
controller_failure_from_backend PairBackendError.aura_device_connection_failed =
    ControllerFailure.aura_device_connection_failed
controller_failure_from_backend PairBackendError.aura_wake_profile_connect_failed =
    ControllerFailure.aura_wake_profile_connect_failed
controller_failure_from_backend PairBackendError.aura_wake_fddf_timed_out =
    ControllerFailure.aura_wake_fddf_timed_out
controller_failure_from_backend PairBackendError.aura_wake_fddf_invalid =
    ControllerFailure.aura_wake_fddf_invalid
controller_failure_from_backend PairBackendError.aura_wake_fddf_unavailable =
    ControllerFailure.aura_wake_fddf_unavailable
controller_failure_from_backend PairBackendError.aura_wake_profile_release_failed =
    ControllerFailure.aura_wake_profile_release_failed
controller_failure_from_backend PairBackendError.aura_gatt_profile_invalid =
    ControllerFailure.aura_gatt_profile_invalid
controller_failure_from_backend PairBackendError.aura_notification_setup_failed =
    ControllerFailure.aura_notification_setup_failed
controller_failure_from_backend PairBackendError.aura_write_unknown =
    ControllerFailure.backend_rejected_before_send
controller_failure_from_backend PairBackendError.aura_acknowledgement_timed_out =
    ControllerFailure.backend_rejected_before_send
controller_failure_from_backend PairBackendError.aura_acknowledgement_channel_closed =
    ControllerFailure.backend_rejected_before_send
controller_failure_from_backend PairBackendError.aura_unexpected_acknowledgement =
    ControllerFailure.backend_rejected_before_send
controller_failure_from_backend PairBackendError.jbl_enter_outcome_unknown =
    ControllerFailure.backend_rejected_before_send
controller_failure_from_backend PairBackendError.jbl_exit_outcome_unknown =
    ControllerFailure.backend_rejected_before_send
controller_failure_from_backend PairBackendError.jbl_broadcast_result_timed_out =
    ControllerFailure.backend_rejected_before_send
controller_failure_from_backend PairBackendError.jbl_broadcast_result_unavailable =
    ControllerFailure.backend_rejected_before_send
controller_failure_from_backend PairBackendError.jbl_broadcast_result_rejected =
    ControllerFailure.backend_rejected_before_send
controller_failure_from_backend PairBackendError.aura_start_outcome_unknown =
    ControllerFailure.backend_rejected_before_send
controller_failure_from_backend PairBackendError.unavailable =
    ControllerFailure.backend_rejected_before_send
controller_failure_from_backend PairBackendError.backend_reported_failure =
    ControllerFailure.backend_rejected_before_send
controller_failure_from_backend PairBackendError.recovery_unsupported =
    ControllerFailure.backend_rejected_before_send
controller_failure_from_backend PairBackendError.backend_changed_during_transaction =
    ControllerFailure.backend_rejected_before_send

unfoldable pub controller_failure_from_unknown_backend : PairBackendError → ControllerFailure
controller_failure_from_unknown_backend PairBackendError.aura_write_unknown =
    ControllerFailure.aura_write_unknown
controller_failure_from_unknown_backend PairBackendError.aura_acknowledgement_timed_out =
    ControllerFailure.aura_ack_timeout
controller_failure_from_unknown_backend PairBackendError.aura_acknowledgement_channel_closed =
    ControllerFailure.aura_ack_channel_closed
controller_failure_from_unknown_backend PairBackendError.aura_unexpected_acknowledgement =
    ControllerFailure.aura_unexpected_ack
controller_failure_from_unknown_backend PairBackendError.jbl_enter_outcome_unknown =
    ControllerFailure.jbl_enter_outcome_unknown
controller_failure_from_unknown_backend PairBackendError.jbl_exit_outcome_unknown =
    ControllerFailure.jbl_exit_outcome_unknown
controller_failure_from_unknown_backend PairBackendError.jbl_broadcast_result_timed_out =
    ControllerFailure.jbl_broadcast_result_timed_out
controller_failure_from_unknown_backend PairBackendError.jbl_broadcast_result_unavailable =
    ControllerFailure.jbl_broadcast_result_unavailable
controller_failure_from_unknown_backend PairBackendError.jbl_broadcast_result_rejected =
    ControllerFailure.jbl_broadcast_result_rejected
controller_failure_from_unknown_backend PairBackendError.aura_start_outcome_unknown =
    ControllerFailure.aura_start_outcome_unknown
controller_failure_from_unknown_backend PairBackendError.unavailable =
    ControllerFailure.backend_outcome_unknown
controller_failure_from_unknown_backend PairBackendError.aura_adapter_unavailable =
    ControllerFailure.backend_outcome_unknown
controller_failure_from_unknown_backend PairBackendError.aura_discovery_unavailable =
    ControllerFailure.backend_outcome_unknown
controller_failure_from_unknown_backend PairBackendError.aura_verified_advertisement_not_found =
    ControllerFailure.backend_outcome_unknown
controller_failure_from_unknown_backend PairBackendError.aura_device_connection_failed =
    ControllerFailure.backend_outcome_unknown
controller_failure_from_unknown_backend PairBackendError.aura_wake_profile_connect_failed =
    ControllerFailure.backend_outcome_unknown
controller_failure_from_unknown_backend PairBackendError.aura_wake_fddf_timed_out =
    ControllerFailure.backend_outcome_unknown
controller_failure_from_unknown_backend PairBackendError.aura_wake_fddf_invalid =
    ControllerFailure.backend_outcome_unknown
controller_failure_from_unknown_backend PairBackendError.aura_wake_fddf_unavailable =
    ControllerFailure.backend_outcome_unknown
controller_failure_from_unknown_backend PairBackendError.aura_wake_profile_release_failed =
    ControllerFailure.backend_outcome_unknown
controller_failure_from_unknown_backend PairBackendError.aura_gatt_profile_invalid =
    ControllerFailure.backend_outcome_unknown
controller_failure_from_unknown_backend PairBackendError.aura_notification_setup_failed =
    ControllerFailure.backend_outcome_unknown
controller_failure_from_unknown_backend PairBackendError.backend_reported_failure =
    ControllerFailure.backend_outcome_unknown
controller_failure_from_unknown_backend PairBackendError.recovery_unsupported =
    ControllerFailure.backend_outcome_unknown
controller_failure_from_unknown_backend PairBackendError.backend_changed_during_transaction =
    ControllerFailure.backend_outcome_unknown
