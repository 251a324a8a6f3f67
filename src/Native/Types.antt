-- ===== src/Native/Types.antt =====
-- The vocabulary of rust/src/backend_native.rs and of the three collaborators that it drives, from
-- rust/src/aura_bluez.rs, control.rs, jbl_gatt.rs and broadcast_gena.rs, with the traits
-- `JblRoleControl`, `AuraRoleControl` and `BroadcastResultObserver` as records of operations.
use jbl_aura_play_together.Base.{Bool, true, false, Option, Result}
use jbl_aura_play_together.Error.{JblError}
use jbl_aura_play_together.Model.{DeviceIdentity}
use jbl_aura_play_together.Backend.{PairBackendError, AuraAcquisitionRoute}

pub data BroadcastAction : Type 0 where
  start stop : BroadcastAction

pub data BroadcastResultEvidence : Type 0 where
  ack_only confirmed_notification : BroadcastResultEvidence

pub data BroadcastResultFailure : Type 0 where
  timed_out unavailable rejected : BroadcastResultFailure

-- `BasicResponse`, the marker of an accepted answer, has one value.
pub data PlayTogetherWriteResult : Type 0 where
  accepted : PlayTogetherWriteResult
  rejected : JblError → PlayTogetherWriteResult
  outcome_unknown : JblError → PlayTogetherWriteResult

pub data AuraHealth : Type 0 where
  offline ready unavailable outcome_unknown : AuraHealth

pub data AuraBearerTransport : Type 0 where
  le br_edr : AuraBearerTransport

pub data AuraFailureReason : Type 0 where
  invalid_configuration runtime_unavailable adapter_unavailable : AuraFailureReason
  adapter_powered_off discovery_unavailable verified_advertisement_not_found : AuraFailureReason
  device_connection_failed wake_profile_connect_failed wake_fddf_timed_out : AuraFailureReason
  wake_fddf_invalid wake_fddf_unavailable wake_profile_release_failed : AuraFailureReason
  gatt_profile_invalid notification_setup_failed transport_not_ready : AuraFailureReason
  notification_queue_invalid write_failed acknowledgement_timed_out : AuraFailureReason
  acknowledgement_channel_closed unexpected_acknowledgement : AuraFailureReason
  disconnect_failed : AuraFailureReason

pub data AuraActionResult : Type 0 where
  accepted : AuraActionResult
  rejected_before_send : AuraFailureReason → AuraActionResult
  outcome_unknown : AuraFailureReason → AuraActionResult

pub data JblGattFailure : Type 0 where
  runtime_unavailable adapter_unavailable adapter_powered_off : JblGattFailure
  device_connection_failed mtu_exchange_failed transport_not_ready : JblGattFailure
  frame_too_large write_failed write_response_timed_out channel_closed : JblGattFailure
  unexpected_response : JblGattFailure

pub data GenaFailure : Type 0 where
  invalid_configuration route_unavailable listener_unavailable : GenaFailure
  subscription_unavailable invalid_subscription callback_timed_out : GenaFailure
  invalid_callback business_rejected cleanup_failed : GenaFailure

abbrev pub is_aura_ready : AuraHealth → Bool
is_aura_ready ready = true
is_aura_ready _ = false

abbrev pub is_aura_offline : AuraHealth → Bool
is_aura_offline offline = true
is_aura_offline _ = false

pub record JblRoleControl (J : Type 0) : Type 0 where
  pub enter : J → PlayTogetherWriteResult × J
  pub exit : J → PlayTogetherWriteResult × J

pub record AuraRoleControl (A : Type 0) : Type 0 where
  pub connect_verified : DeviceIdentity → A → Result (Unit {0}) AuraFailureReason × A
  pub health : A → AuraHealth × A
  pub transport : A → Option AuraBearerTransport
  pub acquisition_route : A → AuraAcquisitionRoute
  pub start : A → AuraActionResult × A
  pub stop : A → AuraActionResult × A
  pub shutdown : A → Result (Unit {0}) AuraFailureReason × A

pub record BroadcastResultObserver (O : Type 0) : Type 0 where
  pub arm : BroadcastAction → DeviceIdentity → O → Result (Unit {0}) BroadcastResultFailure × O
  pub execute :
      BroadcastAction
      → DeviceIdentity
      → O
      → Result BroadcastResultEvidence BroadcastResultFailure × O
  pub cancel : O → O

unfoldable pub map_aura_transport_error : AuraFailureReason → PairBackendError
map_aura_transport_error AuraFailureReason.adapter_unavailable =
    PairBackendError.aura_adapter_unavailable
map_aura_transport_error AuraFailureReason.adapter_powered_off =
    PairBackendError.aura_adapter_unavailable
map_aura_transport_error AuraFailureReason.discovery_unavailable =
    PairBackendError.aura_discovery_unavailable
map_aura_transport_error AuraFailureReason.verified_advertisement_not_found =
    PairBackendError.aura_verified_advertisement_not_found
map_aura_transport_error AuraFailureReason.device_connection_failed =
    PairBackendError.aura_device_connection_failed
map_aura_transport_error AuraFailureReason.wake_profile_connect_failed =
    PairBackendError.aura_wake_profile_connect_failed
map_aura_transport_error AuraFailureReason.wake_fddf_timed_out =
    PairBackendError.aura_wake_fddf_timed_out
map_aura_transport_error AuraFailureReason.wake_fddf_invalid =
    PairBackendError.aura_wake_fddf_invalid
map_aura_transport_error AuraFailureReason.wake_fddf_unavailable =
    PairBackendError.aura_wake_fddf_unavailable
map_aura_transport_error AuraFailureReason.wake_profile_release_failed =
    PairBackendError.aura_wake_profile_release_failed
map_aura_transport_error AuraFailureReason.gatt_profile_invalid =
    PairBackendError.aura_gatt_profile_invalid
map_aura_transport_error AuraFailureReason.notification_setup_failed =
    PairBackendError.aura_notification_setup_failed
map_aura_transport_error AuraFailureReason.invalid_configuration = PairBackendError.unavailable
map_aura_transport_error AuraFailureReason.runtime_unavailable = PairBackendError.unavailable
map_aura_transport_error AuraFailureReason.transport_not_ready = PairBackendError.unavailable
map_aura_transport_error AuraFailureReason.notification_queue_invalid = PairBackendError.unavailable
map_aura_transport_error AuraFailureReason.write_failed = PairBackendError.unavailable
map_aura_transport_error AuraFailureReason.acknowledgement_timed_out = PairBackendError.unavailable
map_aura_transport_error AuraFailureReason.acknowledgement_channel_closed =
    PairBackendError.unavailable
map_aura_transport_error AuraFailureReason.unexpected_acknowledgement = PairBackendError.unavailable
map_aura_transport_error AuraFailureReason.disconnect_failed = PairBackendError.unavailable

unfoldable pub map_aura_action_unknown : AuraFailureReason → PairBackendError
map_aura_action_unknown AuraFailureReason.write_failed = PairBackendError.aura_write_unknown
map_aura_action_unknown AuraFailureReason.acknowledgement_timed_out =
    PairBackendError.aura_acknowledgement_timed_out
map_aura_action_unknown AuraFailureReason.acknowledgement_channel_closed =
    PairBackendError.aura_acknowledgement_channel_closed
map_aura_action_unknown AuraFailureReason.unexpected_acknowledgement =
    PairBackendError.aura_unexpected_acknowledgement
map_aura_action_unknown AuraFailureReason.invalid_configuration = PairBackendError.unavailable
map_aura_action_unknown AuraFailureReason.runtime_unavailable = PairBackendError.unavailable
map_aura_action_unknown AuraFailureReason.adapter_unavailable = PairBackendError.unavailable
map_aura_action_unknown AuraFailureReason.adapter_powered_off = PairBackendError.unavailable
map_aura_action_unknown AuraFailureReason.discovery_unavailable = PairBackendError.unavailable
map_aura_action_unknown AuraFailureReason.verified_advertisement_not_found =
    PairBackendError.unavailable
map_aura_action_unknown AuraFailureReason.device_connection_failed = PairBackendError.unavailable
map_aura_action_unknown AuraFailureReason.wake_profile_connect_failed = PairBackendError.unavailable
map_aura_action_unknown AuraFailureReason.wake_fddf_timed_out = PairBackendError.unavailable
map_aura_action_unknown AuraFailureReason.wake_fddf_invalid = PairBackendError.unavailable
map_aura_action_unknown AuraFailureReason.wake_fddf_unavailable = PairBackendError.unavailable
map_aura_action_unknown AuraFailureReason.wake_profile_release_failed = PairBackendError.unavailable
map_aura_action_unknown AuraFailureReason.gatt_profile_invalid = PairBackendError.unavailable
map_aura_action_unknown AuraFailureReason.notification_setup_failed = PairBackendError.unavailable
map_aura_action_unknown AuraFailureReason.transport_not_ready = PairBackendError.unavailable
map_aura_action_unknown AuraFailureReason.notification_queue_invalid = PairBackendError.unavailable
map_aura_action_unknown AuraFailureReason.disconnect_failed = PairBackendError.unavailable

unfoldable pub map_broadcast_result_failure : BroadcastResultFailure → PairBackendError
map_broadcast_result_failure BroadcastResultFailure.timed_out =
    PairBackendError.jbl_broadcast_result_timed_out
map_broadcast_result_failure BroadcastResultFailure.unavailable =
    PairBackendError.jbl_broadcast_result_unavailable
map_broadcast_result_failure BroadcastResultFailure.rejected =
    PairBackendError.jbl_broadcast_result_rejected

unfoldable pub map_jbl_gatt_failure : JblGattFailure → BroadcastResultFailure
map_jbl_gatt_failure JblGattFailure.write_response_timed_out = BroadcastResultFailure.timed_out
map_jbl_gatt_failure JblGattFailure.runtime_unavailable = BroadcastResultFailure.unavailable
map_jbl_gatt_failure JblGattFailure.adapter_unavailable = BroadcastResultFailure.unavailable
map_jbl_gatt_failure JblGattFailure.adapter_powered_off = BroadcastResultFailure.unavailable
map_jbl_gatt_failure JblGattFailure.device_connection_failed = BroadcastResultFailure.unavailable
map_jbl_gatt_failure JblGattFailure.mtu_exchange_failed = BroadcastResultFailure.unavailable
map_jbl_gatt_failure JblGattFailure.transport_not_ready = BroadcastResultFailure.unavailable
map_jbl_gatt_failure JblGattFailure.frame_too_large = BroadcastResultFailure.unavailable
map_jbl_gatt_failure JblGattFailure.write_failed = BroadcastResultFailure.unavailable
map_jbl_gatt_failure JblGattFailure.channel_closed = BroadcastResultFailure.unavailable
map_jbl_gatt_failure JblGattFailure.unexpected_response = BroadcastResultFailure.unavailable

unfoldable pub map_gena_failure : GenaFailure → BroadcastResultFailure
map_gena_failure GenaFailure.callback_timed_out = BroadcastResultFailure.timed_out
map_gena_failure GenaFailure.business_rejected = BroadcastResultFailure.rejected
map_gena_failure GenaFailure.invalid_configuration = BroadcastResultFailure.unavailable
map_gena_failure GenaFailure.route_unavailable = BroadcastResultFailure.unavailable
map_gena_failure GenaFailure.listener_unavailable = BroadcastResultFailure.unavailable
map_gena_failure GenaFailure.subscription_unavailable = BroadcastResultFailure.unavailable
map_gena_failure GenaFailure.invalid_subscription = BroadcastResultFailure.unavailable
map_gena_failure GenaFailure.invalid_callback = BroadcastResultFailure.unavailable
map_gena_failure GenaFailure.cleanup_failed = BroadcastResultFailure.unavailable
