-- ===== src/Aura/ColdConnect.antt =====
-- The cold connection of rust/src/aura_bluez.rs: a stable attempt, one wake, a second stable attempt,
-- and the LE attempt.
pub mod Keeps
pub mod Order
use jbl_aura_play_together.Base.{
  ℕ, Bool, true, false, Option, none, some, Result, ok, err, if◌then◌else◌,
}
use jbl_aura_play_together.Backend.{AuraAcquisitionRoute}
use jbl_aura_play_together.Model.{DeviceIdentity}
use jbl_aura_play_together.Native.Types.{AuraFailureReason}
use jbl_aura_play_together.Wake.{
  AuraWakeBluez, AuraWakeFddfObserver, AuraWakeFailure, AuraWakeCleanup, AuraWakeError,
  acquire_aura_wake, default_timings,
}
use jbl_aura_play_together.Wake.Cleanup.{is_release_failed}

unfoldable pub raw_att_retry_eligible : AuraFailureReason → Bool
raw_att_retry_eligible AuraFailureReason.device_connection_failed = true
raw_att_retry_eligible AuraFailureReason.gatt_profile_invalid = true
raw_att_retry_eligible AuraFailureReason.notification_setup_failed = true
raw_att_retry_eligible _ = false

unfoldable pub wake_stage_failure : AuraFailureReason → Bool
wake_stage_failure AuraFailureReason.wake_profile_connect_failed = true
wake_stage_failure AuraFailureReason.wake_fddf_timed_out = true
wake_stage_failure AuraFailureReason.wake_fddf_invalid = true
wake_stage_failure AuraFailureReason.wake_fddf_unavailable = true
wake_stage_failure AuraFailureReason.wake_profile_release_failed = true
wake_stage_failure _ = false

abbrev pub is_wake_release_failure : AuraFailureReason → Bool
is_wake_release_failure AuraFailureReason.wake_profile_release_failed = true
is_wake_release_failure _ = false

abbrev pub is_advertisement_not_found : AuraFailureReason → Bool
is_advertisement_not_found AuraFailureReason.verified_advertisement_not_found = true
is_advertisement_not_found _ = false

unfoldable pub map_wake_failure : AuraWakeFailure → AuraFailureReason
map_wake_failure AuraWakeFailure.profile_connect_failed =
    AuraFailureReason.wake_profile_connect_failed
map_wake_failure AuraWakeFailure.fresh_fddf_timed_out = AuraFailureReason.wake_fddf_timed_out
map_wake_failure AuraWakeFailure.fresh_fddf_invalid = AuraFailureReason.wake_fddf_invalid
map_wake_failure AuraWakeFailure.fresh_fddf_unavailable = AuraFailureReason.wake_fddf_unavailable
map_wake_failure AuraWakeFailure.profile_release_failed =
    AuraFailureReason.wake_profile_release_failed
map_wake_failure AuraWakeFailure.invalid_configuration = AuraFailureReason.invalid_configuration
map_wake_failure AuraWakeFailure.stable_device_unavailable =
    AuraFailureReason.device_connection_failed
map_wake_failure AuraWakeFailure.stable_identity_mismatch =
    AuraFailureReason.device_connection_failed
map_wake_failure AuraWakeFailure.stable_address_invalid = AuraFailureReason.device_connection_failed
map_wake_failure AuraWakeFailure.stable_device_not_paired =
    AuraFailureReason.device_connection_failed
map_wake_failure AuraWakeFailure.stable_device_not_trusted =
    AuraFailureReason.device_connection_failed
map_wake_failure AuraWakeFailure.stable_device_blocked = AuraFailureReason.device_connection_failed

unfoldable pub map_wake_error : AuraWakeFailure → AuraWakeCleanup → AuraFailureReason
unfolding map_wake_failure
map_wake_error failure cleanup =
    if is_release_failed cleanup
    then AuraFailureReason.wake_profile_release_failed
    else map_wake_failure failure

-- The trait, over what its operations change.
pub record ColdConnectOps (Bearer S : Type 0) : Type 0 where
  pub connect_stable : AuraAcquisitionRoute → S → Result Bearer AuraFailureReason × S
  pub wake_once : S → Result (Unit {0}) AuraFailureReason × S
  pub connect_le : S → Result Bearer AuraFailureReason × S

module _ {Bearer S : Type 0} (ops : ColdConnectOps Bearer S) where
  -- `connect_cold_bearer` from the call of `connect_le` on.
  unfoldable pub fall_back : AuraFailureReason → S → Result Bearer AuraFailureReason × S
  unfolding wake_stage_failure
  fall_back fallback s =
      let (connected, s1) = ops.connect_le s in
      elim connected [
        | ok bearer ↦ (ok bearer, s1)
        | err reason ↦
            if wake_stage_failure fallback
            then (err fallback, s1)
            else if is_advertisement_not_found reason
            then (err fallback, s1)
            else (err reason, s1)
      ]

  -- Its arm for a successful wake.
  unfoldable pub connect_woken : S → Result Bearer AuraFailureReason × S
  unfolding raw_att_retry_eligible fall_back
  connect_woken s =
      let (connected, s1) = ops.connect_stable AuraAcquisitionRoute.a2dp_wake_then_stable s in
      elim connected [
        | ok bearer ↦ (ok bearer, s1)
        | err reason ↦
            if raw_att_retry_eligible reason then fall_back reason s1 else (err reason, s1)
      ]

  -- Its part from the call of `wake_once` on.
  unfoldable pub wake_then_connect : S → Result Bearer AuraFailureReason × S
  unfolding connect_woken fall_back
  wake_then_connect s =
      let (woken, s1) = ops.wake_once s in
      elim woken [
        | ok _ ↦ connect_woken s1
        | err reason ↦
            if is_wake_release_failure reason
            then (err AuraFailureReason.wake_profile_release_failed, s1)
            else fall_back reason s1
      ]

  unfoldable pub connect_cold_bearer : S → Result Bearer AuraFailureReason × S
  unfolding raw_att_retry_eligible wake_then_connect
  connect_cold_bearer s =
      let (connected, s1) = ops.connect_stable AuraAcquisitionRoute.stable_direct s in
      elim connected [
        | ok bearer ↦ (ok bearer, s1)
        | err reason ↦
            if raw_att_retry_eligible reason then wake_then_connect s1 else (err reason, s1)
      ]

-- What the native operations change: BlueZ, the observer of advertisements, and the radio that the
-- two kinds of raw attempt use.
pub record Radio (B O R : Type 0) : Type 0 where
  pub bluez : B
  pub observer : O
  pub raw : R

-- `impl ColdConnectOps for NativeColdConnectOps`, over the two raw attempts.
module _ {Bearer B O R : Type 0} (bluez : AuraWakeBluez B) (observer : AuraWakeFddfObserver O)
    (connect_raw_att : AuraAcquisitionRoute → R → Result Bearer AuraFailureReason × R)
    (connect_le_raw : R → Result Bearer AuraFailureReason × R) where
  unfoldable pub native_wake_once :
      DeviceIdentity → Radio B O R → Result (Unit {0}) AuraFailureReason × Radio B O R
  unfolding map_wake_error
  native_wake_once identity s =
      let (woken, (b, o)) =
        acquire_aura_wake bluez observer identity default_timings (s.bluez, s.observer) in
      let s1 = record s { bluez = b; observer = o } in
      elim woken [
        | ok success ↦ (ok tt, s1)
        | err error ↦ (err (map_wake_error error.failure error.cleanup), s1)
      ]

  unfoldable pub native_ops : DeviceIdentity → ColdConnectOps Bearer (Radio B O R)
  unfolding native_wake_once
  native_ops identity = record {
    connect_stable = λ route s.
        let (connected, raw) = connect_raw_att route s.raw in (connected, record s { raw = raw });
    wake_once = native_wake_once identity;
    connect_le =
        λ s. let (connected, raw) = connect_le_raw s.raw in (connected, record s { raw = raw });
  }
