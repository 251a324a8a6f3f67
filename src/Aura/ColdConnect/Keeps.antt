-- ===== src/Aura/ColdConnect/Keeps.antt =====
-- What a cold connection of rust/src/aura_bluez.rs leaves as it was.
use jbl_aura_play_together.Base.{inl, inr, arith, Result-cases}
use jbl_aura_play_together.Backend.{AuraAcquisitionRoute}
use jbl_aura_play_together.Native.Types.{AuraFailureReason}
use jbl_aura_play_together.Att.Action.{Keeps}
use jbl_aura_play_together.Aura.ColdConnect.{
  ColdConnectOps, connect_cold_bearer, wake_then_connect, connect_woken, fall_back,
}

-- A cold connection leaves a reading that none of its operations changes.
module _ {Bearer S X : Type 0} (reading : S → X) (ops : ColdConnectOps Bearer S)
    (stable_keeps : (route : AuraAcquisitionRoute) → Keeps reading (ops.connect_stable route))
    (wake_keeps : Keeps reading ops.wake_once) (le_keeps : Keeps reading ops.connect_le) where
  pub fall_back-Keeps : (f : AuraFailureReason) → Keeps reading (fall_back ops f)
  unfolding fall_back
  fall_back-Keeps f s = ground (arith, le_keeps s)

  pub connect_woken-Keeps : Keeps reading (connect_woken ops)
  unfolding connect_woken
  connect_woken-Keeps s =
      let r = ops.connect_stable AuraAcquisitionRoute.a2dp_wake_then_stable s in
      elim (Result-cases r.0) [
        | inl (bearer, e) ↦
            ground (arith, stable_keeps AuraAcquisitionRoute.a2dp_wake_then_stable s)
        | inr (f, e) ↦ ground (
          arith,
          stable_keeps AuraAcquisitionRoute.a2dp_wake_then_stable s,
          fall_back-Keeps f r.1,
        )
      ]

  pub wake_then_connect-Keeps : Keeps reading (wake_then_connect ops)
  unfolding wake_then_connect
  wake_then_connect-Keeps s =
      let r = ops.wake_once s in
      elim (Result-cases r.0) [
        | inl (woken, e) ↦ ground (arith, wake_keeps s, connect_woken-Keeps r.1)
        | inr (f, e) ↦ ground (arith, wake_keeps s, fall_back-Keeps f r.1)
      ]

  pub connect_cold_bearer-Keeps : Keeps reading (connect_cold_bearer ops)
  unfolding connect_cold_bearer
  connect_cold_bearer-Keeps s =
      let r = ops.connect_stable AuraAcquisitionRoute.stable_direct s in
      elim (Result-cases r.0) [
        | inl (bearer, e) ↦ ground (arith, stable_keeps AuraAcquisitionRoute.stable_direct s)
        | inr (f, e) ↦
            ground (
              arith,
              stable_keeps AuraAcquisitionRoute.stable_direct s,
              wake_then_connect-Keeps r.1,
            )
      ]
