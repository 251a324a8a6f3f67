-- ===== src/Aura/ColdConnect/Order.antt =====
-- The attempts that a cold connection of rust/src/aura_bluez.rs makes, in their order.
use jbl_aura_play_together.Base.{
  ◌≡◌, ◌⊎◌, inl, inr, arith, Bool, true, false, not, ◌&&◌, Option, some, none, Result, ok, err,
  List, [], ◌∷◌, map, Bool-cases, Result-cases,
}
use jbl_aura_play_together.Backend.{AuraAcquisitionRoute}
use jbl_aura_play_together.Model.{DeviceIdentity}
use jbl_aura_play_together.Native.Types.{AuraFailureReason}
use jbl_aura_play_together.Wake.{AuraWakeBluez, AuraWakeFddfObserver}
use jbl_aura_play_together.Wake.Cleanup.{ReportsRelease}
use jbl_aura_play_together.Aura.ColdConnect.{
  raw_att_retry_eligible, is_wake_release_failure, ColdConnectOps, fall_back, connect_woken,
  wake_then_connect, connect_cold_bearer, Radio, native_ops,
}

-- How an attempt ended: `none` for success, or the reason of its failure.
abbrev pub Outcome : Type 0
Outcome = Option AuraFailureReason

abbrev pub outcome_of : {A : Type 0} → Result A AuraFailureReason → Outcome
outcome_of (ok a) = none
outcome_of (err reason) = some reason

pub data Attempt : Type 0 where
  stable : AuraAcquisitionRoute → Outcome → Attempt
  wake le : Outcome → Attempt

-- One attempt, and whether the temporary profile might be connected when it began.
pub data Step : Type 0 where
  step : Attempt → Bool → Step

abbrev pub attempt_of : Step → Attempt
attempt_of (step attempt held) = attempt

-- No raw attempt while the profile might be connected.
abbrev pub Unheld : Step → Type 0
Unheld (step (wake outcome) held) = Unit
Unheld (step (stable route outcome) held) = held ≡ false
Unheld (step (le outcome) held) = held ≡ false

-- The steps made so far, the latest first.
abbrev pub Recorded : Type 0 → Type 0
Recorded S = S × List Step

module _ {Bearer S : Type 0} (held : S → Bool) (ops : ColdConnectOps Bearer S) where
  abbrev note : Attempt → Recorded S → List Step
  note attempt (s, steps) = step attempt (held s) ∷ steps

  -- The operations, each of which records its call.
  abbrev pub recorded : ColdConnectOps Bearer (Recorded S)
  recorded = record {
    connect_stable = λ route r.
        let (connected, s) = ops.connect_stable route r.0 in
        (connected, (s, note (stable route (outcome_of connected)) r));
    wake_once =
        λ r. let (woken, s) = ops.wake_once r.0 in (woken, (s, note (wake (outcome_of woken)) r));
    connect_le = λ r.
        let (connected, s) = ops.connect_le r.0 in
        (connected, (s, note (le (outcome_of connected)) r));
  }

-- A result of a raw attempt behind which the connection goes no further.
abbrev pub final : {Bearer : Type 0} → Result Bearer AuraFailureReason → Bool
unfolding raw_att_retry_eligible
final (ok bearer) = true
final (err reason) = not (raw_att_retry_eligible reason)

abbrev pub is_wake_release_error : {Bearer : Type 0} → Result Bearer AuraFailureReason → Bool
is_wake_release_error (ok bearer) = false
is_wake_release_error (err reason) = is_wake_release_failure reason

-- An attempt that failed for a reason behind which another is made.
abbrev pub retries : Outcome → Bool
unfolding raw_att_retry_eligible
retries none = false
retries (some reason) = raw_att_retry_eligible reason

-- The connection has a bearer exactly if the attempt had one.
abbrev pub agrees : {Bearer : Type 0} → Result Bearer AuraFailureReason → Outcome → Bool
agrees (ok bearer) none = true
agrees (err reason) (some failure) = true
agrees _ _ = false

-- The orders of attempts that the cold connection admits, the latest first, with the outcomes and the
-- results that each may have.
abbrev pub admitted : {Bearer : Type 0} → Result Bearer AuraFailureReason → List Attempt → Bool
admitted r (stable AuraAcquisitionRoute.stable_direct first ∷ []) =
    not (retries first) && final r && agrees r first
admitted r (wake (some reason) ∷ stable AuraAcquisitionRoute.stable_direct first ∷ []) =
    retries first && is_wake_release_failure reason && is_wake_release_error r
admitted r (le last ∷ wake (some reason) ∷ stable AuraAcquisitionRoute.stable_direct first ∷ []) =
    retries first && not (is_wake_release_failure reason) && agrees r last
admitted r
      (stable AuraAcquisitionRoute.a2dp_wake_then_stable second
        ∷ wake none
        ∷ stable AuraAcquisitionRoute.stable_direct first
        ∷ []) =
    retries first && not (retries second) && final r && agrees r second
admitted r
      (le last
        ∷ stable AuraAcquisitionRoute.a2dp_wake_then_stable second
        ∷ wake none
        ∷ stable AuraAcquisitionRoute.stable_direct first
        ∷ []) =
    retries first && retries second && agrees r last
admitted _ _ = false

module _ {Bearer S : Type 0} (held : S → Bool) (ops : ColdConnectOps Bearer S) where
  fall_back_steps :
      (f : AuraFailureReason) (s : S) (steps : List Step)
      → let last = outcome_of (ops.connect_le s).0 in
        let (result, (s1, after)) = fall_back (recorded held ops) f (s, steps) in
        (map attempt_of after ≡ le last ∷ map attempt_of steps) × (agrees result last ≡ true)
  unfolding fall_back
  fall_back_steps f s steps = ground arith

  connect_woken_admitted :
      (s : S) (a b : Bool) (first : Outcome)
      → retries first ≡ true
      → let (result, (s1, steps)) =
          connect_woken (recorded held ops) (
            s,
            step (wake none) b ∷ step (stable AuraAcquisitionRoute.stable_direct first) a ∷ [],
          ) in
        admitted result (map attempt_of steps) ≡ true
  unfolding connect_woken
  connect_woken_admitted s a b first h =
      let route = AuraAcquisitionRoute.a2dp_wake_then_stable in
      let before =
        step (wake none) b ∷ step (stable AuraAcquisitionRoute.stable_direct first) a ∷ [] in
      elim (Result-cases (ops.connect_stable route s).0) [
        | inl (bearer, e) ↦ ground (arith, h)
        | inr (f, e) ↦ elim (Bool-cases (raw_att_retry_eligible f)) [
          | inl y ↦ ground (
            arith,
            h,
            fall_back_steps f (ops.connect_stable route s).1
                (step (stable route (some f)) (held s) ∷ before),
          )
          | inr n ↦ ground (arith, h)
        ]
      ]

  wake_then_connect_admitted :
      (s : S) (a : Bool) (first : Outcome)
      → retries first ≡ true
      → let (result, (s1, steps)) =
          wake_then_connect
            (recorded held ops)
            (s, step (stable AuraAcquisitionRoute.stable_direct first) a ∷ []) in
        admitted result (map attempt_of steps) ≡ true
  unfolding wake_then_connect
  wake_then_connect_admitted s a first h =
      let before = step (stable AuraAcquisitionRoute.stable_direct first) a ∷ [] in
      elim (Result-cases (ops.wake_once s).0) [
        | inl (u, e) ↦ ground (arith, connect_woken_admitted (ops.wake_once s).1 a (held s) first h)
        | inr (f, e) ↦ elim (Bool-cases (is_wake_release_failure f)) [
          | inl y ↦ ground (arith, h)
          | inr n ↦ ground (
            arith,
            h,
            fall_back_steps f (ops.wake_once s).1 (step (wake (some f)) (held s) ∷ before),
          )
        ]
      ]

  -- Whatever the attempts return, a cold connection tries the stable route first and goes on only
  -- where that failed for a reason to retry. It wakes once at most; it makes a second stable attempt
  -- only after a successful wake, and the LE attempt only last, after a failed wake or after a second
  -- stable attempt that failed for such a reason. It stops at a wake exactly where that failed to
  -- release its profile, and has a bearer exactly if its last attempt had one.
  pub connect_cold_bearer_order :
      (s : S)
      → let (result, (s1, steps)) = connect_cold_bearer (recorded held ops) (s, []) in
        admitted result (map attempt_of steps) ≡ true
  unfolding connect_cold_bearer
  connect_cold_bearer_order s =
      let route = AuraAcquisitionRoute.stable_direct in
      elim (Result-cases (ops.connect_stable route s).0) [
        | inl (bearer, e) ↦ ground arith
        | inr (f, e) ↦ elim (Bool-cases (raw_att_retry_eligible f)) [
          | inl y ↦
              ground (
                arith,
                wake_then_connect_admitted (ops.connect_stable route s).1 (held s) (some f) y,
              )
          | inr n ↦ ground arith
        ]
      ]

-- What the operations promise about the profile: a raw attempt leaves it, and a wake reports the
-- failure to release it or leaves it unconnected.
pub record KeepsUnheld {Bearer S : Type 0} (held : S → Bool) (ops : ColdConnectOps Bearer S)
    : Type 0 where
  pub stable_keeps :
      (route : AuraAcquisitionRoute) (s : S) → held (ops.connect_stable route s).1 ≡ held s
  pub wake_releases :
      (s : S)
      → held s ≡ false
      → (is_wake_release_error (ops.wake_once s).0 ≡ true) ⊎ (held (ops.wake_once s).1 ≡ false)

module _ {Bearer B O R : Type 0} (bluez : AuraWakeBluez B) (observer : AuraWakeFddfObserver O)
    (connect_raw_att : AuraAcquisitionRoute → R → Result Bearer AuraFailureReason × R)
    (connect_le_raw : R → Result Bearer AuraFailureReason × R) (held : B → Bool)
    (reports : ReportsRelease bluez held) where
  abbrev pub native : DeviceIdentity → ColdConnectOps Bearer (Radio B O R)
  unfolding native_ops
  native identity = native_ops bluez observer connect_raw_att connect_le_raw identity

  abbrev pub radio_held : Radio B O R → Bool
  radio_held s = held s.bluez
