-- ===== src/Aura/Acquire/Retry.antt =====
-- The retry of the LE attempt in rust/src/aura_bluez.rs.
use jbl_aura_play_together.Base.{ℕ, ◌≡◌, refl, zero, suc, arith, Bool}
use jbl_aura_play_together.Native.Types.{AuraFailureReason}
use jbl_aura_play_together.Att.Action.{Action, Keeps}
use jbl_aura_play_together.Aura.Acquire.{retry, reason_of}

module _ {W A X : Type 0} (reading : W → X) (deadline_passed : W → Bool × W) (sleep : W → W)
    (attempt : Action W AuraFailureReason A)
    (late_keeps : (w : W) → reading (deadline_passed w).1 ≡ reading w)
    (sleep_keeps : (w : W) → reading (sleep w) ≡ reading w)
    (attempt_keeps : Keeps reading attempt) where
  pub retry-Keeps :
      (n : ℕ) (last : AuraFailureReason)
      → Keeps reading (retry deadline_passed sleep attempt n last)
  unfolding retry
  retry-Keeps zero last w = refl
  retry-Keeps (suc n) last w =
      let w1 = (deadline_passed w).1 in
      let w2 = (attempt w1).1 in
      let w3 = (deadline_passed w2).1 in
      let reason = reason_of last (attempt w1).0 in
      ground (
        arith,
        late_keeps w,
        attempt_keeps w1,
        late_keeps w2,
        sleep_keeps w3,
        retry-Keeps n reason w2,
        retry-Keeps n reason w3,
        retry-Keeps n reason (sleep w3),
      )
