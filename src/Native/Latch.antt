-- ===== src/Native/Latch.antt =====
-- The states of the uncertainty latch of rust/src/backend_native.rs, over its start.
pub mod Actions
use jbl_aura_play_together.Base.{
  ◌⊎◌, ◌≡◌, ◌≢◌, refl, ap, ◌∙◌, inl, inr, Bool, true, false, arith, none, some, Option,
  Option-cases, Bool-cases, ◌||◌, Result-cases,
}
use jbl_aura_play_together.Backend.{
  lifecycle_eq, PairLifecycle, PairActionFailure, PairActionResult, outcome_unknown,
}
use jbl_aura_play_together.Controller.Types.{ControllerAction}
use jbl_aura_play_together.Controller.Quiet.{method}
use jbl_aura_play_together.Native.Types.{
  BroadcastAction, BroadcastResultEvidence, JblRoleControl, AuraRoleControl,
  BroadcastResultObserver,
}
use jbl_aura_play_together.Native.{
  NativePairCore, latch_unknown, shut_aura, connect_aura, start_aura, stop_aura, settled_in,
  acquire_fresh_aura_bearer, enter_jbl, exit_jbl, arm_observer, execute_observer, cancel_observer,
}
use jbl_aura_play_together.Native.Actions.{
  start_join, start_broadcast, start_enter, start_arm, start_fresh, start, stop_exit,
  stop_broadcast, stop_receiver, stop_arm, stop_fresh, stop, shutdown_release, shutdown,
  recover_stop, native_backend, is_accepted,
}

abbrev pub unknown_of : PairActionResult → Option PairActionFailure
unknown_of (outcome_unknown f) = some f
unknown_of _ = none

abbrev pub is_some {ℓ} : {A : Type ℓ} → Option A → Bool
is_some (some a) = true
is_some none = false

-- The lifecycles that stand between two actions.
abbrev pub is_resting : PairLifecycle → Bool
is_resting PairLifecycle.offline = true
is_resting PairLifecycle.ready = true
is_resting PairLifecycle.linked = true
is_resting PairLifecycle.degraded = true
is_resting _ = false

-- An action is over: the latch holds the reported uncertainty and nothing else, the lifecycle is
-- one that stands between actions, and an uncertain one is degraded.
pub record IsOver {J A O : Type 0} (x : PairActionResult × NativePairCore J A O) : Type 0 where
  pub latch : x.1.unresolved ≡ unknown_of x.0
  pub resting : is_resting x.1.lifecycle ≡ true
  pub uncertain : (unknown_of x.0 ≡ none) ⊎ (x.1.lifecycle ≡ PairLifecycle.degraded)

-- The same of the controller before the next action.
pub record IsResting {J A O : Type 0} (c : NativePairCore J A O) : Type 0 where
  pub resting : is_resting c.lifecycle ≡ true
  pub uncertain : (c.unresolved ≡ none) ⊎ (c.lifecycle ≡ PairLifecycle.degraded)

module _ {J A O : Type 0} (jbl_ops : JblRoleControl J) (aura_ops : AuraRoleControl A)
    (observer_ops : BroadcastResultObserver O) where
  start_join-IsOver :
      (e : BroadcastResultEvidence) (c : NativePairCore J A O)
      → c.unresolved ≡ none
      → IsOver (start_join jbl_ops aura_ops observer_ops e c)
  unfolding start_join latch_unknown start_aura
  start_join-IsOver e c h = ground arith

  start_broadcast-IsOver :
      (c : NativePairCore J A O)
      → c.unresolved ≡ none
      → IsOver (start_broadcast jbl_ops aura_ops observer_ops c)
  unfolding start_broadcast latch_unknown execute_observer
  start_broadcast-IsOver c h =
      elim (Result-cases
        (observer_ops.execute BroadcastAction.start c.jbl_identity c.broadcast_observer).0) [
          | inl (e, q) ↦ ground (
            arith,
            q,
            start_join-IsOver e (execute_observer observer_ops BroadcastAction.start c).1,
          )
          | inr (f, q) ↦ ground (arith, q)
        ]

  start_enter-IsOver :
      (c : NativePairCore J A O)
      → c.unresolved ≡ none
      → IsOver (start_enter jbl_ops aura_ops observer_ops c)
  unfolding start_enter latch_unknown cancel_observer enter_jbl
  start_enter-IsOver c h = ground (arith, start_broadcast-IsOver (enter_jbl jbl_ops c).1)

  start_arm-IsOver :
      (c : NativePairCore J A O)
      → c.unresolved ≡ none
      → IsOver (start_arm jbl_ops aura_ops observer_ops c)
  unfolding start_arm arm_observer
  start_arm-IsOver c h = ground (
    arith,
    start_enter-IsOver
        (arm_observer observer_ops BroadcastAction.start
          (record c { lifecycle = PairLifecycle.linking })).1,
  )

  start_fresh-IsOver :
      (c : NativePairCore J A O)
      → c.unresolved ≡ none
      → IsOver (start_fresh jbl_ops aura_ops observer_ops c)
  unfolding start_fresh acquire_fresh_aura_bearer shut_aura connect_aura
  start_fresh-IsOver c h = ground (arith, start_arm-IsOver (acquire_fresh_aura_bearer aura_ops c).1)

  pub start-IsOver :
      (c : NativePairCore J A O) → IsResting c → IsOver (start jbl_ops aura_ops observer_ops c)
  unfolding start settled_in
  start-IsOver c h =
      ground (arith, start_fresh-IsOver (settled_in aura_ops PairLifecycle.linked c).1)
