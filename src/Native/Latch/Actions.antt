-- ===== src/Native/Latch/Actions.antt =====
-- The uncertainty latch of rust/src/backend_native.rs over its stop, shutdown and recovery, and over
-- any two actions.
use jbl_aura_play_together.Base.{
  ◌≡◌, ◌≢◌, refl, ap, ◌∙◌, inl, inr, true, arith, none, some, Option-cases, Bool-cases, ◌||◌,
  Result-cases,
}
use jbl_aura_play_together.Backend.{
  lifecycle_eq, PairLifecycle, PairActionFailure, PairActionResult, outcome_unknown,
}
use jbl_aura_play_together.Controller.Types.{ControllerAction}
use jbl_aura_play_together.Controller.Quiet.{method}
use jbl_aura_play_together.Native.Types.{
  BroadcastAction, BroadcastResultEvidence, JblRoleControl, AuraRoleControl,
  BroadcastResultObserver,
}
use jbl_aura_play_together.Native.{
  NativePairCore, latch_unknown, shut_aura, connect_aura, stop_aura, settled_in,
  acquire_fresh_aura_bearer, exit_jbl, arm_observer, execute_observer, cancel_observer,
}
use jbl_aura_play_together.Native.Actions.{
  start, stop_exit, stop_broadcast, stop_receiver, stop_arm, stop_fresh, stop, shutdown_release,
  shutdown, recover_stop, native_backend, is_accepted,
}
use jbl_aura_play_together.Native.Latch.{unknown_of, IsOver, IsResting, start-IsOver}

module _ {J A O : Type 0} (jbl_ops : JblRoleControl J) (aura_ops : AuraRoleControl A)
    (observer_ops : BroadcastResultObserver O) where
  stop_exit-IsOver :
      (e : BroadcastResultEvidence) (c : NativePairCore J A O)
      → c.unresolved ≡ none
      → IsOver (stop_exit jbl_ops aura_ops observer_ops e c)
  unfolding stop_exit latch_unknown exit_jbl
  stop_exit-IsOver e c h = ground arith

  stop_broadcast-IsOver :
      (c : NativePairCore J A O)
      → c.unresolved ≡ none
      → IsOver (stop_broadcast jbl_ops aura_ops observer_ops c)
  unfolding stop_broadcast latch_unknown execute_observer
  stop_broadcast-IsOver c h =
      elim (Result-cases
        (observer_ops.execute BroadcastAction.stop c.jbl_identity c.broadcast_observer).0) [
          | inl (e, q) ↦ ground (
            arith,
            q,
            stop_exit-IsOver e (execute_observer observer_ops BroadcastAction.stop c).1,
          )
          | inr (f, q) ↦ ground (arith, q)
        ]

  stop_receiver-IsOver :
      (c : NativePairCore J A O)
      → c.unresolved ≡ none
      → IsOver (stop_receiver jbl_ops aura_ops observer_ops c)
  unfolding stop_receiver latch_unknown cancel_observer stop_aura
  stop_receiver-IsOver c h = ground (arith, stop_broadcast-IsOver (stop_aura aura_ops c).1)

  stop_arm-IsOver :
      (c : NativePairCore J A O)
      → c.unresolved ≡ none
      → IsOver (stop_arm jbl_ops aura_ops observer_ops c)
  unfolding stop_arm arm_observer
  stop_arm-IsOver c h = ground (
    arith,
    stop_receiver-IsOver
        (arm_observer observer_ops BroadcastAction.stop
          (record c { lifecycle = PairLifecycle.unlinking })).1,
  )

  stop_fresh-IsOver :
      (c : NativePairCore J A O)
      → c.unresolved ≡ none
      → IsOver (stop_fresh jbl_ops aura_ops observer_ops c)
  unfolding stop_fresh acquire_fresh_aura_bearer shut_aura connect_aura
  stop_fresh-IsOver c h = ground (arith, stop_arm-IsOver (acquire_fresh_aura_bearer aura_ops c).1)

  stop-IsOver :
      (c : NativePairCore J A O) → IsResting c → IsOver (stop jbl_ops aura_ops observer_ops c)
  unfolding stop settled_in
  stop-IsOver c h = ground (arith, stop_fresh-IsOver (settled_in aura_ops PairLifecycle.ready c).1)

  shutdown_release-IsOver :
      (c : NativePairCore J A O)
      → c.unresolved ≡ none
      → IsOver (shutdown_release jbl_ops aura_ops observer_ops c)
  unfolding shutdown_release latch_unknown shut_aura
  shutdown_release-IsOver c h = ground arith

  IsOver-accepted :
      (x : PairActionResult × NativePairCore J A O)
      → IsOver x
      → is_accepted x.0 ≡ true
      → x.1.unresolved ≡ none
  IsOver-accepted x h a = ground arith

  latched-IsOver :
      (c : NativePairCore J A O) (f : PairActionFailure)
      → IsResting c
      → c.unresolved ≡ some f
      → IsOver (outcome_unknown f, c)
  latched-IsOver c f h e = ground arith

  shutdown-IsOver :
      (c : NativePairCore J A O) → IsResting c → IsOver (shutdown jbl_ops aura_ops observer_ops c)
  unfolding shutdown
  shutdown-IsOver c h = elim (Option-cases c.unresolved) [
    | inr (f, e) ↦ rw (e, shutdown) (latched-IsOver c f h e)
    | inl e ↦
        rw (e, shutdown)
          (elim (Bool-cases (
            lifecycle_eq c.lifecycle PairLifecycle.ready
            || lifecycle_eq c.lifecycle PairLifecycle.offline)) [
              | inl q ↦ rw q (shutdown_release-IsOver c e)
              | inr q ↦
                  rw q (elim (Bool-cases (is_accepted (stop jbl_ops aura_ops observer_ops c).0)) [
                    | inl a ↦ rw a (
                        shutdown_release-IsOver (stop jbl_ops aura_ops observer_ops c).1 (
                          IsOver-accepted (stop jbl_ops aura_ops observer_ops c) (stop-IsOver c h)
                            a))
                    | inr a ↦ rw a (stop-IsOver c h)
                  ])
            ])
  ]

  degraded-IsResting :
      (c : NativePairCore J A O)
      → IsResting (record c { unresolved = none; lifecycle = PairLifecycle.degraded })
  degraded-IsResting c = ground arith

  recover_stop-IsOver :
      (c : NativePairCore J A O) → IsOver (recover_stop jbl_ops aura_ops observer_ops c)
  unfolding recover_stop shut_aura latch_unknown
  recover_stop-IsOver c =
      let c1 = (shut_aura aura_ops (record c { lifecycle = PairLifecycle.recovering })).1 in
      ground (
        arith,
        stop-IsOver (record c1 { unresolved = none; lifecycle = PairLifecycle.degraded })
            (degraded-IsResting c1),
      )

  -- From a state between actions (offline, ready, linked or degraded, and degraded if an uncertainty
  -- is latched) every action ends in such a state, with the latch holding exactly the uncertainty
  -- that it reports, and degraded if it reports one.
  pub method-IsOver :
      (a : ControllerAction) (c : NativePairCore J A O)
      → IsResting c
      → IsOver (method (native_backend jbl_ops aura_ops observer_ops) a c)
  unfolding native_backend
  method-IsOver ControllerAction.start c h = start-IsOver jbl_ops aura_ops observer_ops c h
  method-IsOver ControllerAction.stop c h = stop-IsOver c h
  method-IsOver ControllerAction.shutdown c h = shutdown-IsOver c h
  method-IsOver ControllerAction.recover_stop c h = recover_stop-IsOver c

  latched_method :
      (a : ControllerAction) (c : NativePairCore J A O) (f : PairActionFailure)
      → a ≢ ControllerAction.recover_stop
      → c.unresolved ≡ some f
      → method (native_backend jbl_ops aura_ops observer_ops) a c ≡ (outcome_unknown f, c)
  unfolding native_backend start stop shutdown
  latched_method ControllerAction.start c f n h = ground arith
  latched_method ControllerAction.stop c f n h = ground arith
  latched_method ControllerAction.shutdown c f n h = ground arith
  latched_method ControllerAction.recover_stop c f n h = absurd (n refl)

  -- From a state between actions, after an uncertain action only a recovery acts: any other action that follows reports the same
  -- uncertainty, calls none of the three collaborators and leaves the backend as it is.
  pub uncertain_then_silent :
      (a next : ControllerAction) (c : NativePairCore J A O) (f : PairActionFailure)
      → IsResting c
      → (method (native_backend jbl_ops aura_ops observer_ops) a c).0 ≡ outcome_unknown f
      → next ≢ ControllerAction.recover_stop
      → method
          (native_backend jbl_ops aura_ops observer_ops)
          next
          (method (native_backend jbl_ops aura_ops observer_ops) a c).1
        ≡ (outcome_unknown f, (method (native_backend jbl_ops aura_ops observer_ops) a c).1)
  uncertain_then_silent a next c f h e n =
      latched_method next (method (native_backend jbl_ops aura_ops observer_ops) a c).1 f n
        ((method-IsOver a c h).latch ∙ ap unknown_of e)
