-- ===== src/Native/Order/Stop.antt =====
-- The order of the calls behind an accepted stop of rust/src/backend_native.rs.
use jbl_aura_play_together.Base.{◌≡◌, inl, inr, true, arith, ◌∷◌, Result-cases}
use jbl_aura_play_together.Backend.{PairLifecycle, PairActionReceipt, accepted, lifecycle_eq_sound}
use jbl_aura_play_together.Native.Types.{
  BroadcastAction, BroadcastResultEvidence, PlayTogetherWriteResult, AuraActionResult,
  JblRoleControl, AuraRoleControl, BroadcastResultObserver,
}
use jbl_aura_play_together.Native.{
  NativePairCore, aura_stop, observer_arm, observer_execute, jbl_exit, latch_unknown, shut_aura,
  connect_aura, stop_aura, settled_in, acquire_fresh_aura_bearer, exit_jbl, arm_observer,
  execute_observer,
}
use jbl_aura_play_together.Native.Actions.{
  stop_exit, stop_broadcast, stop_receiver, stop_arm, stop_fresh, stop,
}
use jbl_aura_play_together.Native.Order.{stopped, Achieved, AcceptedOver}

module _ {J A O : Type 0} (jbl_ops : JblRoleControl J) (aura_ops : AuraRoleControl A)
    (observer_ops : BroadcastResultObserver O) where
  stop_exit_accepted :
      (e : BroadcastResultEvidence) (c : NativePairCore J A O) (r : PairActionReceipt)
      → (stop_exit jbl_ops aura_ops observer_ops e c).0 ≡ accepted r
      → Achieved PairLifecycle.ready
          (jbl_exit PlayTogetherWriteResult.accepted ∷ c.trace)
          r
          (stop_exit jbl_ops aura_ops observer_ops e c).1
  unfolding stop_exit latch_unknown exit_jbl
  stop_exit_accepted e c r h = ground arith

  stop_broadcast_accepted :
      (c : NativePairCore J A O) (r : PairActionReceipt)
      → (stop_broadcast jbl_ops aura_ops observer_ops c).0 ≡ accepted r
      → Achieved PairLifecycle.ready
          (jbl_exit PlayTogetherWriteResult.accepted
            ∷ observer_execute BroadcastAction.stop true
            ∷ c.trace)
          r
          (stop_broadcast jbl_ops aura_ops observer_ops c).1
  unfolding stop_broadcast latch_unknown execute_observer
  stop_broadcast_accepted c r h =
      elim (Result-cases
        (observer_ops.execute BroadcastAction.stop c.jbl_identity c.broadcast_observer).0) [
          | inl (e, q) ↦ ground (
            arith,
            q,
            stop_exit_accepted e (execute_observer observer_ops BroadcastAction.stop c).1 r,
          )
          | inr (f, q) ↦ absurd (ground (arith, q))
        ]

  stop_receiver_accepted :
      (c : NativePairCore J A O) (r : PairActionReceipt)
      → (stop_receiver jbl_ops aura_ops observer_ops c).0 ≡ accepted r
      → Achieved PairLifecycle.ready
          (jbl_exit PlayTogetherWriteResult.accepted
            ∷ observer_execute BroadcastAction.stop true
            ∷ aura_stop AuraActionResult.accepted
            ∷ c.trace)
          r
          (stop_receiver jbl_ops aura_ops observer_ops c).1
  unfolding stop_receiver latch_unknown stop_aura
  stop_receiver_accepted c r h = ground (arith, stop_broadcast_accepted (stop_aura aura_ops c).1 r)

  stop_arm_accepted :
      (c : NativePairCore J A O) (r : PairActionReceipt)
      → (stop_arm jbl_ops aura_ops observer_ops c).0 ≡ accepted r
      → Achieved PairLifecycle.ready
          (jbl_exit PlayTogetherWriteResult.accepted
            ∷ observer_execute BroadcastAction.stop true
            ∷ aura_stop AuraActionResult.accepted
            ∷ observer_arm BroadcastAction.stop true
            ∷ c.trace)
          r
          (stop_arm jbl_ops aura_ops observer_ops c).1
  unfolding stop_arm arm_observer
  stop_arm_accepted c r h = ground (
    arith,
    stop_receiver_accepted
        (arm_observer observer_ops BroadcastAction.stop
          (record c { lifecycle = PairLifecycle.unlinking })).1
        r,
  )

  stop_fresh_accepted :
      (c : NativePairCore J A O) (r : PairActionReceipt)
      → (stop_fresh jbl_ops aura_ops observer_ops c).0 ≡ accepted r
      → Achieved PairLifecycle.ready
          (stopped c.trace)
          r
          (stop_fresh jbl_ops aura_ops observer_ops c).1
  unfolding stop_fresh acquire_fresh_aura_bearer shut_aura connect_aura
  stop_fresh_accepted c r h =
      ground (arith, stop_arm_accepted (acquire_fresh_aura_bearer aura_ops c).1 r)

  -- An accepted stop found the pair ready already and made none of the calls, or it made exactly
  -- these with success, in this order: a fresh verified bearer, the armed observer, the Aura's stop,
  -- the broadcast stop, and last the JBL's exit.
  pub stop_order :
      (c : NativePairCore J A O) (r : PairActionReceipt)
      → (stop jbl_ops aura_ops observer_ops c).0 ≡ accepted r
      → AcceptedOver PairLifecycle.ready
          (stopped c.trace)
          r
          c
          (stop jbl_ops aura_ops observer_ops c).1
  unfolding stop settled_in
  stop_order c r h = ground (
    arith,
    lifecycle_eq_sound c.lifecycle PairLifecycle.ready,
    stop_fresh_accepted (settled_in aura_ops PairLifecycle.ready c).1 r,
  )
