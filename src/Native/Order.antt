-- ===== src/Native/Order.antt =====
-- The order of the calls behind an accepted start of rust/src/backend_native.rs.
pub mod Stop
use jbl_aura_play_together.Base.{
  ℕ, ◌≡◌, ◌⊎◌, inl, inr, true, false, arith, List, ◌∷◌, ltb, if◌then◌else◌, Result-cases,
}
use jbl_aura_play_together.Backend.{PairLifecycle, PairActionReceipt, accepted, lifecycle_eq_sound}
use jbl_aura_play_together.Native.Types.{
  BroadcastAction, BroadcastResultEvidence, PlayTogetherWriteResult, AuraActionResult,
  JblRoleControl, AuraRoleControl, BroadcastResultObserver,
}
use jbl_aura_play_together.Native.{
  NativePairCore, Call, aura_shutdown, aura_connect, aura_start, aura_stop, observer_arm,
  observer_execute, jbl_enter, jbl_exit, join_delay_slept, latch_unknown, shut_aura, connect_aura,
  start_aura, stop_aura, settled_in, acquire_fresh_aura_bearer, enter_jbl, exit_jbl, arm_observer,
  execute_observer,
}
use jbl_aura_play_together.Native.Actions.{
  start_join, start_broadcast, start_enter, start_arm, start_fresh, start, stop_exit,
  stop_broadcast, stop_receiver, stop_arm, stop_fresh, stop,
}

-- The calls of a start, newest first.
abbrev pub joined : ℕ → List Call → List Call
joined delay t =
    aura_start AuraActionResult.accepted ∷ (if ltb 0 delay then join_delay_slept ∷ t else t)

abbrev pub started : ℕ → List Call → List Call
started delay t = joined delay (
    observer_execute BroadcastAction.start true
    ∷ jbl_enter PlayTogetherWriteResult.accepted
    ∷ observer_arm BroadcastAction.start true
    ∷ aura_connect true
    ∷ aura_shutdown true
    ∷ t)

-- The calls of a stop, newest first: the receiver before the broadcaster.
abbrev pub stopped : List Call → List Call
stopped t =
    jbl_exit PlayTogetherWriteResult.accepted
    ∷ observer_execute BroadcastAction.stop true
    ∷ aura_stop AuraActionResult.accepted
    ∷ observer_arm BroadcastAction.stop true
    ∷ aura_connect true
    ∷ aura_shutdown true
    ∷ t

-- An accepted receipt that is no idempotent one, over the calls `t`, in the lifecycle `l`.
abbrev pub Achieved :
    {J A O : Type 0} → PairLifecycle → List Call → PairActionReceipt → NativePairCore J A O → Type 0
Achieved l t r d = (r.idempotent ≡ false) × (r.lifecycle ≡ l) × (d.lifecycle ≡ l) × (d.trace ≡ t)

-- An accepted action has either found the pair in the state it asks for and made none of
-- these calls, or has made exactly the given calls; the receipt and the backend's state say the same lifecycle.
abbrev pub AcceptedOver :
    {J A O : Type 0}
    → PairLifecycle
    → List Call
    → PairActionReceipt
    → NativePairCore J A O
    → NativePairCore J A O
    → Type 0
AcceptedOver l t r c d =
    ((r.idempotent ≡ true)
      × (c.lifecycle ≡ l)
      × (d.lifecycle ≡ l)
      × (d.trace ≡ c.trace)
      × (r.lifecycle ≡ l))
    ⊎ Achieved l t r d

module _ {J A O : Type 0} (jbl_ops : JblRoleControl J) (aura_ops : AuraRoleControl A)
    (observer_ops : BroadcastResultObserver O) where
  start_join_accepted :
      (e : BroadcastResultEvidence) (c : NativePairCore J A O) (r : PairActionReceipt)
      → (start_join jbl_ops aura_ops observer_ops e c).0 ≡ accepted r
      → Achieved PairLifecycle.linked
          (joined c.join_delay c.trace)
          r
          (start_join jbl_ops aura_ops observer_ops e c).1
  unfolding start_join latch_unknown start_aura
  start_join_accepted e c r h = ground arith

  start_broadcast_accepted :
      (c : NativePairCore J A O) (r : PairActionReceipt)
      → (start_broadcast jbl_ops aura_ops observer_ops c).0 ≡ accepted r
      → Achieved PairLifecycle.linked
          (joined c.join_delay (observer_execute BroadcastAction.start true ∷ c.trace))
          r
          (start_broadcast jbl_ops aura_ops observer_ops c).1
  unfolding start_broadcast latch_unknown execute_observer
  start_broadcast_accepted c r h =
      elim (Result-cases
        (observer_ops.execute BroadcastAction.start c.jbl_identity c.broadcast_observer).0) [
          | inl (e, q) ↦ ground (
            arith,
            q,
            start_join_accepted e (execute_observer observer_ops BroadcastAction.start c).1 r,
          )
          | inr (f, q) ↦ absurd (ground (arith, q))
        ]

  start_enter_accepted :
      (c : NativePairCore J A O) (r : PairActionReceipt)
      → (start_enter jbl_ops aura_ops observer_ops c).0 ≡ accepted r
      → Achieved PairLifecycle.linked
          (joined c.join_delay (
            observer_execute BroadcastAction.start true
            ∷ jbl_enter PlayTogetherWriteResult.accepted
            ∷ c.trace))
          r
          (start_enter jbl_ops aura_ops observer_ops c).1
  unfolding start_enter latch_unknown enter_jbl
  start_enter_accepted c r h = ground (arith, start_broadcast_accepted (enter_jbl jbl_ops c).1 r)

  start_arm_accepted :
      (c : NativePairCore J A O) (r : PairActionReceipt)
      → (start_arm jbl_ops aura_ops observer_ops c).0 ≡ accepted r
      → Achieved PairLifecycle.linked
          (joined c.join_delay (
            observer_execute BroadcastAction.start true
            ∷ jbl_enter PlayTogetherWriteResult.accepted
            ∷ observer_arm BroadcastAction.start true
            ∷ c.trace))
          r
          (start_arm jbl_ops aura_ops observer_ops c).1
  unfolding start_arm arm_observer
  start_arm_accepted c r h = ground (
    arith,
    start_enter_accepted
        (arm_observer observer_ops BroadcastAction.start
          (record c { lifecycle = PairLifecycle.linking })).1
        r,
  )

  start_fresh_accepted :
      (c : NativePairCore J A O) (r : PairActionReceipt)
      → (start_fresh jbl_ops aura_ops observer_ops c).0 ≡ accepted r
      → Achieved PairLifecycle.linked
          (started c.join_delay c.trace)
          r
          (start_fresh jbl_ops aura_ops observer_ops c).1
  unfolding start_fresh acquire_fresh_aura_bearer shut_aura connect_aura
  start_fresh_accepted c r h =
      ground (arith, start_arm_accepted (acquire_fresh_aura_bearer aura_ops c).1 r)

  -- An accepted start found the pair linked already and made none of the calls, or it made exactly
  -- these with success, in this order: a fresh verified bearer, the armed observer, the JBL's enter,
  -- the broadcast start, the join delay if there is one, and last the Aura's start.
  pub start_order :
      (c : NativePairCore J A O) (r : PairActionReceipt)
      → (start jbl_ops aura_ops observer_ops c).0 ≡ accepted r
      → AcceptedOver PairLifecycle.linked
          (started c.join_delay c.trace)
          r
          c
          (start jbl_ops aura_ops observer_ops c).1
  unfolding start settled_in
  start_order c r h = ground (
    arith,
    lifecycle_eq_sound c.lifecycle PairLifecycle.linked,
    start_fresh_accepted (settled_in aura_ops PairLifecycle.linked c).1 r,
  )
