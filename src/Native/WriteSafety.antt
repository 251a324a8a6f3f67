-- ===== src/Native/WriteSafety.antt =====
-- The contract of `RejectedBeforeSend` (rust/src/backend.rs) in rust/src/backend_native.rs.
use jbl_aura_play_together.Base.{
  ℕ, suc, ◌≡◌, refl, ap, Bool, true, false, arith, none, List, [], ◌∷◌, if◌then◌else◌, inl, inr,
  Result-cases,
}
use jbl_aura_play_together.Error.{is_control_command_rejected}
use jbl_aura_play_together.Backend.{PairLifecycle, PairActionResult}
use jbl_aura_play_together.Backend.Transaction.Pinning.{sends_nothing}
use jbl_aura_play_together.Native.Types.{
  BroadcastAction, BroadcastResultEvidence, PlayTogetherWriteResult, AuraActionResult,
  JblRoleControl, AuraRoleControl, BroadcastResultObserver,
}
use jbl_aura_play_together.Native.{
  NativePairCore, Call, aura_shutdown, aura_connect, aura_start, aura_stop, observer_arm,
  observer_execute, observer_cancel, jbl_enter, jbl_exit, join_delay_slept, latch_unknown,
  shut_aura, connect_aura, stop_aura, settled_in, acquire_fresh_aura_bearer, enter_jbl,
  arm_observer, execute_observer, cancel_observer, health,
}
use jbl_aura_play_together.Native.Actions.{
  start_join, start_broadcast, start_enter, start_arm, start_fresh, start, stop_exit,
  stop_broadcast, stop_receiver, stop_arm, stop_fresh, stop, shutdown_release, shutdown,
  recover_stop, native_backend,
}
use jbl_aura_play_together.Controller.Types.{ControllerAction}
use jbl_aura_play_together.Controller.Quiet.{KeepsContract, method}

-- Whether the answer to a call leaves open that a role command reached a device. The observer's
-- `execute` carries the broadcast command and counts whatever it answers.
abbrev pub jbl_may_have_sent : PlayTogetherWriteResult → Bool
jbl_may_have_sent PlayTogetherWriteResult.accepted = true
jbl_may_have_sent (PlayTogetherWriteResult.rejected e) = is_control_command_rejected e
jbl_may_have_sent (PlayTogetherWriteResult.outcome_unknown e) = true

abbrev pub aura_may_have_sent : AuraActionResult → Bool
aura_may_have_sent AuraActionResult.accepted = true
aura_may_have_sent (AuraActionResult.rejected_before_send f) = false
aura_may_have_sent (AuraActionResult.outcome_unknown f) = true

abbrev pub may_have_sent : Call → Bool
may_have_sent (aura_start r) = aura_may_have_sent r
may_have_sent (aura_stop r) = aura_may_have_sent r
may_have_sent (jbl_enter r) = jbl_may_have_sent r
may_have_sent (jbl_exit r) = jbl_may_have_sent r
may_have_sent (observer_execute a r) = true
may_have_sent (aura_shutdown r) = false
may_have_sent (aura_connect r) = false
may_have_sent (observer_arm a r) = false
may_have_sent observer_cancel = false
may_have_sent join_delay_slept = false

-- How many calls of a trace may have reached a device.
abbrev pub writes : List Call → ℕ
writes [] = 0
writes (x ∷ xs) = if may_have_sent x then suc (writes xs) else writes xs

module _ {J A O : Type 0} (jbl_ops : JblRoleControl J) (aura_ops : AuraRoleControl A)
    (observer_ops : BroadcastResultObserver O) where
  -- A rejected action has written nothing since the controller `c`.
  abbrev Clean : NativePairCore J A O → PairActionResult × NativePairCore J A O → Type 0
  Clean c x = sends_nothing x.0 ≡ true → writes x.1.trace ≡ writes c.trace

  start_join_rejects :
      (e : BroadcastResultEvidence) (c : NativePairCore J A O)
      → sends_nothing (start_join jbl_ops aura_ops observer_ops e c).0 ≡ false
  unfolding start_join latch_unknown
  start_join_rejects e c = ground arith

  start_broadcast_rejects :
      (c : NativePairCore J A O)
      → sends_nothing (start_broadcast jbl_ops aura_ops observer_ops c).0 ≡ false
  unfolding start_broadcast latch_unknown execute_observer
  start_broadcast_rejects c =
      elim (Result-cases
        (observer_ops.execute BroadcastAction.start c.jbl_identity c.broadcast_observer).0) [
          | inl (e, q) ↦ ground (
            arith,
            q,
            start_join_rejects e (execute_observer observer_ops BroadcastAction.start c).1,
          )
          | inr (f, q) ↦ ground (arith, q)
        ]

  start_enter-Clean :
      (c : NativePairCore J A O) → Clean c (start_enter jbl_ops aura_ops observer_ops c)
  unfolding start_enter latch_unknown enter_jbl cancel_observer
  start_enter-Clean c h = ground (arith, start_broadcast_rejects (enter_jbl jbl_ops c).1)

  start_arm-Clean : (c : NativePairCore J A O) → Clean c (start_arm jbl_ops aura_ops observer_ops c)
  unfolding start_arm arm_observer
  start_arm-Clean c h = ground (
    arith,
    start_enter-Clean
        (arm_observer observer_ops BroadcastAction.start
          (record c { lifecycle = PairLifecycle.linking })).1,
  )

  start_fresh-Clean :
      (c : NativePairCore J A O) → Clean c (start_fresh jbl_ops aura_ops observer_ops c)
  unfolding start_fresh acquire_fresh_aura_bearer shut_aura connect_aura
  start_fresh-Clean c h = ground (arith, start_arm-Clean (acquire_fresh_aura_bearer aura_ops c).1)

  start-Clean : (c : NativePairCore J A O) → Clean c (start jbl_ops aura_ops observer_ops c)
  unfolding start settled_in
  start-Clean c h = ground (arith, start_fresh-Clean (settled_in aura_ops PairLifecycle.linked c).1)

  stop_exit_rejects :
      (e : BroadcastResultEvidence) (c : NativePairCore J A O)
      → sends_nothing (stop_exit jbl_ops aura_ops observer_ops e c).0 ≡ false
  unfolding stop_exit latch_unknown
  stop_exit_rejects e c = ground arith

  stop_broadcast_rejects :
      (c : NativePairCore J A O)
      → sends_nothing (stop_broadcast jbl_ops aura_ops observer_ops c).0 ≡ false
  unfolding stop_broadcast latch_unknown execute_observer
  stop_broadcast_rejects c =
      elim (Result-cases
        (observer_ops.execute BroadcastAction.stop c.jbl_identity c.broadcast_observer).0) [
          | inl (e, q) ↦ ground (
            arith,
            q,
            stop_exit_rejects e (execute_observer observer_ops BroadcastAction.stop c).1,
          )
          | inr (f, q) ↦ ground (arith, q)
        ]

  stop_receiver-Clean :
      (c : NativePairCore J A O) → Clean c (stop_receiver jbl_ops aura_ops observer_ops c)
  unfolding stop_receiver latch_unknown stop_aura cancel_observer
  stop_receiver-Clean c h = ground (arith, stop_broadcast_rejects (stop_aura aura_ops c).1)

  stop_arm-Clean : (c : NativePairCore J A O) → Clean c (stop_arm jbl_ops aura_ops observer_ops c)
  unfolding stop_arm arm_observer
  stop_arm-Clean c h = ground (
    arith,
    stop_receiver-Clean
        (arm_observer observer_ops BroadcastAction.stop
          (record c { lifecycle = PairLifecycle.unlinking })).1,
  )

  stop_fresh-Clean :
      (c : NativePairCore J A O) → Clean c (stop_fresh jbl_ops aura_ops observer_ops c)
  unfolding stop_fresh acquire_fresh_aura_bearer shut_aura connect_aura
  stop_fresh-Clean c h = ground (arith, stop_arm-Clean (acquire_fresh_aura_bearer aura_ops c).1)

  stop-Clean : (c : NativePairCore J A O) → Clean c (stop jbl_ops aura_ops observer_ops c)
  unfolding stop settled_in
  stop-Clean c h = ground (arith, stop_fresh-Clean (settled_in aura_ops PairLifecycle.ready c).1)

  shutdown_release_rejects :
      (c : NativePairCore J A O)
      → sends_nothing (shutdown_release jbl_ops aura_ops observer_ops c).0 ≡ false
  unfolding shutdown_release latch_unknown
  shutdown_release_rejects c = ground arith

  shutdown-Clean : (c : NativePairCore J A O) → Clean c (shutdown jbl_ops aura_ops observer_ops c)
  unfolding shutdown
  shutdown-Clean c h = ground (
    arith,
    stop-Clean c,
    shutdown_release_rejects c,
    shutdown_release_rejects (stop jbl_ops aura_ops observer_ops c).1,
  )

  recover_stop-Clean :
      (c : NativePairCore J A O) → Clean c (recover_stop jbl_ops aura_ops observer_ops c)
  unfolding recover_stop shut_aura latch_unknown
  recover_stop-Clean c h = ground (
    arith,
    stop-Clean (record (shut_aura aura_ops (record c { lifecycle = PairLifecycle.recovering })).1 {
      unresolved = none;
      lifecycle = PairLifecycle.degraded;
    }),
  )

  health_quiet : (c : NativePairCore J A O) → (health aura_ops c).1.trace ≡ c.trace
  unfolding health
  health_quiet c = refl

  method-Clean :
      (a : ControllerAction) (c : NativePairCore J A O)
      → Clean c (method (native_backend jbl_ops aura_ops observer_ops) a c)
  unfolding native_backend
  method-Clean ControllerAction.start c = start-Clean c
  method-Clean ControllerAction.stop c = stop-Clean c
  method-Clean ControllerAction.shutdown c = shutdown-Clean c
  method-Clean ControllerAction.recover_stop c = recover_stop-Clean c

  -- The native backend keeps the contract of `RejectedBeforeSend`: whatever its collaborators
  -- answer, a health read and a start, stop, shutdown or recovery that is rejected before send have
  -- made no call that may have carried a role command to a device.
  pub native-KeepsContract :
      KeepsContract (native_backend jbl_ops aura_ops observer_ops) (λ c. writes c.trace)
  unfolding native_backend
  native-KeepsContract = record {
    health_quiet = λ c. ap writes (health_quiet c);
    rejected_quiet = λ a c h. method-Clean a c h;
  }
