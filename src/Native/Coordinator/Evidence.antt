-- ===== src/Native/Coordinator/Evidence.antt =====
-- What the coordinator of rust/src/backend_native.rs does around its one write, and what its evidence
-- stands for.
use jbl_aura_play_together.Base.{
  ℕ, ◌+◌, ◌≡◌, ◌⊎◌, refl, arith, Bool, true, false, List, [], ◌∷◌, Result, ok, is_ok, inl, inr,
  Result-cases,
}
use jbl_aura_play_together.Model.{DeviceIdentity}
use jbl_aura_play_together.Native.Types.{
  BroadcastResultFailure, BroadcastAction, BroadcastResultEvidence,
}
use jbl_aura_play_together.Native.Coordinator.{
  BroadcastMutationTransport, BroadcastBusinessObserver, Event, business_armed, mutation_armed,
  mutation_executed, business_observed, business_cancelled, mutation_cancelled,
  ConfirmedBroadcastCoordinator, command_of, gena_action, cancel_all, arm_transport, arm, observe,
  execute, ProductionBroadcastObserver, ack, gena, production_execute,
}

-- The writes among the calls.
abbrev pub executions : List Event → ℕ
executions [] = 0
executions (mutation_executed b ∷ t) = executions t + 1
executions (business_armed b ∷ t) = executions t
executions (mutation_armed b ∷ t) = executions t
executions (business_observed b ∷ t) = executions t
executions (business_cancelled b ∷ t) = executions t
executions (mutation_cancelled ∷ t) = executions t

-- The last two calls have released both sides, the transport first.
abbrev pub is_released : List Event → Bool
is_released (business_cancelled b ∷ mutation_cancelled ∷ t) = true
is_released _ = false

-- Both sides have been released last: the calls are recorded, and what is left of the transport and of
-- the observer is what their cancellations return.
pub record IsReleased {B M : Type 0} (business_ops : BroadcastBusinessObserver B)
    (mutation_ops : BroadcastMutationTransport M) (c : ConfirmedBroadcastCoordinator B M)
    : Type 0 where
  pub calls : is_released c.trace ≡ true
  pub transport : (m : M) × (c.mutation ≡ mutation_ops.cancel_mutation m)
  pub observer : (b : B) × (c.business ≡ (business_ops.cancel_business_observer b).1)

-- The evidence that each observer of the configuration can report.
abbrev pub evidence_kind :
    {B M : Type 0} → ProductionBroadcastObserver B M → BroadcastResultEvidence
evidence_kind (ack m) = BroadcastResultEvidence.ack_only
evidence_kind (gena c) = BroadcastResultEvidence.confirmed_notification

module _ {B M : Type 0} (business_ops : BroadcastBusinessObserver B)
    (mutation_ops : BroadcastMutationTransport M) where
  cancel_all-IsReleased :
      (c : ConfirmedBroadcastCoordinator B M)
      → IsReleased business_ops mutation_ops (cancel_all business_ops mutation_ops c).1
  unfolding cancel_all
  cancel_all-IsReleased c = record {
    calls = refl;
    transport = (c.mutation, refl);
    observer = (c.business, refl);
  }

  observe-IsReleased :
      (a : BroadcastAction) (c : ConfirmedBroadcastCoordinator B M)
      → let d = (observe business_ops mutation_ops a c).1 in
        IsReleased business_ops mutation_ops d × (executions d.trace ≡ executions c.trace)
  unfolding observe
  observe-IsReleased a c =
      let (result, b) = business_ops.observe_business_result (gena_action a) c.business in
      let c1 = record c { business = b; trace = business_observed (is_ok result) ∷ c.trace } in
      let cancelled : (observe business_ops mutation_ops a c).1
          ≡ (cancel_all business_ops mutation_ops c1).1 =
        ground arith in
      rw cancelled (cancel_all-IsReleased c1, unfold cancel_all in refl)

  -- The coordinator behind the write.
  abbrev after_write :
      BroadcastAction
      → DeviceIdentity
      → ConfirmedBroadcastCoordinator B M
      → ConfirmedBroadcastCoordinator B M
  after_write a i c =
      let (written, m) = mutation_ops.execute_mutation (command_of a i) c.mutation in
      record c { mutation = m; trace = mutation_executed (is_ok written) ∷ c.trace }

  execute-IsReleased :
      (a : BroadcastAction) (i : DeviceIdentity) (c : ConfirmedBroadcastCoordinator B M)
      → let d = (execute business_ops mutation_ops a i c).1 in
        IsReleased business_ops mutation_ops d × (executions d.trace ≡ executions c.trace + 1)
  unfolding execute
  execute-IsReleased a i c =
      let c1 = after_write a i c in
      elim (Result-cases (mutation_ops.execute_mutation (command_of a i) c.mutation).0) [
        | inl (u, e) ↦
            let same_state : (execute business_ops mutation_ops a i c).1
                ≡ (observe business_ops mutation_ops a c1).1 =
              ground (arith, e) in
            let (released, once) = observe-IsReleased a c1 in
            rw same_state (released, omega (arith, once))
        | inr (f, e) ↦
            let same_state : (execute business_ops mutation_ops a i c).1
                ≡ (cancel_all business_ops mutation_ops c1).1 =
              ground (arith, e) in
            rw same_state (cancel_all-IsReleased c1, unfold cancel_all in refl)
      ]

  -- How an arming ends: with success, the observer armed before the transport, or with an error and
  -- both released.
  abbrev pub ArmedOrReleased :
      ConfirmedBroadcastCoordinator B M
      → Result (Unit {0}) BroadcastResultFailure × ConfirmedBroadcastCoordinator B M
      → Type 0
  ArmedOrReleased c x =
      ((is_ok x.0 ≡ true) × (x.1.trace ≡ mutation_armed true ∷ business_armed true ∷ c.trace))
      ⊎ ((is_ok x.0 ≡ false) × IsReleased business_ops mutation_ops x.1)

  arm_transport_released :
      (i : DeviceIdentity) (c d : ConfirmedBroadcastCoordinator B M)
      → d.trace ≡ business_armed true ∷ c.trace
      → let x = arm_transport business_ops mutation_ops i d in
        ArmedOrReleased c x × (executions x.1.trace ≡ executions c.trace)
  unfolding arm_transport
  arm_transport_released i c d h =
      let (armed, m) = mutation_ops.arm_mutation i d.mutation in
      let d1 = record d { mutation = m; trace = mutation_armed (is_ok armed) ∷ d.trace } in
      elim (Result-cases (mutation_ops.arm_mutation i d.mutation).0) [
        | inl (u, e) ↦ (inl (ground (arith, e), ground (arith, e, h)), ground (arith, e, h))
        | inr (f, e) ↦
            let same_state : (arm_transport business_ops mutation_ops i d).1
                ≡ (cancel_all business_ops mutation_ops d1).1 =
              ground (arith, e) in
            (
              inr (ground (arith, e), rw same_state (cancel_all-IsReleased d1)),
              rw same_state (unfold cancel_all in ground (arith, h)),
            )
      ]

  arm_released :
      (a : BroadcastAction) (i : DeviceIdentity) (c : ConfirmedBroadcastCoordinator B M)
      → let x = arm business_ops mutation_ops a i c in
        ArmedOrReleased c x × (executions x.1.trace ≡ executions c.trace)
  unfolding arm
  arm_released a i c =
      let (armed, b) = business_ops.arm_business_observer c.business in
      let c1 = record c { business = b; trace = business_armed (is_ok armed) ∷ c.trace } in
      elim (Result-cases (business_ops.arm_business_observer c.business).0) [
        | inl (u, e) ↦
            let same_result : arm business_ops mutation_ops a i c
                ≡ arm_transport business_ops mutation_ops i c1 =
              ground (arith, e) in
            rw same_result (arm_transport_released i c c1 (ground (arith, e)))
        | inr (f, e) ↦
            let same_state : (arm business_ops mutation_ops a i c).1
                ≡ (cancel_all business_ops mutation_ops c1).1 =
              ground (arith, e) in
            (
              inr (ground (arith, e), rw same_state (cancel_all-IsReleased c1)),
              rw same_state (unfold cancel_all in refl),
            )
      ]

  -- An arming that succeeds has armed the observer before the transport, one that fails has released
  -- both, and neither has written; an execution, however it ends, has written exactly once and
  -- released both.
  pub coordinator-IsReleased :
      (a : BroadcastAction) (i : DeviceIdentity) (c : ConfirmedBroadcastCoordinator B M)
      → (let x = arm business_ops mutation_ops a i c in
          ArmedOrReleased c x × (executions x.1.trace ≡ executions c.trace))
        × (let d = (execute business_ops mutation_ops a i c).1 in
            IsReleased business_ops mutation_ops d × (executions d.trace ≡ executions c.trace + 1))
  coordinator-IsReleased a i c = (arm_released a i c, execute-IsReleased a i c)

  observe_confirmed :
      (a : BroadcastAction) (c : ConfirmedBroadcastCoordinator B M) (e : BroadcastResultEvidence)
      → (observe business_ops mutation_ops a c).0 ≡ ok e
      → (e ≡ BroadcastResultEvidence.confirmed_notification)
        × ((observe business_ops mutation_ops a c).1.trace
            ≡ business_cancelled true ∷ mutation_cancelled ∷ business_observed true ∷ c.trace)
  unfolding observe cancel_all
  observe_confirmed a c e h = ground arith

  -- Where the coordinator reports an evidence, it is that of a notification: the command was written
  -- once, the speaker's own event was then observed, and both sides were released, all with success
  -- and with no other call between.
  pub execute_confirmed :
      (a : BroadcastAction) (i : DeviceIdentity) (c : ConfirmedBroadcastCoordinator B M)
      (e : BroadcastResultEvidence)
      → (execute business_ops mutation_ops a i c).0 ≡ ok e
      → (e ≡ BroadcastResultEvidence.confirmed_notification)
        × ((execute business_ops mutation_ops a i c).1.trace
            ≡ business_cancelled true
              ∷ mutation_cancelled
              ∷ business_observed true
              ∷ mutation_executed true
              ∷ c.trace)
  unfolding execute
  execute_confirmed a i c e h = ground (arith, observe_confirmed a (after_write a i c) e)

  -- The observer that only reads acknowledgements never claims a notification, the one that waits
  -- for the speaker's event never settles for an acknowledgement, and no execution turns the one
  -- into the other.
  pub production_execute_evidence :
      (a : BroadcastAction) (i : DeviceIdentity) (o : ProductionBroadcastObserver B M)
      (e : BroadcastResultEvidence)
      → (production_execute business_ops mutation_ops a i o).0 ≡ ok e
      → (e ≡ evidence_kind o)
        × (evidence_kind (production_execute business_ops mutation_ops a i o).1 ≡ evidence_kind o)
  unfolding production_execute
  production_execute_evidence a i (ack m) e h = ground arith
  production_execute_evidence a i (gena c) e h = ((execute_confirmed a i c e h).0, refl)
