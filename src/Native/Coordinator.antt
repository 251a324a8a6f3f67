-- ===== src/Native/Coordinator.antt =====
-- rust/src/backend_native.rs, `ConfirmedBroadcastCoordinator` and `ProductionBroadcastObserver`: the
-- broadcast observers of the real backend, over a GATT transport that writes the command and a GENA
-- observer that waits for the speaker's own event. `trace` records the calls, newest first; it is
-- the model's own.
pub mod Evidence
use jbl_aura_play_together.Base.{
  ℕ, Bool, true, false, List, [], ◌∷◌, Result, ok, err, is_ok, if◌then◌else◌,
}
use jbl_aura_play_together.Model.{DeviceIdentity}
use jbl_aura_play_together.Control.{BroadcastCommand}
use jbl_aura_play_together.Native.Types.{
  BroadcastAction, BroadcastResultEvidence, BroadcastResultFailure, BroadcastResultObserver,
  JblGattFailure, GenaFailure, map_jbl_gatt_failure, map_gena_failure,
}

-- The enum `GenaAction` of rust/src/broadcast_gena.rs.
pub data GenaAction : Type 0 where
  start stop : GenaAction

pub record BroadcastMutationTransport (M : Type 0) : Type 0 where
  pub arm_mutation : DeviceIdentity → M → Result (Unit {0}) JblGattFailure × M
  pub execute_mutation : BroadcastCommand → M → Result (Unit {0}) JblGattFailure × M
  pub cancel_mutation : M → M

pub record BroadcastBusinessObserver (B : Type 0) : Type 0 where
  pub arm_business_observer : B → Result (Unit {0}) GenaFailure × B
  pub observe_business_result : GenaAction → B → Result (Unit {0}) GenaFailure × B
  pub cancel_business_observer : B → Result (Unit {0}) GenaFailure × B

pub data Event : Type 0 where
  business_armed mutation_armed mutation_executed : Bool → Event
  business_observed business_cancelled : Bool → Event
  mutation_cancelled : Event

pub record ConfirmedBroadcastCoordinator (B M : Type 0) : Type 0 where
  pub business : B
  pub mutation : M
  pub trace : List Event

abbrev pub command_of : BroadcastAction → DeviceIdentity → BroadcastCommand
command_of BroadcastAction.start identity = BroadcastCommand.start identity
command_of BroadcastAction.stop identity = BroadcastCommand.stop

abbrev pub gena_action : BroadcastAction → GenaAction
gena_action BroadcastAction.start = GenaAction.start
gena_action BroadcastAction.stop = GenaAction.stop

module _ {B M : Type 0} (business_ops : BroadcastBusinessObserver B)
    (mutation_ops : BroadcastMutationTransport M) where
  unfoldable pub cancel_all :
      ConfirmedBroadcastCoordinator B M
      → Result (Unit {0}) GenaFailure × ConfirmedBroadcastCoordinator B M
  cancel_all c =
      let (released, b) = business_ops.cancel_business_observer c.business in
      (
        released,
        record {
          business = b;
          mutation = mutation_ops.cancel_mutation c.mutation;
          trace = business_cancelled (is_ok released) ∷ mutation_cancelled ∷ c.trace;
        },
      )

  -- `arm` behind the GENA observer.
  unfoldable pub arm_transport :
      DeviceIdentity
      → ConfirmedBroadcastCoordinator B M
      → Result (Unit {0}) BroadcastResultFailure × ConfirmedBroadcastCoordinator B M
  arm_transport identity c =
      let (armed, m) = mutation_ops.arm_mutation identity c.mutation in
      let c1 = record c { mutation = m; trace = mutation_armed (is_ok armed) ∷ c.trace } in
      elim armed [
        | ok _ ↦ (ok tt, c1)
        | err failure ↦ (err (map_jbl_gatt_failure failure), (cancel_all c1).1)
      ]

  unfoldable pub arm :
      BroadcastAction
      → DeviceIdentity
      → ConfirmedBroadcastCoordinator B M
      → Result (Unit {0}) BroadcastResultFailure × ConfirmedBroadcastCoordinator B M
  arm action identity c =
      let (armed, b) = business_ops.arm_business_observer c.business in
      let c1 = record c { business = b; trace = business_armed (is_ok armed) ∷ c.trace } in
      elim armed [
        | ok _ ↦ arm_transport identity c1
        | err failure ↦ (err (map_gena_failure failure), (cancel_all c1).1)
      ]

  -- `execute` behind the write: the event is awaited, and both sides are released.
  unfoldable pub observe :
      BroadcastAction
      → ConfirmedBroadcastCoordinator B M
      → Result BroadcastResultEvidence BroadcastResultFailure × ConfirmedBroadcastCoordinator B M
  observe action c =
      let (result, b) = business_ops.observe_business_result (gena_action action) c.business in
      let (cleanup, c1) =
        cancel_all
          (record c { business = b; trace = business_observed (is_ok result) ∷ c.trace }) in
      elim result [
        | err failure ↦ (err (map_gena_failure failure), c1)
        | ok _ ↦ elim cleanup [
          | ok _ ↦ (ok BroadcastResultEvidence.confirmed_notification, c1)
          | err failure ↦ (err (map_gena_failure failure), c1)
        ]
      ]

  unfoldable pub execute :
      BroadcastAction
      → DeviceIdentity
      → ConfirmedBroadcastCoordinator B M
      → Result BroadcastResultEvidence BroadcastResultFailure × ConfirmedBroadcastCoordinator B M
  execute action identity c =
      let (written, m) = mutation_ops.execute_mutation (command_of action identity) c.mutation in
      let c1 = record c { mutation = m; trace = mutation_executed (is_ok written) ∷ c.trace } in
      elim written [
        | ok _ ↦ observe action c1
        | err failure ↦ (err (map_jbl_gatt_failure failure), (cancel_all c1).1)
      ]

  -- `impl BroadcastResultObserver for ConfirmedBroadcastCoordinator`.
  unfoldable pub coordinator : BroadcastResultObserver (ConfirmedBroadcastCoordinator B M)
  coordinator = record { arm = arm; execute = execute; cancel = λ c. (cancel_all c).1 }

-- The two observers that a configuration chooses from.
pub data ProductionBroadcastObserver (B M : Type 0) : Type 0 where
  ack : M → ProductionBroadcastObserver B M
  gena : ConfirmedBroadcastCoordinator B M → ProductionBroadcastObserver B M

module _ {B M : Type 0} (business_ops : BroadcastBusinessObserver B)
    (mutation_ops : BroadcastMutationTransport M) where
  unfoldable pub production_arm :
      BroadcastAction
      → DeviceIdentity
      → ProductionBroadcastObserver B M
      → Result (Unit {0}) BroadcastResultFailure × ProductionBroadcastObserver B M
  production_arm action identity (ack mutation) =
      let (armed, m) = mutation_ops.arm_mutation identity mutation in
      (elim armed [ ok _ ↦ ok tt | err failure ↦ err (map_jbl_gatt_failure failure) ], ack m)
  production_arm action identity (gena c) =
      let (armed, c1) = arm business_ops mutation_ops action identity c in (armed, gena c1)

  unfoldable pub production_execute :
      BroadcastAction
      → DeviceIdentity
      → ProductionBroadcastObserver B M
      → Result BroadcastResultEvidence BroadcastResultFailure × ProductionBroadcastObserver B M
  production_execute action identity (ack mutation) =
      let (written, m) = mutation_ops.execute_mutation (command_of action identity) mutation in
      (
        elim written [
          | ok _ ↦ ok BroadcastResultEvidence.ack_only
          | err failure ↦ err (map_jbl_gatt_failure failure)
        ],
        ack m,
      )
  production_execute action identity (gena c) =
      let (answer, c1) = execute business_ops mutation_ops action identity c in (answer, gena c1)

  unfoldable pub production_cancel :
      ProductionBroadcastObserver B M → ProductionBroadcastObserver B M
  production_cancel (ack mutation) = ack (mutation_ops.cancel_mutation mutation)
  production_cancel (gena c) = gena (cancel_all business_ops mutation_ops c).1

  -- `impl BroadcastResultObserver for ProductionBroadcastObserver`.
  unfoldable pub production_observer : BroadcastResultObserver (ProductionBroadcastObserver B M)
  production_observer = record {
    arm = production_arm;
    execute = production_execute;
    cancel = production_cancel;
  }
