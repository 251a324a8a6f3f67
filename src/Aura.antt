-- ===== src/Aura.antt =====
-- rust/src/aura_bluez.rs: `AuraControlCore`, which puts the Aura's commands behind a latch, over any
-- `AuraIo`.
pub mod Once
pub mod ColdConnect
pub mod Att
pub mod Scan
pub mod Acquire
pub mod Health
pub mod Timings
pub mod Release
pub mod WakeBluez
pub mod Bluez
use jbl_aura_play_together.Base.{
  ℕ, Bool, true, false, Option, none, some, Result, ok, err, is_ok, if◌then◌else◌,
}
use jbl_aura_play_together.Backend.{AuraAcquisitionRoute}
use jbl_aura_play_together.Model.{DeviceIdentity}
use jbl_aura_play_together.AuraProtocol.{AuraPlayTogetherCommand, on, off}
use jbl_aura_play_together.Native.Types.{
  AuraHealth, AuraBearerTransport, AuraFailureReason, AuraActionResult, AuraRoleControl,
  is_aura_ready,
}

pub data AckObservation : Type 0 where
  accepted unexpected : AckObservation

pub record AuraIo (I : Type 0) : Type 0 where
  pub connect_verified : DeviceIdentity → I → Result (Unit {0}) AuraFailureReason × I
  pub health : I → AuraHealth × I
  pub prepare_command : I → Result (Unit {0}) AuraFailureReason × I
  pub begin_write : AuraPlayTogetherCommand → I → Result (Unit {0}) AuraFailureReason × I
  pub wait_for_ack : I → Result AckObservation AuraFailureReason × I
  pub shutdown : I → Result (Unit {0}) AuraFailureReason × I

pub record AuraControlCore (I : Type 0) : Type 0 where
  pub io : I
  pub unresolved : Option AuraFailureReason

abbrev pub new : {I : Type 0} → I → AuraControlCore I
new io = record { io = io; unresolved = none }

abbrev pub is_latched : {I : Type 0} → AuraControlCore I → Bool
is_latched c = elim c.unresolved as (λ _. Bool) [ some f ↦ true | none ↦ false ]

abbrev pub latch_unknown :
    {I : Type 0} → AuraFailureReason → AuraControlCore I → AuraActionResult × AuraControlCore I
latch_unknown reason c =
    (AuraActionResult.outcome_unknown reason, record c { unresolved = some reason })

module _ {I : Type 0} (io_ops : AuraIo I) where
  -- `connect_verified` behind the teardown of an uncertain bearer.
  unfoldable pub connect_bearer :
      DeviceIdentity → AuraControlCore I → Result (Unit {0}) AuraFailureReason × AuraControlCore I
  connect_bearer identity c =
      let (connected, io) = io_ops.connect_verified identity c.io in
      (
        connected,
        if is_ok connected then record { io = io; unresolved = none } else record c { io = io },
      )

  unfoldable pub connect_verified :
      DeviceIdentity → AuraControlCore I → Result (Unit {0}) AuraFailureReason × AuraControlCore I
  connect_verified identity c =
      let (released, io) = io_ops.shutdown c.io in
      if is_latched c
      then if is_ok released
        then connect_bearer identity (record c { io = io })
        else (released, record c { io = io })
      else connect_bearer identity c

  unfoldable pub health : AuraControlCore I → AuraHealth × AuraControlCore I
  health c =
      let (h, io) = io_ops.health c.io in
      if is_latched c then (AuraHealth.outcome_unknown, c) else (h, record c { io = io })

  -- `command` behind the write.
  unfoldable pub await_ack : AuraControlCore I → AuraActionResult × AuraControlCore I
  await_ack c =
      let (observed, io) = io_ops.wait_for_ack c.io in
      let c1 = record c { io = io } in
      elim observed [
        | ok observation ↦ elim observation [
          | accepted ↦ (AuraActionResult.accepted, c1)
          | unexpected ↦ latch_unknown AuraFailureReason.unexpected_acknowledgement c1
        ]
        | err reason ↦ latch_unknown reason c1
      ]

  -- `command` from the call of `begin_write` on.
  unfoldable pub write :
      AuraPlayTogetherCommand → AuraControlCore I → AuraActionResult × AuraControlCore I
  write command c =
      let (written, io) = io_ops.begin_write command c.io in
      let c1 = record c { io = io } in
      elim written [ ok _ ↦ await_ack c1 | err reason ↦ latch_unknown reason c1 ]

  -- `command` behind the health check.
  unfoldable pub prepare :
      AuraPlayTogetherCommand → AuraControlCore I → AuraActionResult × AuraControlCore I
  prepare command c =
      let (prepared, io) = io_ops.prepare_command c.io in
      let c1 = record c { io = io } in
      elim prepared [
        | ok _ ↦ write command c1
        | err reason ↦ (AuraActionResult.rejected_before_send reason, c1)
      ]

  unfoldable pub command :
      AuraPlayTogetherCommand → AuraControlCore I → AuraActionResult × AuraControlCore I
  command cmd c = elim c.unresolved [
    | some failure ↦ (AuraActionResult.outcome_unknown failure, c)
    | none ↦
        let (h, io) = io_ops.health c.io in
        let c1 = record c { io = io } in
        if is_aura_ready h
        then prepare cmd c1
        else (AuraActionResult.rejected_before_send AuraFailureReason.transport_not_ready, c1)
  ]

  unfoldable pub shutdown :
      AuraControlCore I → Result (Unit {0}) AuraFailureReason × AuraControlCore I
  shutdown c =
      let (released, io) = io_ops.shutdown c.io in
      (released, record { io = io; unresolved = if is_ok released then none else c.unresolved })

  -- `impl AuraRoleControl for BluezAuraTransport`, with the two readings of the bearer.
  unfoldable pub aura_control :
      (I → Option AuraBearerTransport)
      → (I → AuraAcquisitionRoute)
      → AuraRoleControl (AuraControlCore I)
  aura_control transport route = record {
    connect_verified = connect_verified;
    health = health;
    transport = λ c. transport c.io;
    acquisition_route = λ c. route c.io;
    start = command on;
    stop = command off;
    shutdown = shutdown;
  }
