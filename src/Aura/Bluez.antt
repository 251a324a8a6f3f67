-- ===== src/Aura/Bluez.antt =====
-- rust/src/aura_bluez.rs: `BluezIo`, the `AuraIo` over BlueZ and a raw ATT socket.
pub mod Log
pub mod Keeps
pub mod Promise
use jbl_aura_play_together.Base.{
  ℕ, Bool, true, false, Option, none, some, Result, ok, err, if◌then◌else◌, ◌&&◌,
}
use jbl_aura_play_together.Backend.{AuraAcquisitionRoute}
use jbl_aura_play_together.Model.{DeviceIdentity, identity_eq}
use jbl_aura_play_together.AuraProtocol.{AuraPlayTogetherCommand, frame}
use jbl_aura_play_together.Native.Types.{
  AuraFailureReason, AuraBearerTransport, AuraHealth, is_aura_ready,
}
use jbl_aura_play_together.Wake.{AuraWakeBluez, AuraWakeFddfObserver}
use jbl_aura_play_together.Att.{SeqPacket}
use jbl_aura_play_together.Aura.{AckObservation, AuraIo}
use jbl_aura_play_together.Aura.Att.{
  raw_att_send_command, raw_att_wait_for_notification, drain_raw_att_packets,
}
use jbl_aura_play_together.Aura.Acquire.{Bluer, RawAttBearer, connect_raw_att, connect_le_raw}
use jbl_aura_play_together.Aura.ColdConnect.{Radio, ColdConnectOps, native_ops, connect_cold_bearer}
use jbl_aura_play_together.Aura.Health.{FdProbe, raw_att_fd_is_healthy, project_bearer_health}

-- The state of `BluezIo`, with what its calls change outside.
pub record BluezIo (K R : Type 0) : Type 0 where
  pub bearer : Option (RawAttBearer K)
  pub radio : R

-- Everything outside that `BluezIo` calls, with the configured number of scans and the service UUID.
pub record Platform (K B O W : Type 0) : Type 0 where
  pub bluer : Bluer K W
  pub sockets : SeqPacket K W
  pub fds : FdProbe K W
  pub bluez : AuraWakeBluez B
  pub observer : AuraWakeFddfObserver O
  pub scan_attempts : ℕ
  pub service_uuid : ℕ

-- An action on the sockets' part of the radio.
abbrev pub on_raw : {A B O W : Type 0} → (W → A × W) → Radio B O W → A × Radio B O W
on_raw action r = let (a, w) = action r.raw in (a, record r { raw = w })

unfoldable pub is_bound_to : {K : Type 0} → DeviceIdentity → Option (RawAttBearer K) → Bool
unfolding identity_eq
is_bound_to identity none = false
is_bound_to identity (some bearer) = identity_eq bearer.expected_identity identity

module _ {K B O W : Type 0} (p : Platform K B O W) where
  -- `NativeColdConnectOps`, with the raw attempts of this platform.
  unfoldable pub cold_ops : DeviceIdentity → ColdConnectOps (RawAttBearer K) (Radio B O W)
  unfolding native_ops connect_raw_att connect_le_raw
  cold_ops identity =
      native_ops p.bluez p.observer
        (λ route. connect_raw_att p.bluer p.sockets p.service_uuid identity route)
        (connect_le_raw p.bluer p.sockets p.service_uuid p.scan_attempts identity) identity

  unfoldable pub cold_connect :
      DeviceIdentity → Radio B O W → Result (RawAttBearer K) AuraFailureReason × Radio B O W
  unfolding connect_cold_bearer cold_ops
  cold_connect identity = connect_cold_bearer (cold_ops identity)

  unfoldable pub health : BluezIo K (Radio B O W) → AuraHealth × BluezIo K (Radio B O W)
  unfolding raw_att_fd_is_healthy
  health io = elim io.bearer [
    | none ↦ (AuraHealth.offline, io)
    | some bearer ↦
        let (observed, radio) = on_raw (raw_att_fd_is_healthy p.fds bearer.socket) io.radio in
        let (seen, kept) = project_bearer_health io.bearer observed in
        (seen, record { bearer = kept; radio = radio })
  ]

  unfoldable pub shutdown :
      BluezIo K (Radio B O W) → Result (Unit {0}) AuraFailureReason × BluezIo K (Radio B O W)
  shutdown io = (ok tt, record io { bearer = none })

  -- `connect_verified` behind the test of the bearer at hand.
  unfoldable pub reconnect :
      DeviceIdentity
      → BluezIo K (Radio B O W)
      → Result (Unit {0}) AuraFailureReason × BluezIo K (Radio B O W)
  unfolding cold_connect
  reconnect identity io =
      let (connected, radio) = cold_connect identity io.radio in
      elim connected [
        | ok bearer ↦ (ok tt, record { bearer = some bearer; radio = radio })
        | err reason ↦ (err reason, record io { radio = radio })
      ]

  unfoldable pub connect_verified :
      DeviceIdentity
      → BluezIo K (Radio B O W)
      → Result (Unit {0}) AuraFailureReason × BluezIo K (Radio B O W)
  unfolding health shutdown reconnect is_bound_to
  connect_verified identity io =
      let (seen, probed) = health io in
      if is_bound_to identity io.bearer
      then if is_aura_ready seen then (ok tt, probed) else reconnect identity (shutdown probed).1
      else reconnect identity (shutdown io).1

  unfoldable pub prepare_command :
      BluezIo K (Radio B O W) → Result (Unit {0}) AuraFailureReason × BluezIo K (Radio B O W)
  unfolding drain_raw_att_packets
  prepare_command io = elim io.bearer [
    | none ↦ (err AuraFailureReason.transport_not_ready, io)
    | some bearer ↦
        let (drained, radio) = on_raw (drain_raw_att_packets p.sockets bearer.socket) io.radio in
        (drained, record io { radio = radio })
  ]

  unfoldable pub begin_write :
      AuraPlayTogetherCommand
      → BluezIo K (Radio B O W)
      → Result (Unit {0}) AuraFailureReason × BluezIo K (Radio B O W)
  unfolding raw_att_send_command
  begin_write command io = elim io.bearer [
    | none ↦ (err AuraFailureReason.transport_not_ready, io)
    | some bearer ↦
        let (written, radio) =
          on_raw (raw_att_send_command p.sockets bearer.socket (frame command)) io.radio in
        (written, record io { radio = radio })
  ]

  unfoldable pub wait_for_ack :
      BluezIo K (Radio B O W) → Result AckObservation AuraFailureReason × BluezIo K (Radio B O W)
  unfolding raw_att_wait_for_notification
  wait_for_ack io = elim io.bearer [
    | none ↦ (err AuraFailureReason.acknowledgement_channel_closed, io)
    | some bearer ↦
        let (observed, radio) =
          on_raw (raw_att_wait_for_notification p.sockets bearer.socket) io.radio in
        (observed, record io { radio = radio })
  ]

  -- `impl AuraIo for BluezIo`.
  unfoldable pub bluez_io : AuraIo (BluezIo K (Radio B O W))
  unfolding connect_verified health prepare_command begin_write wait_for_ack shutdown
  bluez_io = record {
    connect_verified = connect_verified;
    health = health;
    prepare_command = prepare_command;
    begin_write = begin_write;
    wait_for_ack = wait_for_ack;
    shutdown = shutdown;
  }

-- `BluezAuraTransport::transport` and its `acquisition_route`.
abbrev pub transport : {K R : Type 0} → BluezIo K R → Option AuraBearerTransport
transport io = elim io.bearer as (λ _. Option AuraBearerTransport) [
  | none ↦ none
  | some bearer ↦ some bearer.transport
]

abbrev pub acquisition_route : {K R : Type 0} → BluezIo K R → AuraAcquisitionRoute
acquisition_route io = elim io.bearer as (λ _. AuraAcquisitionRoute) [
  | none ↦ AuraAcquisitionRoute.unresolved
  | some bearer ↦ bearer.acquisition_route
]
