-- ===== src/Aura/Bluez/Promise.antt =====
-- `BluezIo` of rust/src/aura_bluez.rs keeps what the core relies on.
use jbl_aura_play_together.Base.{ℕ, ◌+◌, ◌≤◌, ◌≡◌, refl, inl, inr, arith, none, List, Option-cases}
use jbl_aura_play_together.Backend.{AuraAcquisitionRoute}
use jbl_aura_play_together.Model.{DeviceIdentity}
use jbl_aura_play_together.AuraProtocol.{AuraPlayTogetherCommand, frame}
use jbl_aura_play_together.Att.Action.{Keeps}
use jbl_aura_play_together.Aura.{AuraControlCore}
use jbl_aura_play_together.Aura.Once.{WritesOnce, Request, run, sends, writes-run}
use jbl_aura_play_together.Aura.Att.{drain_raw_att_packets}
use jbl_aura_play_together.Aura.ColdConnect.{Radio, native_ops, native_wake_once}
use jbl_aura_play_together.Aura.Health.{raw_att_fd_is_healthy}
use jbl_aura_play_together.Aura.Bluez.{
  BluezIo, Platform, cold_ops, cold_connect, health, shutdown, reconnect, connect_verified,
  prepare_command, begin_write, wait_for_ack, bluez_io,
}
use jbl_aura_play_together.Aura.Bluez.Log.{Logged, log_platform, raw_writes}
use jbl_aura_play_together.Aura.ColdConnect.Keeps.{connect_cold_bearer-Keeps}
use jbl_aura_play_together.Aura.Bluez.Keeps.{
  connect_raw_att-Keeps, connect_le_raw-Keeps, send_command_once, wait-Keeps, drain-Keeps,
}

module _ {K B O W : Type 0} (outside : Platform K B O W) where
  abbrev pub platform : Platform K B O (Logged W)
  platform = log_platform outside

  -- The role frames that have been handed to a socket.
  abbrev pub bluez_writes : BluezIo K (Radio B O (Logged W)) → ℕ
  bluez_writes io = raw_writes io.radio.raw

  wake_once-Keeps :
      (identity : DeviceIdentity)
      → Keeps (λ r. raw_writes r.raw) (cold_ops platform identity).wake_once
  unfolding cold_ops native_ops native_wake_once
  wake_once-Keeps identity r = ground arith

  connect_stable-Keeps :
      (identity : DeviceIdentity) (route : AuraAcquisitionRoute)
      → Keeps (λ r. raw_writes r.raw) ((cold_ops platform identity).connect_stable route)
  unfolding cold_ops native_ops
  connect_stable-Keeps identity route r =
      connect_raw_att-Keeps outside.bluer outside.sockets outside.service_uuid identity route r.raw

  connect_le-Keeps :
      (identity : DeviceIdentity)
      → Keeps (λ r. raw_writes r.raw) (cold_ops platform identity).connect_le
  unfolding cold_ops native_ops
  connect_le-Keeps identity r =
      connect_le_raw-Keeps outside.bluer outside.sockets outside.service_uuid outside.scan_attempts
        identity r.raw

  cold_connect-Keeps :
      (identity : DeviceIdentity) → Keeps (λ r. raw_writes r.raw) (cold_connect platform identity)
  unfolding cold_connect
  cold_connect-Keeps identity =
      connect_cold_bearer-Keeps (λ r. raw_writes r.raw) (cold_ops platform identity)
        (connect_stable-Keeps identity) (wake_once-Keeps identity) (connect_le-Keeps identity)

  health-Keeps :
      (io : BluezIo K (Radio B O (Logged W)))
      → bluez_writes (health platform io).1 ≡ bluez_writes io
  unfolding health raw_att_fd_is_healthy
  health-Keeps io = ground arith

  reconnect-Keeps :
      (identity : DeviceIdentity) (io : BluezIo K (Radio B O (Logged W)))
      → bluez_writes (reconnect platform identity io).1 ≡ bluez_writes io
  unfolding reconnect
  reconnect-Keeps identity io = ground (arith, cold_connect-Keeps identity io.radio)

  connect_verified-Keeps :
      (identity : DeviceIdentity) (io : BluezIo K (Radio B O (Logged W)))
      → bluez_writes (connect_verified platform identity io).1 ≡ bluez_writes io
  unfolding connect_verified shutdown
  connect_verified-Keeps identity io = ground (
    arith,
    health-Keeps io,
    reconnect-Keeps identity (record (health platform io).1 { bearer = none }),
    reconnect-Keeps identity (record io { bearer = none }),
  )

  prepare-Keeps :
      (io : BluezIo K (Radio B O (Logged W)))
      → bluez_writes (prepare_command platform io).1 ≡ bluez_writes io
  unfolding prepare_command drain_raw_att_packets
  prepare-Keeps io = elim (Option-cases io.bearer) [
    | inl e ↦ ground arith
    | inr (bearer, e) ↦ ground (
      arith,
      drain-Keeps outside.bluer outside.sockets outside.service_uuid 32 bearer.socket io.radio.raw,
    )
  ]

  begin_write_once :
      (command : AuraPlayTogetherCommand) (io : BluezIo K (Radio B O (Logged W)))
      → bluez_writes (begin_write platform command io).1 ≤ bluez_writes io + 1
  unfolding begin_write
  begin_write_once command io = elim (Option-cases io.bearer) [
    | inl e ↦ ground arith
    | inr (bearer, e) ↦ ground (
      arith,
      send_command_once outside.bluer outside.sockets outside.service_uuid bearer.socket
          (frame command) io.radio.raw,
    )
  ]

  wait_for_ack-Keeps :
      (io : BluezIo K (Radio B O (Logged W)))
      → bluez_writes (wait_for_ack platform io).1 ≡ bluez_writes io
  unfolding wait_for_ack
  wait_for_ack-Keeps io = elim (Option-cases io.bearer) [
    | inl e ↦ ground arith
    | inr (bearer, e) ↦ ground (
      arith,
      wait-Keeps outside.bluer outside.sockets outside.service_uuid bearer.socket io.radio.raw,
    )
  ]

  -- `BluezIo` implements the interface of the core: whatever BlueZ and the sockets answer, no
  -- connection, wake, probe, drain, wait or teardown hands a role frame to a socket, and one
  -- `begin_write` hands over one at most.
  pub bluez_io-WritesOnce : WritesOnce (bluez_io platform) bluez_writes
  unfolding bluez_io shutdown
  bluez_io-WritesOnce = record {
    health = health-Keeps;
    prepare = prepare-Keeps;
    begin_write = begin_write_once;
    wait = wait_for_ack-Keeps;
    connect = connect_verified-Keeps;
    shutdown = λ io. refl;
  }

  -- Over BlueZ and real sockets, whatever they answer, a session hands at most as many role frames to
  -- a socket as it has commands.
  pub bluez_run_writes :
      (c : AuraControlCore (BluezIo K (Radio B O (Logged W)))) (rs : List Request)
      → bluez_writes (run (bluez_io platform) c rs).io ≤ bluez_writes c.io + sends rs
  bluez_run_writes c rs = writes-run (bluez_io platform) bluez_writes bluez_io-WritesOnce c rs
