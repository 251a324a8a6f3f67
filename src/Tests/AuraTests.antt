-- ===== src/Tests/AuraTests.antt =====
-- Tests of the Aura's transport, rust/src/aura_bluez.rs and aura_wake.rs.
use jbl_aura_play_together.Base.{
  ℕ, ◌+◌, ◌≤◌, ◌≡◌, ◌↔◌, refl, arith, Bool, true, false, Option, none, some, List, [], ◌∷◌, map,
  length, Result, ok, err,
}
use jbl_aura_play_together.Backend.{AuraAcquisitionRoute}
use jbl_aura_play_together.Model.{matches_binary, binary}
use jbl_aura_play_together.AuraProtocol.{on, off, frame}
use jbl_aura_play_together.Native.Types.{AuraFailureReason, AuraActionResult}
use jbl_aura_play_together.Att.{sent, Received, packet, receive_failed, pending, SeqPacket}
use jbl_aura_play_together.Wake.{
  AuraWakeBluez, AuraWakeFddfObserver, AuraWakeIoFailure, timed_out, StableAuraState, public,
  FreshFddfObservation, resolvable_private, AuraWakeCleanup, default_timings, acquire_aura_wake,
  connect_and_release,
}
use jbl_aura_play_together.Wake.Cleanup.{ReportsRelease, Evidence, acquire_aura_wake-Evidence}
use jbl_aura_play_together.Aura.{
  AuraControlCore, new, command, connect_verified, connect_bearer, prepare, write, await_ack,
}
use jbl_aura_play_together.Aura.Once.{
  Request, send, connect, read_health, close, run, serve, WroteOnce, command-WroteOnce,
}
use jbl_aura_play_together.Aura.Att.{enable_raw_att_notifications}
use jbl_aura_play_together.Aura.Scan.Fresh.{scan_once-Evidence}
use jbl_aura_play_together.Aura.Scan.Fresh
use jbl_aura_play_together.Aura.Scan
use jbl_aura_play_together.Aura.Timings
use jbl_aura_play_together.Aura.Scan.{
  AddressType, br_edr, le_random, Added, ScanEvent, device_added, device_removed, device_changed,
  DeviceProperty, service_data, ScanTrace, scan_once,
}
use jbl_aura_play_together.Aura.Acquire.{Bluer}
use jbl_aura_play_together.Aura.ColdConnect.{Radio, ColdConnectOps, connect_cold_bearer}
use jbl_aura_play_together.Aura.ColdConnect.Order.{
  attempt_of, recorded, admitted, connect_cold_bearer_order, native,
}
use jbl_aura_play_together.Aura.Health.{poll_returned, would_block}
use jbl_aura_play_together.Aura.Timings.{AuraBluezTimings, validate, IsPlanned, validate-IsPlanned}
use jbl_aura_play_together.Aura.Bluez.{BluezIo, Platform, bluez_io, is_bound_to}
use jbl_aura_play_together.Aura.Bluez.Log.{Logged}
use jbl_aura_play_together.Aura.Bluez.Promise.{
  platform, bluez_writes, bluez_io-WritesOnce, bluez_run_writes,
}
use jbl_aura_play_together.Aura.Release.{
  connected, ReleaseClock, poll_media_control_release, poll_fuel, poll_media_control_release_ends,
}
use jbl_aura_play_together.Tests.Fixtures.{aura_identity}

-- A socket whose answers are listed; the list is the world.
abbrev Script : Type 0
Script = List (List ℕ)

abbrev next : Script → Received × Script
next [] = (receive_failed, [])
next (bytes ∷ script) = (packet bytes, script)

abbrev sockets : SeqPacket (Unit {0}) Script
sockets = record {
  send = λ k bytes w. (sent (length bytes), w);
  recv = λ k w. next w;
  recv_now_or_never = λ k w. (pending, w);
}

abbrev some_unit : Script → Option (Unit {0}) × Script
some_unit w = (some tt, w)

abbrev some_true : Script → Option Bool × Script
some_true w = (some true, w)

abbrev no_scan : ScanTrace
no_scan = record { subscribes = λ a. false; discovers = true; events = [] }

abbrev bluer : Bluer (Unit {0}) Script
bluer = record {
  session = some_unit;
  adapter = some_unit;
  is_powered = some_true;
  adapter_address = λ w. (some [], w);
  device = λ a. some_unit;
  address_type = λ a w. (some br_edr, w);
  is_paired = λ a. some_true;
  is_trusted = λ a. some_true;
  is_blocked = λ a w. (some false, w);
  set_discovery_filter = some_unit;
  device_addresses = λ w. (some [], w);
  scan = λ known w. (no_scan, w);
  new_seq_packet = λ w. (some tt, w);
  bind = λ k a. some_unit;
  set_security_low = λ k. some_unit;
  connect = λ k a. some_unit;
  peer_addr_is = λ k a. some_true;
  deadline_passed = λ w. (false, w);
  sleep = λ w. w;
}

-- A BlueZ that connects the profile and releases it; the Boolean is whether it is connected.
abbrev public_device : StableAuraState
public_device = record {
  exact_identity = true;
  address_kind = public;
  paired = true;
  trusted = true;
  blocked = false;
}

abbrev bluez : AuraWakeBluez Bool
bluez = record {
  inspect_stable_device = λ id b. (ok public_device, b);
  connect_profile = λ id t b. (ok tt, true);
  disconnect_profile = λ id t b. (ok tt, false);
  wait_profile_released = λ id t b. (
    elim b as (λ _. Result Bool AuraWakeIoFailure) [ true ↦ err timed_out | false ↦ ok true ],
    b,
  );
}

bluez_reports : ReportsRelease bluez (λ b. b)
bluez_reports = record { inspect = λ id b. refl; wait = λ id t b h. ground arith }

abbrev fresh_fddf : FreshFddfObservation
fresh_fddf = record {
  fresh = true;
  address_kind = resolvable_private;
  product_id = 0x212d;
  embedded_identity_matches = true;
}

abbrev observer : AuraWakeFddfObserver (Unit {0})
observer = record { wait_for_fresh_fddf = λ id t o. (ok (some fresh_fddf), o) }

abbrev live : Platform (Unit {0}) Bool (Unit {0}) Script
live = record {
  bluer = bluer;
  sockets = sockets;
  fds = record {
    poll = λ k w. (
      poll_returned false
          (record { pollin = false; pollerr = false; pollhup = false; pollnval = false }),
      w,
    );
    peek = λ k w. (would_block, w);
  };
  bluez = bluez;
  observer = observer;
  scan_attempts = 3;
  service_uuid = 0xfddf;
}

abbrev World : Type 0
World = BluezIo (Unit {0}) (Radio Bool (Unit {0}) (Logged Script))

-- The answers to one connection and one acknowledged command.
abbrev answers : Script
answers = (0x13 ∷ []) ∷ (0x1b ∷ 0xec ∷ 0x03 ∷ 0xaa ∷ 0x00 ∷ 0x02 ∷ 0x13 ∷ 0x00 ∷ []) ∷ []

abbrev closed : AuraControlCore World
closed = new (record {
  bearer = none;
  radio = record { bluez = false; observer = tt; raw = record { outside = answers; packets = [] } };
})

abbrev session : List Request
session = connect aura_identity ∷ send on ∷ read_health ∷ send off ∷ close ∷ []

bluez_run_writes_example : bluez_writes live (run (bluez_io (platform live)) closed session).io ≤ 2
bluez_run_writes_example = bluez_run_writes live closed session

abbrev open_core : AuraControlCore World
unfolding run bluez_io
open_core = run (bluez_io (platform live)) closed (connect aura_identity ∷ [])

accepts : (command (bluez_io (platform live)) on open_core).0 ≡ AuraActionResult.accepted
unfolding bluez_io run serve command connect_verified connect_bearer is_bound_to
    enable_raw_att_notifications prepare write frame await_ack
accepts = refl

command-WroteOnce_example :
    WroteOnce (bluez_writes live) open_core (command (bluez_io (platform live)) on open_core)
command-WroteOnce_example =
    command-WroteOnce (bluez_io (platform live)) (bluez_writes live) (bluez_io-WritesOnce live) on
      open_core

-- Speakers whose stable attempt always fails.
abbrev failing : AuraAcquisitionRoute → Unit {0} → Result (Unit {0}) AuraFailureReason × Unit {0}
failing route r = (err AuraFailureReason.device_connection_failed, r)

abbrev le_answers : Unit {0} → Result (Unit {0}) AuraFailureReason × Unit {0}
le_answers r = (ok tt, r)

abbrev cold : ColdConnectOps (Unit {0}) (Radio Bool (Unit {0}) (Unit {0}))
cold = native bluez observer failing le_answers (λ b. b) bluez_reports aura_identity

abbrev radio : Radio Bool (Unit {0}) (Unit {0})
radio = record { bluez = false; observer = tt; raw = tt }

connect_cold_bearer_order_example :
    (let (result, (s1, steps)) = connect_cold_bearer (recorded (λ r. r.bluez) cold) (radio, []) in
      admitted result (map attempt_of steps) ≡ true)
connect_cold_bearer_order_example = connect_cold_bearer_order (λ r. r.bluez) cold radio

acquire_aura_wake-Evidence_example :
    Evidence bluez observer aura_identity default_timings false tt
    × (AuraWakeCleanup.released ≡ AuraWakeCleanup.released)
acquire_aura_wake-Evidence_example =
    acquire_aura_wake-Evidence bluez observer aura_identity default_timings false tt
      (record { fresh_fddf_verified = true; cleanup = AuraWakeCleanup.released })
      (unfold acquire_aura_wake connect_and_release in refl)

-- A scan that sees the speaker as a new object.
abbrev fddf_payload : List ℕ
fddf_payload = 0x2d ∷ 0x21 ∷ 0 ∷ 0 ∷ 0 ∷ 0 ∷ 0 ∷ 0 ∷ 0 ∷ 0 ∷ 0 ∷ 2 ∷ 0 ∷ 0 ∷ 0 ∷ 0 ∷ 2 ∷ []

abbrev seen_device : Added
seen_device = record {
  opened = true;
  subscribes = true;
  address_type = some le_random;
  current = some (some ((0xfddf, fddf_payload) ∷ []));
}

abbrev rotating : List ℕ
rotating = 0x40 ∷ 1 ∷ 2 ∷ 3 ∷ 4 ∷ 5 ∷ []

abbrev cached : List ℕ
cached = 0x41 ∷ 1 ∷ 2 ∷ 3 ∷ 4 ∷ 5 ∷ []

abbrev events : List ScanEvent
events = device_added cached seen_device ∷ device_added rotating seen_device ∷ []

abbrev one_scan : ScanTrace
one_scan = record { subscribes = λ a. true; discovers = true; events = events }

finds_new : scan_once (cached ∷ []) 0xfddf aura_identity one_scan ≡ ok (some rotating)
unfolding scan_once matches_binary binary
finds_new = refl

scan_once-Evidence_example :
    Scan.Fresh.Evidence 0xfddf aura_identity
      (cached ∷ [])
      (Scan.subscribe_known one_scan.subscribes (cached ∷ []))
      one_scan.events
      rotating
scan_once-Evidence_example =
    scan_once-Evidence 0xfddf aura_identity (cached ∷ []) one_scan rotating finds_new

validate-IsPlanned_example :
    (validate Timings.default_timings ≡ ok tt) ↔ IsPlanned Timings.default_timings
validate-IsPlanned_example = validate-IsPlanned Timings.default_timings

-- A clock that shows its own time, and a profile that stays connected.
abbrev clock : ReleaseClock ℕ
clock = record { now = λ t. (t, t); observe = λ d t. (ok connected, t + 1); pause = λ d t. t + d }

poll_media_control_release_ends_example :
    (r : Result Bool AuraWakeIoFailure) × ((poll_media_control_release clock 250000000
        (poll_fuel 250000000)
        0).0
      ≡ some r)
poll_media_control_release_ends_example =
    poll_media_control_release_ends clock 250000000 (λ t. t)
      (record {
        now_shows = λ t. refl;
        now_moves = λ t. omega arith;
        observe_moves = λ d t. omega arith;
        pause_moves = λ d t. omega arith;
      })
      0
