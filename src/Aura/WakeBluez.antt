-- ===== src/Aura/WakeBluez.antt =====
-- The BlueZ side of the wake in rust/src/aura_bluez.rs: `NativeAuraWakeBluez` and its observer, over
-- `bluer`, D-Bus and the clock, which act on the world `W`.
use jbl_aura_play_together.Base.{
  ℕ, ◌/◌, Bool, true, false, Option, none, some, List, [], ◌∷◌, ◌++◌, codes, Result, ok, err,
  if◌then◌else◌, ◌==◌,
}
use jbl_aura_play_together.Model.{DeviceIdentity, binary, matches_binary, joined, upper_hex_digit}
use jbl_aura_play_together.Native.Types.{AuraFailureReason}
use jbl_aura_play_together.Att.Action.{Action, ◌>>=◌, ◌>>◌, pure, ask, ensure}
use jbl_aura_play_together.Wake.{
  secs, AuraWakeIoFailure, unavailable, timed_out, rejected, StableAddressKind, public,
  StableAuraState, FddfAddressKind, resolvable_private, FreshFddfObservation, AuraWakeBluez,
  AuraWakeFddfObserver, aura_studio_5_product_id,
}
use jbl_aura_play_together.Aura.Scan.{AddressType, ScanTrace, scan_once}
use jbl_aura_play_together.Aura.Acquire.{stable_paired_address_type}
use jbl_aura_play_together.Aura.Release.{
  PropMap, get, MediaControlReleaseObservation, classify_media_control_release,
  wake_operation_deadline, ReleaseClock, poll_media_control_release, poll_fuel,
}

abbrev pub stable_connect_timeout : ℕ
stable_connect_timeout = secs 20

-- A call within a deadline: it misses it, fails or answers.
pub data Timed (A : Type 0) : Type 0 where
  elapsed failed : Timed A
  answered : A → Timed A

-- What the wake calls of `bluer` and D-Bus.
pub record WakePlatform (W : Type 0) : Type 0 where
  pub session : W → Timed (Unit {0}) × W
  pub adapter : W → Option (Unit {0}) × W
  pub is_powered : W → Timed Bool × W
  pub device : List ℕ → W → Option (Unit {0}) × W
  -- The address of the device that was opened for an address.
  pub device_address : List ℕ → List ℕ
  pub address_type : List ℕ → W → Timed AddressType × W
  pub is_paired : List ℕ → W → Timed Bool × W
  pub is_trusted : List ℕ → W → Timed Bool × W
  pub is_blocked : List ℕ → W → Timed Bool × W
  pub is_connected : List ℕ → W → Timed Bool × W
  pub connect_a2dp : List ℕ → W → Timed (Unit {0}) × W
  pub disconnect_a2dp : List ℕ → W → Timed (Unit {0}) × W
  pub set_discovery_filter : W → Timed (Unit {0}) × W
  pub device_addresses : W → Timed (List (List ℕ)) × W
  pub scan : List (List ℕ) → W → ScanTrace × W
  pub path_is_valid : List ℕ → Bool
  pub system_bus : W → Option (Unit {0}) × W
  pub managed_objects : ℕ → W → Option (List (List ℕ × List (List ℕ × PropMap))) × W
  pub now : W → ℕ × W
  pub pause : ℕ → W → W
  pub adapter_name : List ℕ
  pub service_uuid : ℕ
  pub overall_deadline : ℕ

abbrev pub answer_in_time : {A W : Type 0} → Timed A × W → Result A AuraWakeIoFailure × W
answer_in_time (elapsed, w) = (err timed_out, w)
answer_in_time (failed, w) = (err unavailable, w)
answer_in_time (answered a, w) = (ok a, w)

-- `wake_timeout_at`.
abbrev pub wake_timeout_at : {A W : Type 0} → (W → Timed A × W) → Action W AuraWakeIoFailure A
wake_timeout_at call w = answer_in_time (call w)

-- The two high bits of a resolvable private address are 01.
abbrev pub resolvable_private_address : List ℕ → Bool
resolvable_private_address [] = false
resolvable_private_address (b ∷ bytes) = b / 64 == 1

abbrev pub address_kind : AddressType → StableAddressKind
address_kind t = if stable_paired_address_type t then public else StableAddressKind.other

abbrev pub fddf_address_kind : List ℕ → FddfAddressKind
fddf_address_kind a =
    if resolvable_private_address a then resolvable_private else FddfAddressKind.other

-- What the observer reports of the device that the scan found.
abbrev pub observation_of :
    Result (Option (List ℕ)) AuraFailureReason
    → Result (Option FreshFddfObservation) AuraWakeIoFailure
observation_of (err reason) = err unavailable
observation_of (ok none) = ok none
observation_of (ok (some a)) = ok (
    some (record {
      fresh = true;
      address_kind = fddf_address_kind a;
      product_id = aura_studio_5_product_id;
      embedded_identity_matches = true;
    }))

unfoldable pub exact_device_object_path : List ℕ → DeviceIdentity → List ℕ
unfolding joined binary
exact_device_object_path adapter_name identity =
    codes "/org/bluez/"
    ++ adapter_name
    ++ codes "/dev_"
    ++ joined upper_hex_digit b'_' (binary identity)

abbrev pub polled :
    {W : Type 0} → Option (Result Bool AuraWakeIoFailure) × W → Result Bool AuraWakeIoFailure × W
polled (some r, w) = (r, w)
polled (none, w) = (err timed_out, w)

module _ {W : Type 0} (p : WakePlatform W) where
  unfoldable pub deadline_for : ℕ → Action W AuraWakeIoFailure ℕ
  unfolding wake_operation_deadline
  deadline_for requested w =
      let (now, w1) = p.now w in (wake_operation_deadline now p.overall_deadline requested, w1)

  unfoldable pub open_adapter : Action W AuraWakeIoFailure (Unit {0})
  open_adapter = do
    wake_timeout_at p.session
    ask p.adapter unavailable
    powered ← wake_timeout_at p.is_powered
    ensure powered unavailable

  unfoldable pub exact_stable_wake_device : DeviceIdentity → Action W AuraWakeIoFailure (Unit {0})
  unfolding open_adapter matches_binary
  exact_stable_wake_device identity = do
    open_adapter
    ask (p.device (binary identity)) unavailable
    ensure (matches_binary identity (p.device_address (binary identity))) rejected

  unfoldable pub inspect_stable_device : DeviceIdentity → Action W AuraWakeIoFailure StableAuraState
  unfolding deadline_for exact_stable_wake_device
  inspect_stable_device identity = do
    deadline ← deadline_for stable_connect_timeout
    exact_stable_wake_device identity
    address_type ← wake_timeout_at (p.address_type (binary identity))
    paired ← wake_timeout_at (p.is_paired (binary identity))
    trusted ← wake_timeout_at (p.is_trusted (binary identity))
    blocked ← wake_timeout_at (p.is_blocked (binary identity))
    pure (record {
      exact_identity = matches_binary identity (p.device_address (binary identity));
      address_kind = address_kind address_type;
      paired = paired;
      trusted = trusted;
      blocked = blocked;
    })

  unfoldable pub connect_profile : DeviceIdentity → ℕ → Action W AuraWakeIoFailure (Unit {0})
  unfolding deadline_for exact_stable_wake_device
  connect_profile identity timeout = do
    deadline ← deadline_for timeout
    exact_stable_wake_device identity
    wake_timeout_at (p.connect_a2dp (binary identity))

  unfoldable pub disconnect_profile : DeviceIdentity → ℕ → Action W AuraWakeIoFailure (Unit {0})
  unfolding deadline_for exact_stable_wake_device
  disconnect_profile identity timeout = do
    deadline ← deadline_for timeout
    exact_stable_wake_device identity
    wake_timeout_at (p.disconnect_a2dp (binary identity))

  -- The closure that `wait_profile_released` passes on: one reading of BlueZ's objects.
  unfoldable pub observe_release :
      List ℕ → ℕ → Action W AuraWakeIoFailure MediaControlReleaseObservation
  unfolding classify_media_control_release
  observe_release path remaining = do
    objects ← ask (p.managed_objects remaining) unavailable
    pure (classify_media_control_release (get objects path))

  unfoldable pub release_clock : List ℕ → ReleaseClock W
  unfolding observe_release
  release_clock path = record { now = p.now; observe = observe_release path; pause = p.pause }

  -- `wait_profile_released` where the device is still connected.
  unfoldable pub await_release : DeviceIdentity → ℕ → Action W AuraWakeIoFailure Bool
  unfolding exact_device_object_path release_clock poll_media_control_release
  await_release identity deadline = do
    ensure (p.path_is_valid (exact_device_object_path p.adapter_name identity)) rejected
    ask p.system_bus unavailable
    λ w. polled (
        poll_media_control_release
          (release_clock (exact_device_object_path p.adapter_name identity)) deadline
          (poll_fuel deadline) w)

  unfoldable pub wait_profile_released : DeviceIdentity → ℕ → Action W AuraWakeIoFailure Bool
  unfolding deadline_for exact_stable_wake_device await_release
  wait_profile_released identity timeout = do
    deadline ← deadline_for timeout
    exact_stable_wake_device identity
    still_connected ← wake_timeout_at (p.is_connected (binary identity))
    (if still_connected then await_release identity deadline else pure true)

  unfoldable pub wait_for_fresh_fddf :
      DeviceIdentity → ℕ → Action W AuraWakeIoFailure (Option FreshFddfObservation)
  unfolding deadline_for open_adapter scan_once
  wait_for_fresh_fddf identity timeout = do
    deadline ← deadline_for timeout
    open_adapter
    wake_timeout_at p.set_discovery_filter
    known ← wake_timeout_at p.device_addresses
    λ w.
        let (trace, w1) = p.scan known w in
        (observation_of (scan_once known p.service_uuid identity trace), w1)

  -- The two implementations of the wake's traits.
  unfoldable pub native_wake_bluez : AuraWakeBluez W
  unfolding inspect_stable_device connect_profile disconnect_profile wait_profile_released
  native_wake_bluez = record {
    inspect_stable_device = inspect_stable_device;
    connect_profile = connect_profile;
    disconnect_profile = disconnect_profile;
    wait_profile_released = wait_profile_released;
  }

  unfoldable pub native_fddf_observer : AuraWakeFddfObserver W
  unfolding wait_for_fresh_fddf
  native_fddf_observer = record { wait_for_fresh_fddf = wait_for_fresh_fddf }
