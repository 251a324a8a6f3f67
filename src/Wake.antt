-- ===== src/Wake.antt =====
-- rust/src/aura_wake.rs: the temporary A2DP connection that makes the Aura advertise. A `Duration` is
-- its number of nanoseconds.
pub mod Cleanup
use jbl_aura_play_together.Base.{
  ℕ, ◌*◌, Bool, true, false, not, ◌&&◌, ◌||◌, ltb, ◌==◌, Option, none, some, Result, ok, err,
  if◌then◌else◌,
}
use jbl_aura_play_together.Model.{DeviceIdentity}

abbrev pub secs : ℕ → ℕ
secs n = n * 1000000000

abbrev pub aura_studio_5_product_id : ℕ
aura_studio_5_product_id = 0x212d

pub data AuraWakeIoFailure : Type 0 where
  unavailable timed_out rejected : AuraWakeIoFailure

pub data StableAddressKind : Type 0 where
  public other : StableAddressKind

pub record StableAuraState : Type 0 where
  pub exact_identity : Bool
  pub address_kind : StableAddressKind
  pub paired : Bool
  pub trusted : Bool
  pub blocked : Bool

pub data FddfAddressKind : Type 0 where
  resolvable_private other : FddfAddressKind

pub record FreshFddfObservation : Type 0 where
  pub fresh : Bool
  pub address_kind : FddfAddressKind
  pub product_id : ℕ
  pub embedded_identity_matches : Bool

-- Both traits, for the one profile `A2DP_SINK_PROFILE_UUID`.
pub record AuraWakeBluez (B : Type 0) : Type 0 where
  pub inspect_stable_device : DeviceIdentity → B → Result StableAuraState AuraWakeIoFailure × B
  pub connect_profile : DeviceIdentity → ℕ → B → Result (Unit {0}) AuraWakeIoFailure × B
  pub disconnect_profile : DeviceIdentity → ℕ → B → Result (Unit {0}) AuraWakeIoFailure × B
  pub wait_profile_released : DeviceIdentity → ℕ → B → Result Bool AuraWakeIoFailure × B

pub record AuraWakeFddfObserver (O : Type 0) : Type 0 where
  pub wait_for_fresh_fddf :
      DeviceIdentity → ℕ → O → Result (Option FreshFddfObservation) AuraWakeIoFailure × O

pub record AuraWakeTimings : Type 0 where
  pub connect_timeout : ℕ
  pub fddf_timeout : ℕ
  pub release_timeout : ℕ

pub data AuraWakeFailure : Type 0 where
  invalid_configuration stable_device_unavailable stable_identity_mismatch : AuraWakeFailure
  stable_address_invalid stable_device_not_paired stable_device_not_trusted : AuraWakeFailure
  stable_device_blocked profile_connect_failed fresh_fddf_unavailable : AuraWakeFailure
  fresh_fddf_timed_out fresh_fddf_invalid profile_release_failed : AuraWakeFailure

pub data AuraWakeCleanup : Type 0 where
  not_needed released release_failed : AuraWakeCleanup

pub record AuraWakeSuccess : Type 0 where
  pub fresh_fddf_verified : Bool
  pub cleanup : AuraWakeCleanup

pub record AuraWakeError : Type 0 where
  pub failure : AuraWakeFailure
  pub cleanup : AuraWakeCleanup

unfoldable pub validate : AuraWakeTimings → Result (Unit {0}) AuraWakeFailure
validate t =
    if t.connect_timeout == 0
      || ltb (secs 20) t.connect_timeout
      || t.fddf_timeout == 0
      || ltb (secs 30) t.fddf_timeout
      || t.release_timeout == 0
      || ltb (secs 10) t.release_timeout
    then err invalid_configuration
    else ok tt

abbrev pub default_timings : AuraWakeTimings
default_timings = record {
  connect_timeout = secs 20;
  fddf_timeout = secs 30;
  release_timeout = secs 5;
}

abbrev pub is_public : StableAddressKind → Bool
is_public public = true
is_public other = false

abbrev pub is_resolvable_private : FddfAddressKind → Bool
is_resolvable_private resolvable_private = true
is_resolvable_private other = false

unfoldable pub validate_stable_state : StableAuraState → Result (Unit {0}) AuraWakeFailure
validate_stable_state state =
    if not state.exact_identity
    then err stable_identity_mismatch
    else if not (is_public state.address_kind)
    then err stable_address_invalid
    else if not state.paired
    then err stable_device_not_paired
    else if not state.trusted
    then err stable_device_not_trusted
    else if state.blocked
    then err stable_device_blocked
    else ok tt

unfoldable pub validate_fddf : FreshFddfObservation → Result (Unit {0}) AuraWakeFailure
validate_fddf o =
    if o.fresh
      && is_resolvable_private o.address_kind
      && o.product_id == aura_studio_5_product_id
      && o.embedded_identity_matches
    then ok tt
    else err fresh_fddf_invalid

unfoldable pub release_profile :
    {B : Type 0} → AuraWakeBluez B → DeviceIdentity → ℕ → B → AuraWakeCleanup × B
release_profile bluez id timeout b =
    let b = (bluez.disconnect_profile id timeout b).1 in
    let (seen, b) = bluez.wait_profile_released id timeout b in
    (
      elim seen [
        | ok done ↦ if done then released else release_failed
        | err failure ↦ release_failed
      ],
      b,
    )

-- What the observer saw, as the primary result.
unfoldable pub observed :
    Result (Option FreshFddfObservation) AuraWakeIoFailure → Result (Unit {0}) AuraWakeFailure
unfolding validate_fddf
observed (ok (some o)) = validate_fddf o
observed (ok none) = err fresh_fddf_timed_out
observed (err failure) = err fresh_fddf_unavailable

-- The final `match (primary, cleanup)`. Its fourth case is the source's `unreachable!`.
unfoldable pub settle :
    Result (Unit {0}) AuraWakeFailure → AuraWakeCleanup → Result AuraWakeSuccess AuraWakeError
settle (ok _) released = ok (record { fresh_fddf_verified = true; cleanup = released })
settle (ok _) release_failed =
    err (record { failure = profile_release_failed; cleanup = release_failed })
settle (ok _) not_needed = err (record { failure = profile_release_failed; cleanup = not_needed })
settle (err failure) cleanup = err (record { failure = failure; cleanup = cleanup })

unfoldable pub not_started :
    {B O : Type 0} → AuraWakeFailure → B × O → Result AuraWakeSuccess AuraWakeError × (B × O)
not_started failure s = (err (record { failure = failure; cleanup = not_needed }), s)

module _ {B O : Type 0} (bluez : AuraWakeBluez B) (observer : AuraWakeFddfObserver O) where
  -- `acquire_aura_wake` from the call of `connect_profile` on.
  unfoldable pub connect_and_release :
      DeviceIdentity → AuraWakeTimings → B × O → Result AuraWakeSuccess AuraWakeError × (B × O)
  unfolding observed settle release_profile
  connect_and_release id t (b, o) =
      let (connected, b) = bluez.connect_profile id t.connect_timeout b in
      let (seen, heard) = observer.wait_for_fresh_fddf id t.fddf_timeout o in
      let (cleanup, b) = release_profile bluez id t.release_timeout b in
      elim connected [
        | ok _ ↦ (settle (observed seen) cleanup, (b, heard))
        | err failure ↦ (settle (err profile_connect_failed) cleanup, (b, o))
      ]

  unfoldable pub acquire_aura_wake :
      DeviceIdentity → AuraWakeTimings → B × O → Result AuraWakeSuccess AuraWakeError × (B × O)
  unfolding validate validate_stable_state not_started
  acquire_aura_wake id t (b, o) =
      let (inspected, b1) = bluez.inspect_stable_device id b in
      elim (validate t) [
        | err failure ↦ not_started failure (b, o)
        | ok _ ↦ elim inspected [
          | err failure ↦ not_started stable_device_unavailable (b1, o)
          | ok stable ↦ elim (validate_stable_state stable) [
            | err failure ↦ not_started failure (b1, o)
            | ok _ ↦ connect_and_release id t (b1, o)
          ]
        ]
      ]
