-- ===== src/Wake/Cleanup.antt =====
-- What a wake of rust/src/aura_wake.rs leaves connected.
use jbl_aura_play_together.Base.{
  ℕ, ◌≡◌, refl, ◌⊎◌, inl, inr, arith, Bool, true, false, not, ◌&&◌, ◌==◌, Option, some, none,
  Result, ok, err, Result-cases,
}
use jbl_aura_play_together.Model.{DeviceIdentity}
use jbl_aura_play_together.Wake.{
  AuraWakeBluez, AuraWakeFddfObserver, AuraWakeTimings, AuraWakeCleanup, AuraWakeSuccess,
  AuraWakeError, AuraWakeFailure, validate, validate_stable_state, validate_fddf, release_profile,
  observed, settle, connect_and_release, not_started, acquire_aura_wake, StableAuraState,
  FreshFddfObservation, is_public, is_resolvable_private, AuraWakeIoFailure,
  aura_studio_5_product_id,
}

abbrev pub is_release_failed : AuraWakeCleanup → Bool
is_release_failed AuraWakeCleanup.release_failed = true
is_release_failed _ = false

-- The documented behaviour of `wait_profile_released` and of a reading: `held` tells that the
-- profile may still be connected.
pub record ReportsRelease {B : Type 0} (bluez : AuraWakeBluez B) (held : B → Bool) : Type 0 where
  pub inspect : (id : DeviceIdentity) (b : B) → held (bluez.inspect_stable_device id b).1 ≡ held b
  pub wait :
      (id : DeviceIdentity) (t : ℕ) (b : B)
      → (bluez.wait_profile_released id t b).0 ≡ ok true
      → held (bluez.wait_profile_released id t b).1 ≡ false

-- BlueZ behind the reading, the connection and the disconnection of a wake.
abbrev pub disconnected : {B : Type 0} → AuraWakeBluez B → DeviceIdentity → AuraWakeTimings → B → B
disconnected bluez id t b =
    let connected =
      (bluez.connect_profile id t.connect_timeout (bluez.inspect_stable_device id b).1).1 in
    (bluez.disconnect_profile id t.release_timeout connected).1

-- What a successful wake of the speaker `id` has seen.
pub record Evidence {B O : Type 0} (bluez : AuraWakeBluez B) (observer : AuraWakeFddfObserver O)
    (id : DeviceIdentity) (t : AuraWakeTimings) (b : B) (o : O) : Type 0 where
  pub timings : validate t ≡ ok tt
  pub stable : StableAuraState
  pub inspected : (bluez.inspect_stable_device id b).0 ≡ ok stable
  pub admitted :
      stable.exact_identity
        && is_public stable.address_kind
        && stable.paired
        && stable.trusted
        && not stable.blocked
      ≡ true
  pub connected :
      (bluez.connect_profile id t.connect_timeout (bluez.inspect_stable_device id b).1).0 ≡ ok tt
  pub seen : FreshFddfObservation
  pub heard : (observer.wait_for_fresh_fddf id t.fddf_timeout o).0 ≡ ok (some seen)
  pub fresh :
      seen.fresh
        && is_resolvable_private seen.address_kind
        && seen.product_id == aura_studio_5_product_id
        && seen.embedded_identity_matches
      ≡ true
  pub released :
      (bluez.wait_profile_released id t.release_timeout (disconnected bluez id t b)).0 ≡ ok true

abbrev pub result_cleanup : Result AuraWakeSuccess AuraWakeError → AuraWakeCleanup
result_cleanup (ok success) = success.cleanup
result_cleanup (err error) = error.cleanup

module _ {B O : Type 0} (bluez : AuraWakeBluez B) (observer : AuraWakeFddfObserver O)
    (held : B → Bool) (reports : ReportsRelease bluez held) where
  release_profile-held :
      (id : DeviceIdentity) (t : ℕ) (b : B)
      → (is_release_failed (release_profile bluez id t b).0 ≡ true)
        ⊎ (held (release_profile bluez id t b).1 ≡ false)
  unfolding release_profile
  release_profile-held id t b =
      let after = (bluez.disconnect_profile id t b).1 in ground (arith, reports.wait id t after)

  settle_cleanup :
      (primary : Result (Unit {0}) AuraWakeFailure) (cleanup : AuraWakeCleanup)
      → is_release_failed cleanup ≡ is_release_failed (result_cleanup (settle primary cleanup))
  unfolding settle
  settle_cleanup primary cleanup = ground arith

  connect_and_release-held :
      (id : DeviceIdentity) (t : AuraWakeTimings) (s : B × O)
      → (is_release_failed (result_cleanup (connect_and_release bluez observer id t s).0) ≡ true)
        ⊎ (held (connect_and_release bluez observer id t s).1.0 ≡ false)
  unfolding connect_and_release settle
  connect_and_release-held id t s =
      let b = (bluez.connect_profile id t.connect_timeout s.0).1 in
      ground (arith, release_profile-held id t.release_timeout b)

  -- Where `wait_profile_released` and `inspect_stable_device` report truly and no A2DP profile is
  -- held before, a wake, successful or not, either reports `ReleaseFailed` or leaves none held.
  pub acquire_aura_wake-held :
      (id : DeviceIdentity) (t : AuraWakeTimings) (b : B) (o : O)
      → held b ≡ false
      → (is_release_failed (result_cleanup (acquire_aura_wake bluez observer id t (b, o)).0) ≡ true)
        ⊎ (held (acquire_aura_wake bluez observer id t (b, o)).1.0 ≡ false)
  unfolding acquire_aura_wake not_started
  acquire_aura_wake-held id t b o h =
      let b1 = (bluez.inspect_stable_device id b).1 in
      ground (arith, reports.inspect id b, connect_and_release-held id t (b1, o))

module _ {B O : Type 0} (bluez : AuraWakeBluez B) (observer : AuraWakeFddfObserver O) where
  release_profile_ok :
      (id : DeviceIdentity) (t : ℕ) (b : B)
      → (release_profile bluez id t b).0 ≡ AuraWakeCleanup.released
      → (bluez.wait_profile_released id t (bluez.disconnect_profile id t b).1).0 ≡ ok true
  unfolding release_profile
  release_profile_ok id t b h = ground arith

  settle_ok :
      (primary : Result (Unit {0}) AuraWakeFailure) (cleanup : AuraWakeCleanup)
      (success : AuraWakeSuccess)
      → settle primary cleanup ≡ ok success
      → (primary ≡ ok tt)
        × (cleanup ≡ AuraWakeCleanup.released)
        × (success.cleanup ≡ AuraWakeCleanup.released)
  unfolding settle
  settle_ok primary cleanup success h = ground arith

  observed_ok :
      (answer : Result (Option FreshFddfObservation) AuraWakeIoFailure)
      → observed answer ≡ ok tt
      → (seen : FreshFddfObservation) × (answer ≡ ok (some seen))
        × (seen.fresh
              && is_resolvable_private seen.address_kind
              && seen.product_id == aura_studio_5_product_id
              && seen.embedded_identity_matches
            ≡ true)
  unfolding observed validate_fddf
  observed_ok (ok (some seen)) h = (seen, refl, ground arith)
  observed_ok (ok none) h = absurd (ground arith)
  observed_ok (err failure) h = absurd (ground arith)

  connect_and_release_ok :
      (id : DeviceIdentity) (t : AuraWakeTimings) (b : B) (o : O) (success : AuraWakeSuccess)
      → (connect_and_release bluez observer id t (b, o)).0 ≡ ok success
      → ((bluez.connect_profile id t.connect_timeout b).0 ≡ ok tt)
        × (observed (observer.wait_for_fresh_fddf id t.fddf_timeout o).0 ≡ ok tt)
        × ((release_profile bluez id t.release_timeout
              (bluez.connect_profile id t.connect_timeout b).1).0
            ≡ AuraWakeCleanup.released)
        × (success.cleanup ≡ AuraWakeCleanup.released)
  unfolding connect_and_release
  connect_and_release_ok id t b o success h =
      let b1 = (bluez.connect_profile id t.connect_timeout b).1 in
      let cleanup = (release_profile bluez id t.release_timeout b1).0 in
      let primary = observed (observer.wait_for_fresh_fddf id t.fddf_timeout o).0 in
      ground (
        arith,
        settle_ok primary cleanup success,
        settle_ok (err AuraWakeFailure.profile_connect_failed) cleanup success,
      )

  -- The part of a successful wake that precedes the connection.
  acquire_aura_wake_ok :
      (id : DeviceIdentity) (t : AuraWakeTimings) (b : B) (o : O) (success : AuraWakeSuccess)
      → (acquire_aura_wake bluez observer id t (b, o)).0 ≡ ok success
      → (validate t ≡ ok tt)
        × ((stable : StableAuraState) × ((bluez.inspect_stable_device id b).0 ≡ ok stable)
            × (validate_stable_state stable ≡ ok tt))
        × ((connect_and_release bluez observer id t ((bluez.inspect_stable_device id b).1, o)).0
            ≡ ok success)
  unfolding acquire_aura_wake not_started
  acquire_aura_wake_ok id t b o success h =
      elim (Result-cases (bluez.inspect_stable_device id b).0) [
        | inr (failure, e) ↦ absurd (ground arith)
        | inl (stable, e) ↦ (ground arith, (stable, e, ground arith), ground arith)
      ]

  validate_stable_state_ok :
      (stable : StableAuraState)
      → validate_stable_state stable ≡ ok tt
      → stable.exact_identity
          && is_public stable.address_kind
          && stable.paired
          && stable.trusted
          && not stable.blocked
        ≡ true
  unfolding validate_stable_state
  validate_stable_state_ok stable h = ground arith

  pub acquire_aura_wake-released :
      (id : DeviceIdentity) (t : AuraWakeTimings) (b : B) (o : O) (success : AuraWakeSuccess)
      → (acquire_aura_wake bluez observer id t (b, o)).0 ≡ ok success
      → success.cleanup ≡ AuraWakeCleanup.released
  acquire_aura_wake-released id t b o success h =
      (connect_and_release_ok id t (bluez.inspect_stable_device id b).1 o success
        (acquire_aura_wake_ok id t b o success h).2).3

  -- A wake succeeds only with valid timings, for the exact, public, paired, trusted and unblocked
  -- device, after its profile connected, a fresh FDDF of the product bound its identity, and BlueZ,
  -- asked to disconnect the profile, reported it released.
  pub acquire_aura_wake-Evidence :
      (id : DeviceIdentity) (t : AuraWakeTimings) (b : B) (o : O) (success : AuraWakeSuccess)
      → (acquire_aura_wake bluez observer id t (b, o)).0 ≡ ok success
      → Evidence bluez observer id t b o × (success.cleanup ≡ AuraWakeCleanup.released)
  acquire_aura_wake-Evidence id t b o success h =
      let (timings, (stable, inspected, valid), connecting) =
        acquire_aura_wake_ok id t b o success h in
      let b1 = (bluez.inspect_stable_device id b).1 in
      let (connected, heard, cleaned, released) =
        connect_and_release_ok id t b1 o success connecting in
      let (seen, heard, fresh) =
        observed_ok (observer.wait_for_fresh_fddf id t.fddf_timeout o).0 heard in
      (
        record {
          timings = timings;
          stable = stable;
          inspected = inspected;
          admitted = validate_stable_state_ok stable valid;
          connected = connected;
          seen = seen;
          heard = heard;
          fresh = fresh;
          released =
              release_profile_ok id t.release_timeout
                (bluez.connect_profile id t.connect_timeout b1).1 cleaned;
        },
        released,
      )
