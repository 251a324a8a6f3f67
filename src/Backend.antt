-- ===== src/Backend.antt =====
-- rust/src/backend.rs: the vocabulary of a whole-pair backend, its receipts and failures, and the
-- trait `PairBackend` as a record of operations on a backend state. Variants that the source
-- compiles only for its own tests (`cfg(test)`) are left out.
pub mod Transaction
use jbl_aura_play_together.Base.{
  ℕ, ◌≡◌, refl, Bool, true, false, not, ◌&&◌, ◌||◌, Option, none, some, Result, ◌==◌, arith, ap,
  if◌then◌else◌,
}

pub data PairBackendKind : Type 0 where
  legacy_v04_whole_pair native_pair : PairBackendKind

pub data PairLifecycle : Type 0 where
  offline initializing connecting ready linking linked unlinking : PairLifecycle
  degraded recovering shutting_down failed : PairLifecycle

pub data PairHealthLevel : Type 0 where
  healthy transitioning degraded unavailable : PairHealthLevel

pub data AuraControlTransport : Type 0 where
  le br_edr unresolved unknown : AuraControlTransport

pub data AuraAcquisitionRoute : Type 0 where
  stable_direct a2dp_wake_then_stable fresh_le unresolved : AuraAcquisitionRoute

pub data PairBackendEvidence : Type 0 where
  local_session_state lifecycle_acknowledgement : PairBackendEvidence
  broadcast_acknowledgement_only broadcast_business_notification : PairBackendEvidence

pub data PairBackendError : Type 0 where
  unavailable aura_adapter_unavailable aura_discovery_unavailable : PairBackendError
  aura_verified_advertisement_not_found aura_device_connection_failed : PairBackendError
  aura_wake_profile_connect_failed aura_wake_fddf_timed_out : PairBackendError
  aura_wake_fddf_invalid aura_wake_fddf_unavailable : PairBackendError
  aura_wake_profile_release_failed aura_gatt_profile_invalid : PairBackendError
  aura_notification_setup_failed aura_write_unknown : PairBackendError
  aura_acknowledgement_timed_out aura_acknowledgement_channel_closed : PairBackendError
  aura_unexpected_acknowledgement jbl_enter_outcome_unknown : PairBackendError
  jbl_exit_outcome_unknown jbl_broadcast_result_timed_out : PairBackendError
  jbl_broadcast_result_unavailable jbl_broadcast_result_rejected : PairBackendError
  aura_start_outcome_unknown backend_reported_failure : PairBackendError
  recovery_unsupported backend_changed_during_transaction : PairBackendError

-- The derived equality of an enum without fields compares discriminants.
abbrev pub kind_eq : PairBackendKind → PairBackendKind → Bool
kind_eq legacy_v04_whole_pair legacy_v04_whole_pair = true
kind_eq native_pair native_pair = true
kind_eq _ _ = false

abbrev pub lifecycle_index : PairLifecycle → ℕ
lifecycle_index offline = 0
lifecycle_index initializing = 1
lifecycle_index connecting = 2
lifecycle_index ready = 3
lifecycle_index linking = 4
lifecycle_index linked = 5
lifecycle_index unlinking = 6
lifecycle_index degraded = 7
lifecycle_index recovering = 8
lifecycle_index shutting_down = 9
lifecycle_index failed = 10

abbrev pub lifecycle_eq : PairLifecycle → PairLifecycle → Bool
lifecycle_eq a b = lifecycle_index a == lifecycle_index b

abbrev pub is_healthy : PairHealthLevel → Bool
is_healthy healthy = true
is_healthy _ = false

abbrev pub is_ack_only : PairBackendEvidence → Bool
is_ack_only broadcast_acknowledgement_only = true
is_ack_only _ = false

abbrev pub is_unresolved : AuraControlTransport → Bool
is_unresolved AuraControlTransport.unresolved = true
is_unresolved _ = false

abbrev pub is_ready_or_linked : PairLifecycle → Bool
is_ready_or_linked ready = true
is_ready_or_linked linked = true
is_ready_or_linked _ = false

pub health_level : PairLifecycle → PairHealthLevel
health_level ready = healthy
health_level linked = healthy
health_level initializing = transitioning
health_level connecting = transitioning
health_level linking = transitioning
health_level unlinking = transitioning
health_level recovering = transitioning
health_level shutting_down = transitioning
health_level degraded = PairHealthLevel.degraded
health_level offline = PairHealthLevel.unavailable
health_level failed = PairHealthLevel.unavailable

pub record PairHealth : Type 0 where
  pub backend : PairBackendKind
  pub lifecycle : PairLifecycle
  pub level : PairHealthLevel
  pub reported_error : Bool
  pub aura_transport : AuraControlTransport
  pub aura_acquisition_route : AuraAcquisitionRoute

unfoldable pub new_with_route :
    PairBackendKind
    → PairLifecycle
    → Bool
    → AuraControlTransport
    → AuraAcquisitionRoute
    → PairHealth
unfolding health_level
new_with_route kind state reported transport route = record {
  backend = kind;
  lifecycle = state;
  level =
      if reported && is_ready_or_linked state then PairHealthLevel.degraded else health_level state;
  reported_error = reported;
  aura_transport = transport;
  aura_acquisition_route = route;
}

pub record PairActionReceipt : Type 0 where
  pub backend : PairBackendKind
  pub lifecycle : PairLifecycle
  pub evidence : PairBackendEvidence
  pub idempotent : Bool

pub record PairActionFailure : Type 0 where
  pub backend : PairBackendKind
  pub reason : PairBackendError
  pub observed_lifecycle : Option PairLifecycle

pub data PairActionResult : Type 0 where
  accepted : PairActionReceipt → PairActionResult
  rejected_before_send : PairActionFailure → PairActionResult
  outcome_unknown : PairActionFailure → PairActionResult

-- `PairActionResult::backend` and `PairActionResult::observed_lifecycle`.
abbrev pub result_backend : PairActionResult → PairBackendKind
result_backend (accepted receipt) = receipt.backend
result_backend (rejected_before_send failure) = failure.backend
result_backend (outcome_unknown failure) = failure.backend

abbrev pub observed_lifecycle : PairActionResult → Option PairLifecycle
observed_lifecycle (accepted receipt) = some receipt.lifecycle
observed_lifecycle (rejected_before_send failure) = failure.observed_lifecycle
observed_lifecycle (outcome_unknown failure) = failure.observed_lifecycle

-- The trait `PairBackend` over a backend of type `B`; each `&mut self` method returns its result
-- and the backend afterwards.
pub record PairBackend (B : Type 0) : Type 0 where
  pub kind : B → PairBackendKind
  pub health : B → Result PairHealth PairBackendError × B
  pub start : B → PairActionResult × B
  pub stop : B → PairActionResult × B
  pub shutdown : B → PairActionResult × B
  pub recover_stop : B → PairActionResult × B
  pub teardown_transport : B → Result (Unit {0}) PairBackendError × B

-- The provided `PairBackend::recover_stop` of a backend that has none.
unfoldable pub default_recover_stop :
    {B : Type 0} → (B → PairBackendKind) → B → PairActionResult × B
default_recover_stop kind_of b = (
  rejected_before_send
      (record { backend = kind_of b; reason = recovery_unsupported; observed_lifecycle = none }),
  b,
)

pub lifecycle_eq_sound : (a b : PairLifecycle) → lifecycle_eq a b ≡ true → a ≡ b
lifecycle_eq_sound a b h = ground arith
