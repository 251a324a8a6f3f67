-- ===== src/Controller/State.antt =====
-- rust/src/controller.rs: the state of `PairController`, the closed tests on it, and how every
-- action ends (`finish`). The monotonic clock that `finish_with_evidence` and `last_action_status`
-- read is the argument `now`, in milliseconds.
use jbl_aura_play_together.Base.{
  ℕ, ◌-◌, Bool, true, false, not, ◌&&◌, Option, none, some, Result, ok, err, if◌then◌else◌,
  saturating_suc, u8_max, u64_max, min,
}
use jbl_aura_play_together.Backend.{
  native_pair, PairHealth, PairLifecycle, PairBackendEvidence, PairBackendError, kind_eq,
  lifecycle_eq, is_healthy, is_unresolved,
}
use jbl_aura_play_together.Controller.Types.{
  ControllerAction, start, stop, shutdown, recover_stop, ControllerActionOutcome, ControllerFailure,
  ManagedLiveState, PairConfigurationState, ControllerActionResult, RecordedAction,
  LastActionStatus,
}

pub record PairController (B P J : Type 0) : Type 0 where
  pub backend : B
  pub probe : P
  pub journal : J
  pub managed_state : ManagedLiveState
  pub unresolved_action : Bool
  pub consecutive_failures : ℕ
  pub revision : ℕ
  pub last_action : Option RecordedAction

unfoldable pub last_action_status : RecordedAction → ℕ → LastActionStatus
last_action_status recorded now = record {
  action = recorded.result.action;
  outcome = recorded.result.outcome;
  evidence = recorded.result.evidence;
  failure = recorded.result.failure;
  revision = recorded.result.revision;
  age_ms = min (now - recorded.recorded_at) u64_max;
}

-- The states that `is_idempotent` expects; `recover_stop` has none.
abbrev pub idempotent_state : ControllerAction → Option ManagedLiveState
idempotent_state start = some ManagedLiveState.linked
idempotent_state stop = some ManagedLiveState.ready
idempotent_state shutdown = some ManagedLiveState.offline
idempotent_state recover_stop = none

abbrev pub idempotent_lifecycle : ControllerAction → PairLifecycle
idempotent_lifecycle start = PairLifecycle.linked
idempotent_lifecycle stop = PairLifecycle.ready
idempotent_lifecycle shutdown = PairLifecycle.offline
idempotent_lifecycle recover_stop = PairLifecycle.offline

-- The test that `is_idempotent` makes of the backend's health.
unfoldable pub confirms : PairLifecycle → Result PairHealth PairBackendError → Bool
confirms expected (err e) = false
confirms expected (ok h) =
    lifecycle_eq h.lifecycle expected
    && is_healthy h.level
    && not h.reported_error
    && not (kind_eq h.backend native_pair && is_unresolved h.aura_transport)

-- The state while an action is under way, and after it was accepted.
abbrev pub transitional_state : ControllerAction → ManagedLiveState
transitional_state start = ManagedLiveState.linking
transitional_state stop = ManagedLiveState.unlinking
transitional_state shutdown = ManagedLiveState.shutting_down
transitional_state recover_stop = ManagedLiveState.recovering

abbrev pub expected_lifecycle : ControllerAction → PairLifecycle
expected_lifecycle start = PairLifecycle.linked
expected_lifecycle stop = PairLifecycle.ready
expected_lifecycle shutdown = PairLifecycle.shutting_down
expected_lifecycle recover_stop = PairLifecycle.ready

abbrev pub accepted_state : ControllerAction → ManagedLiveState
accepted_state start = ManagedLiveState.linked
accepted_state stop = ManagedLiveState.ready
accepted_state shutdown = ManagedLiveState.offline
accepted_state recover_stop = ManagedLiveState.ready

abbrev pub is_ready : PairConfigurationState → Bool
is_ready PairConfigurationState.ready = true
is_ready _ = false

-- `match (self.managed_state, healthy_lifecycle)` of `health_matches_managed_state`.
abbrev pub state_matches : ManagedLiveState → Option PairLifecycle → Bool
state_matches ManagedLiveState.linked (some l) = lifecycle_eq l PairLifecycle.linked
state_matches ManagedLiveState.linked none = false
state_matches ManagedLiveState.ready (some l) = lifecycle_eq l PairLifecycle.ready
state_matches ManagedLiveState.ready none = false
state_matches _ _ = true

abbrev pub healthy_lifecycle : Option PairHealth → Option PairLifecycle
healthy_lifecycle none = none
healthy_lifecycle (some h) =
    if is_healthy h.level && not h.reported_error then some h.lifecycle else none

unfoldable pub health_matches_managed_state : ManagedLiveState → Option PairHealth → Bool
health_matches_managed_state state health = state_matches state (healthy_lifecycle health)

-- `Result::ok`.
abbrev pub ok_of : {A E : Type 0} → Result A E → Option A
ok_of (ok a) = some a
ok_of (err e) = none

module _ {B P J : Type 0} where
  unfoldable pub bump_revision : PairController B P J → PairController B P J
  bump_revision c = record c { revision = saturating_suc u64_max c.revision }

  -- The assignments of `mutate` before the backend is called.
  unfoldable pub in_transit : PairController B P J → ControllerAction → PairController B P J
  unfolding bump_revision
  in_transit c action = bump_revision (record c { managed_state = transitional_state action })

  abbrev pub count_failure : PairController B P J → PairController B P J
  count_failure c = record c { consecutive_failures = saturating_suc u8_max c.consecutive_failures }

  unfoldable pub finish_with_evidence :
      PairController B P J
      → ControllerAction
      → ControllerActionOutcome
      → Option PairBackendEvidence
      → Option ControllerFailure
      → ℕ
      → ControllerActionResult × PairController B P J
  unfolding bump_revision
  finish_with_evidence c action outcome evidence failure now =
      let bumped = bump_revision c in
      let result : ControllerActionResult = record {
        action = action;
        outcome = outcome;
        managed_state = bumped.managed_state;
        evidence = evidence;
        failure = failure;
        revision = bumped.revision;
      } in
      (result, record bumped { last_action = some (record { result = result; recorded_at = now }) })

  unfoldable pub finish :
      PairController B P J
      → ControllerAction
      → ControllerActionOutcome
      → Option ControllerFailure
      → ℕ
      → ControllerActionResult × PairController B P J
  unfolding finish_with_evidence
  finish c action outcome failure now = finish_with_evidence c action outcome none failure now

  unfoldable pub reject_preflight :
      PairController B P J
      → ControllerAction
      → ControllerFailure
      → ℕ
      → ControllerActionResult × PairController B P J
  unfolding finish
  reject_preflight c action failure now =
      finish (count_failure c) action ControllerActionOutcome.rejected_before_send (some failure)
        now

  -- The assignments that every uncertain ending makes: one more failure, latched, state unknown.
  abbrev pub latch : PairController B P J → PairController B P J
  latch c = record (count_failure c) {
    unresolved_action = true;
    managed_state = ManagedLiveState.unknown;
  }

  unfoldable pub journal_commit_failed :
      PairController B P J → ControllerAction → ℕ → ControllerActionResult × PairController B P J
  unfolding finish
  journal_commit_failed c action now =
      finish (latch c) action ControllerActionOutcome.outcome_unknown
        (some ControllerFailure.journal_commit_failed) now
