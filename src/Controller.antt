-- ===== src/Controller.antt =====
-- rust/src/controller.rs, `PairController::mutate` and `status`, over any backend, membership probe
-- and uncertainty journal. A `&mut self` method returns its result and the controller afterwards.
pub mod Types
pub mod Failures
pub mod State
pub mod Reduce
pub mod Observation
pub mod Latch
pub mod Evidence
pub mod Gate
pub mod Endings
pub mod Session
pub mod Owing
pub mod Quiet
use jbl_aura_play_together.Base.{
  ℕ, ◌+◌, ◌-◌, Bool, true, false, not, ◌&&◌, ◌||◌, ltb, Option, none, some, Result, ok, err, is_ok,
  if◌then◌else◌, saturating_suc, u8_max, u64_max, min,
}
use jbl_aura_play_together.Backend.{
  PairBackend, PairBackendKind, native_pair, PairHealth, PairLifecycle, PairActionReceipt,
  PairActionResult, accepted, rejected_before_send, outcome_unknown, PairBackendEvidence,
  PairBackendError, kind_eq, lifecycle_eq, is_healthy, is_unresolved, is_ack_only,
}
use jbl_aura_play_together.Backend.Transaction
use jbl_aura_play_together.Journal.{UncertaintyJournal}
use mathlib.Core.Option
use jbl_aura_play_together.Controller.Types.{
  ControllerAction, start, stop, shutdown, recover_stop, ControllerActionOutcome, ControllerFailure,
  ManagedLiveState, PairConfigurationState, PairMembers, PairConfigurationProbe,
  ControllerActionResult, RecordedAction, LastActionStatus, ControllerStatus, journal_action,
  action_eq, managed_eq, unavailable_members, PairMemberVerification,
}
use jbl_aura_play_together.Controller.State.{
  PairController, last_action_status, idempotent_state, idempotent_lifecycle, confirms,
  transitional_state, expected_lifecycle, accepted_state, is_ready, health_matches_managed_state,
  ok_of, bump_revision, in_transit, count_failure, finish_with_evidence, finish, reject_preflight,
  latch, journal_commit_failed,
}
use jbl_aura_play_together.Controller.Reduce.{read_pair_configuration, reduce_backend_result}

module _ {B P J : Type 0} (journal_ops : UncertaintyJournal J) where
  unfoldable pub with_journal : B → P → J → PairController B P J
  with_journal b p j = record {
    backend = b;
    probe = p;
    journal = j;
    managed_state = ManagedLiveState.unknown;
    unresolved_action = journal_ops.is_pending j;
    consecutive_failures = if journal_ops.is_pending j then 1 else 0;
    revision = 0;
    last_action = none;
  }

module _ {B P J : Type 0} (ops : PairBackend B) where
  unfoldable pub is_idempotent :
      PairController B P J → ControllerAction → Bool × PairController B P J
  unfolding confirms
  is_idempotent c action = elim (idempotent_state action) [
    | none ↦ (false, c)
    | some expected ↦
        let (health, b) = ops.health c.backend in
        if managed_eq c.managed_state expected
        then (confirms (idempotent_lifecycle action) health, record c { backend = b })
        else (false, c)
  ]

  unfoldable pub teardown_transport_for_exit :
      PairController B P J → Result (Unit {0}) PairBackendError × PairController B P J
  teardown_transport_for_exit c =
      let (released, b) = ops.teardown_transport c.backend in (released, record c { backend = b })

module _ {B : Type 0} (ops : PairBackend B) where
  -- The transaction of `mutate`: the backend is pinned for one call.
  unfoldable pub attempt : ControllerAction → B → PairActionResult × B
  unfolding Transaction.begin Transaction.start Transaction.stop Transaction.shutdown
      Transaction.recover_stop
  attempt action b =
      let t = Transaction.begin ops b in
      let (result, t') : PairActionResult × Transaction.PairBackendTransaction B = elim action [
        | start ↦ Transaction.start ops t
        | stop ↦ Transaction.stop ops t
        | shutdown ↦ Transaction.shutdown ops t
        | recover_stop ↦ Transaction.recover_stop ops t
      ] in
      (result, t'.backend)

module _ {B P J : Type 0} (ops : PairBackend B) where
  -- The controller that the result of the backend's action is reduced into.
  unfoldable pub acted : PairController B P J → ControllerAction → PairController B P J
  unfolding in_transit
  acted c action = record (in_transit c action) { backend = (attempt ops action c.backend).1 }

module _ {B P J : Type 0} (ops : PairBackend B) (probe_ops : PairConfigurationProbe P) where
  -- `status`.
  unfoldable pub status : PairController B P J → ℕ → ControllerStatus × PairController B P J
  unfolding read_pair_configuration health_matches_managed_state bump_revision last_action_status
  status c now =
      let (configuration, c1) = read_pair_configuration probe_ops c in
      let (reported, b) = ops.health c1.backend in
      let health = ok_of reported in
      let c2 = record c1 { backend = b } in
      let lost_backend =
        not (managed_eq c.managed_state ManagedLiveState.offline) && not (is_ok reported) in
      let membership_not_confirmed =
        not (is_ready configuration.0) && managed_eq c.managed_state ManagedLiveState.linked in
      let contradictory_health = not (health_matches_managed_state c.managed_state health) in
      let c3 =
        if lost_backend || membership_not_confirmed || contradictory_health
        then record c2 { managed_state = ManagedLiveState.unknown }
        else c2 in
      let c4 = if managed_eq c3.managed_state c.managed_state then c3 else bump_revision c3 in
      (
        record {
          backend = ops.kind c4.backend;
          pair_configuration = configuration.0;
          members = configuration.1;
          managed_state = c4.managed_state;
          backend_health = health;
          unresolved_action = c4.unresolved_action;
          consecutive_failures = c4.consecutive_failures;
          revision = c4.revision;
          last_action = Option.map (λ r. last_action_status r now) c4.last_action;
        },
        c4,
      )

module _ {B P J : Type 0} (ops : PairBackend B) (probe_ops : PairConfigurationProbe P)
    (journal_ops : UncertaintyJournal J) where
  -- `mutate` behind the journal: the state in transit, the backend's action, the reduction.
  unfoldable pub execute :
      PairController B P J
      → ControllerAction
      → Bool
      → ℕ
      → ControllerActionResult × PairController B P J
  execute c action had_pending now =
      reduce_backend_result probe_ops journal_ops (acted ops c action) action
        (attempt ops action c.backend).0 had_pending now

  -- `mutate` behind the idempotence test.
  unfoldable pub journalled :
      PairController B P J
      → ControllerAction
      → Bool
      → ℕ
      → ControllerActionResult × PairController B P J
  unfolding finish
  journalled c action had_pending now =
      let (marked, j) = journal_ops.mark_pending (journal_action action) c.journal in
      let c' = record c { journal = j } in
      let refused = count_failure c' in
      if is_ok marked
      then execute c' action had_pending now
      else finish
          (if journal_ops.is_pending j
            then record refused {
              unresolved_action = true;
              managed_state = ManagedLiveState.unknown;
            }
            else refused)
          action ControllerActionOutcome.rejected_before_send
          (some ControllerFailure.journal_unavailable) now

  -- `mutate` behind the membership preflight.
  unfoldable pub admitted :
      PairController B P J
      → ControllerAction
      → Bool
      → ℕ
      → ControllerActionResult × PairController B P J
  unfolding finish
  admitted c action had_pending now =
      let (already, c') = is_idempotent ops c action in
      if already
      then finish (record c' { consecutive_failures = 0 }) action ControllerActionOutcome.idempotent
          none now
      else journalled c' action had_pending now

  -- `mutate` behind the early returns.
  unfoldable pub preflight :
      PairController B P J
      → ControllerAction
      → Bool
      → ℕ
      → ControllerActionResult × PairController B P J
  unfolding reject_preflight
  preflight c action had_pending now =
      let (configuration, c') = read_pair_configuration probe_ops c in
      elim configuration.0 [
        | PairConfigurationState.ready ↦ admitted c' action had_pending now
        | PairConfigurationState.not_ready ↦
            reject_preflight c' action ControllerFailure.expected_pair_not_configured now
        | PairConfigurationState.unavailable ↦
            reject_preflight c' action ControllerFailure.pair_configuration_unavailable now
      ]

  unfoldable pub mutate :
      PairController B P J → ControllerAction → ℕ → ControllerActionResult × PairController B P J
  unfolding finish
  mutate c action now =
      if c.unresolved_action && not (action_eq action recover_stop)
      then finish c action ControllerActionOutcome.rejected_before_send
          (some ControllerFailure.unresolved_prior_action) now
      else if action_eq action recover_stop
          && not c.unresolved_action
          && ltb c.consecutive_failures 2
      then finish c action ControllerActionOutcome.rejected_before_send
          (some ControllerFailure.recovery_not_allowed) now
      else if action_eq action shutdown && managed_eq c.managed_state ManagedLiveState.offline
      then finish c action ControllerActionOutcome.idempotent none now
      else preflight c action c.unresolved_action now
