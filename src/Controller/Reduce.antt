-- ===== src/Controller/Reduce.antt =====
-- rust/src/controller.rs: the membership read, and the reduction of a backend's result.
use jbl_aura_play_together.Base.{
  ℕ, Bool, true, false, not, ◌||◌, none, some, ok, err, is_ok, if◌then◌else◌,
}
use jbl_aura_play_together.Backend.{
  PairActionReceipt, PairActionResult, accepted, rejected_before_send, outcome_unknown,
  PairBackendError, lifecycle_eq, is_ack_only,
}
use jbl_aura_play_together.Journal.{UncertaintyJournal}
use jbl_aura_play_together.Controller.Types.{
  ControllerAction, recover_stop, ControllerActionOutcome, ControllerFailure, ManagedLiveState,
  PairConfigurationState, PairMembers, PairConfigurationProbe, ControllerActionResult, action_eq,
  unavailable_members, PairMemberVerification,
}
use jbl_aura_play_together.Controller.State.{
  PairController, expected_lifecycle, accepted_state, is_ready, count_failure, finish_with_evidence,
  finish, latch, journal_commit_failed,
}
use jbl_aura_play_together.Controller.Failures.{
  controller_failure_from_backend, controller_failure_from_unknown_backend,
}

module _ {B P J : Type 0} (probe_ops : PairConfigurationProbe P) where
  unfoldable pub read_pair_configuration :
      PairController B P J → (PairConfigurationState × PairMembers) × PairController B P J
  unfolding unavailable_members
  read_pair_configuration c =
      let (observed, p) = probe_ops.pair_configuration c.probe in
      (
        elim observed [
          | ok o ↦ (
            if o.exact_pair_configured
                then PairConfigurationState.ready
                else PairConfigurationState.not_ready,
            o.members,
          )
          | err e ↦ (
            PairConfigurationState.unavailable,
            unavailable_members PairMemberVerification.unavailable,
          )
        ],
        record c { probe = p },
      )

module _ {B P J : Type 0} (journal_ops : UncertaintyJournal J) where
  -- The tail of the accepted branch: the journal is cleared, and the new state is entered.
  unfoldable pub settle :
      PairController B P J
      → ControllerAction
      → PairActionReceipt
      → ℕ
      → ControllerActionResult × PairController B P J
  unfolding journal_commit_failed finish_with_evidence
  settle c action receipt now =
      let (cleared, j) = journal_ops.clear c.journal in
      let c' = record c { journal = j } in
      if is_ok cleared
      then finish_with_evidence
          (record c' {
            consecutive_failures = 0;
            unresolved_action = false;
            managed_state = accepted_state action;
          })
          action
          (if is_ack_only receipt.evidence
            then ControllerActionOutcome.accepted_unconfirmed
            else ControllerActionOutcome.accepted)
          (some receipt.evidence) none now
      else journal_commit_failed c' action now

  -- The branch of `reduce_backend_result` for a rejection before send.
  unfoldable pub reduce_rejected :
      PairController B P J
      → ControllerAction
      → PairBackendError
      → Bool
      → ℕ
      → ControllerActionResult × PairController B P J
  unfolding journal_commit_failed finish controller_failure_from_backend
  reduce_rejected c action reason had_pending now =
      let may_clear = not (action_eq action recover_stop) || not had_pending in
      let (cleared, j) = journal_ops.clear c.journal in
      let rejected = λ (d : PairController B P J).
        finish (record (count_failure d) { managed_state = ManagedLiveState.degraded }) action
          ControllerActionOutcome.rejected_before_send
          (some (controller_failure_from_backend reason)) now in
      if may_clear
      then if is_ok cleared
        then rejected (record c { journal = j })
        else journal_commit_failed (record c { journal = j }) action now
      else rejected (record c { unresolved_action = true })

module _ {B P J : Type 0} (probe_ops : PairConfigurationProbe P)
    (journal_ops : UncertaintyJournal J) where
  unfoldable pub reduce_accepted :
      PairController B P J
      → ControllerAction
      → PairActionReceipt
      → ℕ
      → ControllerActionResult × PairController B P J
  unfolding finish
  reduce_accepted c action receipt now =
      let (configuration, c') = read_pair_configuration probe_ops c in
      if not (lifecycle_eq receipt.lifecycle (expected_lifecycle action))
      then finish (latch c) action ControllerActionOutcome.outcome_unknown
          (some ControllerFailure.unexpected_backend_lifecycle) now
      else if not (is_ready configuration.0)
      then finish (latch c') action ControllerActionOutcome.postcondition_failed
          (some ControllerFailure.membership_postcondition_failed) now
      else settle journal_ops c' action receipt now

  unfoldable pub reduce_backend_result :
      PairController B P J
      → ControllerAction
      → PairActionResult
      → Bool
      → ℕ
      → ControllerActionResult × PairController B P J
  unfolding finish controller_failure_from_unknown_backend
  reduce_backend_result c action (rejected_before_send failure) had_pending now =
      reduce_rejected journal_ops c action failure.reason had_pending now
  reduce_backend_result c action (outcome_unknown failure) had_pending now =
      finish (latch c) action ControllerActionOutcome.outcome_unknown
        (some (controller_failure_from_unknown_backend failure.reason)) now
  reduce_backend_result c action (accepted receipt) had_pending now =
      reduce_accepted c action receipt now
