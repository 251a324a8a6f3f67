-- ===== src/Tests/TransactionTests.antt =====
-- Tests of rust/src/backend.rs.
use jbl_aura_play_together.Base.{◌≡◌, refl, none, some}
use jbl_aura_play_together.Backend.{
  PairBackendKind, native_pair, legacy_v04_whole_pair, PairLifecycle, PairBackend, PairBackendError,
  PairActionFailure, PairActionReceipt, PairBackendEvidence, accepted, rejected_before_send,
  outcome_unknown,
}
use jbl_aura_play_together.Backend.Transaction.{PairBackendTransaction, checked_action}
use jbl_aura_play_together.Backend.Transaction.Pinning.{checked_action-accepted, AcceptedAsPinned}
use jbl_aura_play_together.Base.{ok, err, false}

abbrev receipt : PairActionReceipt
receipt = record {
  backend = native_pair;
  lifecycle = PairLifecycle.linked;
  evidence = PairBackendEvidence.lifecycle_acknowledgement;
  idempotent = false;
}

abbrev failure : PairActionFailure
failure = record {
  backend = native_pair;
  reason = PairBackendError.unavailable;
  observed_lifecycle = none;
}

-- A backend that is its own kind: a start keeps it, a stop turns it into the other kind.
abbrev turning : PairBackend PairBackendKind
turning = record {
  kind = λ b. b;
  health = λ b. (err PairBackendError.unavailable, b);
  start = λ b. (accepted receipt, b);
  stop = λ b. (accepted receipt, legacy_v04_whole_pair);
  shutdown = λ b. (rejected_before_send failure, b);
  recover_stop = λ b. (outcome_unknown failure, b);
  teardown_transport = λ b. (ok tt, b);
}

abbrev pinned : PairBackendTransaction PairBackendKind
pinned = record { expected_kind = native_pair; backend = native_pair; unresolved_action = none }

turned_is_unknown :
    (checked_action turning pinned turning.stop).0
    ≡ outcome_unknown (record {
      backend = native_pair;
      reason = PairBackendError.backend_changed_during_transaction;
      observed_lifecycle = some PairLifecycle.linked;
    })
unfolding checked_action
turned_is_unknown = refl

checked_action-accepted_example : AcceptedAsPinned turning pinned turning.start receipt
checked_action-accepted_example =
    checked_action-accepted turning pinned turning.start receipt (unfold checked_action in refl)
