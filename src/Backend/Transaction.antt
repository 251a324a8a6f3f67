-- ===== src/Backend/Transaction.antt =====
-- rust/src/backend.rs, `PairBackendTransaction`: one backend is pinned for a whole transaction, and
-- an uncertain action ends it.
pub mod Pinning
use jbl_aura_play_together.Base.{◌&&◌, Option, none, some, Result, ok, err, is_ok, if◌then◌else◌}
use jbl_aura_play_together.Backend.{
  PairBackend, PairBackendKind, PairBackendError, backend_changed_during_transaction,
  PairActionFailure, PairActionResult, accepted, rejected_before_send, outcome_unknown,
  result_backend, observed_lifecycle, kind_eq,
}

pub record PairBackendTransaction (B : Type 0) : Type 0 where
  pub expected_kind : PairBackendKind
  pub backend : B
  pub unresolved_action : Option PairActionFailure

abbrev pub changed : PairBackendKind → PairActionResult → PairActionFailure
changed expected attempted = record {
  backend = expected;
  reason = backend_changed_during_transaction;
  observed_lifecycle = observed_lifecycle attempted;
}

-- The `match attempted` that downgrades a result of a backend that did not stay pinned.
abbrev pub unpinned : PairBackendKind → PairActionResult → PairActionResult
unpinned expected (rejected_before_send f) =
    rejected_before_send (changed expected (rejected_before_send f))
unpinned expected (accepted r) = outcome_unknown (changed expected (accepted r))
unpinned expected (outcome_unknown f) = outcome_unknown (changed expected (outcome_unknown f))

abbrev pub latched : PairActionResult → Option PairActionFailure → Option PairActionFailure
latched (outcome_unknown failure) old = some failure
latched _ old = old

module _ {B : Type 0} (ops : PairBackend B) where
  unfoldable pub begin : B → PairBackendTransaction B
  begin b = record { expected_kind = ops.kind b; backend = b; unresolved_action = none }

  unfoldable pub ensure_backend_is_pinned :
      PairBackendTransaction B → Result (Unit {0}) PairBackendError
  ensure_backend_is_pinned t =
      if kind_eq (ops.kind t.backend) t.expected_kind
      then ok tt
      else err backend_changed_during_transaction

  -- What follows the pin check before the call.
  unfoldable pub pinned_action :
      PairBackendTransaction B → PairActionResult × B → PairActionResult × PairBackendTransaction B
  unfolding ensure_backend_is_pinned
  pinned_action t (attempted, b) =
      let t' = record t { backend = b } in
      let result =
        if is_ok (ensure_backend_is_pinned t') && kind_eq (result_backend attempted) t.expected_kind
        then attempted
        else unpinned t.expected_kind attempted in
      (result, record t' { unresolved_action = latched result t.unresolved_action })

  unfoldable pub checked_action :
      PairBackendTransaction B
      → (B → PairActionResult × B)
      → PairActionResult × PairBackendTransaction B
  unfolding ensure_backend_is_pinned pinned_action
  checked_action t call = elim t.unresolved_action [
    | some failure ↦ (outcome_unknown failure, t)
    | none ↦ elim (ensure_backend_is_pinned t) [
      | err reason ↦ (
        rejected_before_send
            (record { backend = t.expected_kind; reason = reason; observed_lifecycle = none }),
        t,
      )
      | ok _ ↦ pinned_action t (call t.backend)
    ]
  ]

  unfoldable pub start : PairBackendTransaction B → PairActionResult × PairBackendTransaction B
  unfolding checked_action
  start t = checked_action t ops.start

  unfoldable pub stop : PairBackendTransaction B → PairActionResult × PairBackendTransaction B
  unfolding checked_action
  stop t = checked_action t ops.stop

  unfoldable pub shutdown : PairBackendTransaction B → PairActionResult × PairBackendTransaction B
  unfolding checked_action
  shutdown t = checked_action t ops.shutdown

  unfoldable pub recover_stop :
      PairBackendTransaction B → PairActionResult × PairBackendTransaction B
  unfolding checked_action
  recover_stop t = checked_action t ops.recover_stop
