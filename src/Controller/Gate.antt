-- ===== src/Controller/Gate.antt =====
-- What rust/src/controller.rs refuses, and what a refusal leaves alone.
use jbl_aura_play_together.Base.{ℕ, ◌≡◌, ◌≢◌, ◌⊎◌, Bool, true, false, arith, some, is_ok}
use jbl_aura_play_together.Backend.{PairBackend}
use jbl_aura_play_together.Journal.{UncertaintyJournal}
use jbl_aura_play_together.Controller.Types.{
  ControllerAction, recover_stop, ControllerActionOutcome, ControllerActionResult,
  ControllerFailure, PairConfigurationProbe, journal_action,
}
use jbl_aura_play_together.Controller.State.{PairController}
use jbl_aura_play_together.Controller.Reduce.{read_pair_configuration}
use jbl_aura_play_together.Controller.{is_idempotent, journalled, admitted, preflight, mutate}

-- A rejection before send for a given reason.
abbrev pub RefusedFor : ControllerFailure → ControllerActionResult → Type 0
RefusedFor f res =
    (res.outcome ≡ ControllerActionOutcome.rejected_before_send) × (res.failure ≡ some f)

module _ {B P J : Type 0} where
  -- Nothing but the revision and the record of the last action differs.
  pub record Untouched (c d : PairController B P J) : Type 0 where
    pub backend : d.backend ≡ c.backend
    pub probe : d.probe ≡ c.probe
    pub journal : d.journal ≡ c.journal
    pub managed_state : d.managed_state ≡ c.managed_state
    pub unresolved_action : d.unresolved_action ≡ c.unresolved_action
    pub consecutive_failures : d.consecutive_failures ≡ c.consecutive_failures

  module _ (ops : PairBackend B) (probe_ops : PairConfigurationProbe P)
      (journal_ops : UncertaintyJournal J) where
    -- While an action is unresolved, every action but an explicit recovery is refused with
    -- `UnresolvedPriorAction`, and neither the backend, the probe nor the journal is called.
    pub mutate_latched :
        (c : PairController B P J) (a : ControllerAction) (now : ℕ)
        → c.unresolved_action ≡ true
        → a ≢ recover_stop
        → let (res, d) = mutate ops probe_ops journal_ops c a now in
          RefusedFor ControllerFailure.unresolved_prior_action res × Untouched c d
    unfolding mutate
    mutate_latched c a now u r = ground arith

    unmarked_journalled :
        (c : PairController B P J) (a : ControllerAction) (p : Bool) (now : ℕ)
        → is_ok (journal_ops.mark_pending (journal_action a) c.journal).0 ≡ false
        → let (res, d) = journalled ops probe_ops journal_ops c a p now in
          (d.backend ≡ c.backend) × RefusedFor ControllerFailure.journal_unavailable res
    unfolding journalled
    unmarked_journalled c a p now h = ground arith

    -- Where the journal cannot be marked, the backend is asked for its health at most; whatever the
    -- outcome, it is no success of an action and no uncertainty.
    pub mutate_unmarked :
        (c : PairController B P J) (a : ControllerAction) (now : ℕ)
        → is_ok (journal_ops.mark_pending (journal_action a) c.journal).0 ≡ false
        → let (res, d) = mutate ops probe_ops journal_ops c a now in
          ((d.backend ≡ c.backend) ⊎ (d.backend ≡ (ops.health c.backend).1))
          × ((res.outcome ≡ ControllerActionOutcome.idempotent)
              ⊎ (res.outcome ≡ ControllerActionOutcome.rejected_before_send))
    unfolding mutate preflight admitted is_idempotent read_pair_configuration
    mutate_unmarked c a now h = ground (
      arith,
      unmarked_journalled (is_idempotent ops (read_pair_configuration probe_ops c).1 a).1 a
          c.unresolved_action now,
    )
