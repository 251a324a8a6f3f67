-- ===== src/Controller/Endings.antt =====
-- How every action of rust/src/controller.rs ends: what is recorded, and when it is uncertain.
use jbl_aura_play_together.Base.{
  ◌⊎◌, ℕ, ◌<◌, ◌≤◌, ◌≡◌, Bool, true, false, arith, some, none, u64_max,
}
use jbl_aura_play_together.Backend.{
  PairBackend, PairBackendError, PairActionReceipt, PairActionResult, accepted,
  rejected_before_send, outcome_unknown,
}
use jbl_aura_play_together.Journal.{UncertaintyJournal}
use jbl_aura_play_together.Controller.Types.{
  ControllerAction, ControllerActionOutcome, ControllerActionResult, ManagedLiveState,
  PairConfigurationProbe, journal_action,
}
use jbl_aura_play_together.Controller.State.{PairController}
use jbl_aura_play_together.Controller.Reduce.{
  read_pair_configuration, settle, reduce_rejected, reduce_accepted, reduce_backend_result,
}
use jbl_aura_play_together.Controller.{
  is_idempotent, execute, journalled, admitted, preflight, mutate, acted, attempt,
}

abbrev pub is_uncertain : ControllerActionOutcome → Bool
is_uncertain ControllerActionOutcome.outcome_unknown = true
is_uncertain ControllerActionOutcome.postcondition_failed = true
is_uncertain _ = false

-- What a result tells of the controller that it leaves, with `n` the revision before.
pub record Recorded {B P J : Type 0} (a : ControllerAction) (now n : ℕ)
    (x : ControllerActionResult × PairController B P J) : Type 0 where
  pub action : x.0.action ≡ a
  pub managed_state : x.0.managed_state ≡ x.1.managed_state
  pub revision : x.0.revision ≡ x.1.revision
  pub last_action : x.1.last_action ≡ some (record { result = x.0; recorded_at = now })
  pub later : (n < x.1.revision) ⊎ (x.1.revision ≡ u64_max)
  pub bounded : x.1.revision ≤ u64_max
  pub uncertain :
      (is_uncertain x.0.outcome ≡ false)
      ⊎ ((x.1.unresolved_action ≡ true)
          × (x.1.managed_state ≡ ManagedLiveState.unknown)
          × (x.0.evidence ≡ none))

module _ {B P J : Type 0} (journal_ops : UncertaintyJournal J) where
  settle-Recorded :
      (c : PairController B P J) (a : ControllerAction) (r : PairActionReceipt) (now n : ℕ)
      → n ≤ c.revision
      → c.revision ≤ u64_max
      → Recorded a now n (settle journal_ops c a r now)
  unfolding settle
  settle-Recorded c a r now n h b = ground arith

  reduce_rejected-Recorded :
      (c : PairController B P J) (a : ControllerAction) (e : PairBackendError) (p : Bool)
      (now n : ℕ)
      → n ≤ c.revision
      → c.revision ≤ u64_max
      → Recorded a now n (reduce_rejected journal_ops c a e p now)
  unfolding reduce_rejected
  reduce_rejected-Recorded c a e p now n h b = ground arith

  module _ (probe_ops : PairConfigurationProbe P) where
    reduce_accepted-Recorded :
        (c : PairController B P J) (a : ControllerAction) (r : PairActionReceipt) (now n : ℕ)
        → n ≤ c.revision
        → c.revision ≤ u64_max
        → Recorded a now n (reduce_accepted probe_ops journal_ops c a r now)
    unfolding reduce_accepted read_pair_configuration
    reduce_accepted-Recorded c a r now n h b =
        ground (arith, settle-Recorded (read_pair_configuration probe_ops c).1 a r now n)

    reduce_backend_result-Recorded :
        (c : PairController B P J) (a : ControllerAction) (x : PairActionResult) (p : Bool)
        (now n : ℕ)
        → n ≤ c.revision
        → c.revision ≤ u64_max
        → Recorded a now n (reduce_backend_result probe_ops journal_ops c a x p now)
    unfolding reduce_backend_result
    reduce_backend_result-Recorded c a (accepted r) p now n h b =
        reduce_accepted-Recorded c a r now n h b
    reduce_backend_result-Recorded c a (rejected_before_send f) p now n h b =
        reduce_rejected-Recorded c a f.reason p now n h b
    reduce_backend_result-Recorded c a (outcome_unknown f) p now n h b = ground arith

    module _ (ops : PairBackend B) where
      execute-Recorded :
          (c : PairController B P J) (a : ControllerAction) (p : Bool) (now : ℕ)
          → c.revision ≤ u64_max
          → Recorded a now c.revision (execute ops probe_ops journal_ops c a p now)
      unfolding execute acted
      execute-Recorded c a p now b =
          reduce_backend_result-Recorded (acted ops c a) a (attempt ops a c.backend).0 p now
            c.revision (ground arith) (ground arith)

      journalled-Recorded :
          (c : PairController B P J) (a : ControllerAction) (p : Bool) (now : ℕ)
          → c.revision ≤ u64_max
          → Recorded a now c.revision (journalled ops probe_ops journal_ops c a p now)
      unfolding journalled
      journalled-Recorded c a p now b = ground (
        arith,
        execute-Recorded
            (record c { journal = (journal_ops.mark_pending (journal_action a) c.journal).1 }) a p
            now,
      )

      admitted-Recorded :
          (c : PairController B P J) (a : ControllerAction) (p : Bool) (now : ℕ)
          → c.revision ≤ u64_max
          → Recorded a now c.revision (admitted ops probe_ops journal_ops c a p now)
      unfolding admitted is_idempotent
      admitted-Recorded c a p now b =
          ground (arith, journalled-Recorded (is_idempotent ops c a).1 a p now)

      preflight-Recorded :
          (c : PairController B P J) (a : ControllerAction) (p : Bool) (now : ℕ)
          → c.revision ≤ u64_max
          → Recorded a now c.revision (preflight ops probe_ops journal_ops c a p now)
      unfolding preflight read_pair_configuration
      preflight-Recorded c a p now b =
          ground (arith, admitted-Recorded (read_pair_configuration probe_ops c).1 a p now)

      -- However an action ends, its result carries the action, and the state and the revision that
      -- the controller is left with; it is recorded with its time as the last action; the revision
      -- has grown, or it stands at the largest one; and an uncertain outcome leaves the latch set,
      -- the state unknown and no evidence.
      pub mutate-Recorded :
          (c : PairController B P J) (a : ControllerAction) (now : ℕ)
          → c.revision ≤ u64_max
          → Recorded a now c.revision (mutate ops probe_ops journal_ops c a now)
      unfolding mutate
      mutate-Recorded c a now b = ground (arith, preflight-Recorded c a c.unresolved_action now)
