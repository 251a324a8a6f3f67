-- ===== src/Controller/Quiet.antt =====
-- A result of rust/src/controller.rs that says nothing was sent, over a backend that keeps the
-- contract of `RejectedBeforeSend` in rust/src/backend.rs.
use jbl_aura_play_together.Base.{ℕ, ◌≡◌, refl, ◌∙◌, ap, Bool, true, false, arith}
use jbl_aura_play_together.Backend.{
  PairBackend, PairActionReceipt, PairActionResult, accepted, rejected_before_send, outcome_unknown,
}
use jbl_aura_play_together.Backend.Transaction
use jbl_aura_play_together.Backend.Transaction.Pinning.{sends_nothing}
use jbl_aura_play_together.Journal.{UncertaintyJournal}
use jbl_aura_play_together.Controller.Types.{
  ControllerAction, start, stop, shutdown, recover_stop, ControllerActionOutcome,
  PairConfigurationProbe, journal_action,
}
use jbl_aura_play_together.Controller.State.{PairController}
use jbl_aura_play_together.Controller.Reduce.{
  read_pair_configuration, settle, reduce_rejected, reduce_accepted, reduce_backend_result,
}
use jbl_aura_play_together.Controller.{
  is_idempotent, execute, journalled, admitted, preflight, mutate, acted, attempt,
}

abbrev pub sent_nothing : ControllerActionOutcome → Bool
sent_nothing ControllerActionOutcome.rejected_before_send = true
sent_nothing ControllerActionOutcome.idempotent = true
sent_nothing _ = false

-- The backend's own method for an action.
abbrev pub method : {B : Type 0} → PairBackend B → ControllerAction → B → PairActionResult × B
method ops start = ops.start
method ops stop = ops.stop
method ops shutdown = ops.shutdown
method ops recover_stop = ops.recover_stop

-- The contract of a backend: `writes` counts the role commands that may have left, a health read
-- sends none, and neither does an action that is rejected before send.
pub record KeepsContract {B : Type 0} (ops : PairBackend B) (writes : B → ℕ) : Type 0 where
  pub health_quiet : (b : B) → writes (ops.health b).1 ≡ writes b
  pub rejected_quiet :
      (a : ControllerAction) (b : B)
      → sends_nothing (method ops a b).0 ≡ true
      → writes (method ops a b).1 ≡ writes b

-- Nothing was written between two controllers.
abbrev pub Quiet : {B P J : Type 0} → (B → ℕ) → PairController B P J → PairController B P J → Type 0
Quiet writes c d = writes d.backend ≡ writes c.backend

module _ {B : Type 0} (ops : PairBackend B) where
  pub attempt-method : (a : ControllerAction) (b : B) → (attempt ops a b).1 ≡ (method ops a b).1
  unfolding attempt Transaction.begin Transaction.start Transaction.stop Transaction.shutdown
      Transaction.recover_stop Transaction.checked_action
  attempt-method start b = ground arith
  attempt-method stop b = ground arith
  attempt-method shutdown b = ground arith
  attempt-method recover_stop b = ground arith

  attempt-sends_nothing :
      (a : ControllerAction) (b : B)
      → sends_nothing (attempt ops a b).0 ≡ true
      → sends_nothing (method ops a b).0 ≡ true
  unfolding attempt Transaction.begin Transaction.start Transaction.stop Transaction.shutdown
      Transaction.recover_stop Transaction.checked_action
  attempt-sends_nothing start b h = ground arith
  attempt-sends_nothing stop b h = ground arith
  attempt-sends_nothing shutdown b h = ground arith
  attempt-sends_nothing recover_stop b h = ground arith

module _ {B P J : Type 0} (probe_ops : PairConfigurationProbe P)
    (journal_ops : UncertaintyJournal J) where
  settle_backend :
      (c : PairController B P J) (a : ControllerAction) (r : PairActionReceipt) (now : ℕ)
      → ((settle journal_ops c a r now).1.backend ≡ c.backend)
        × (sent_nothing (settle journal_ops c a r now).0.outcome ≡ false)
  unfolding settle
  settle_backend c a r now = ground arith

  reduce_accepted_backend :
      (c : PairController B P J) (a : ControllerAction) (r : PairActionReceipt) (now : ℕ)
      → ((reduce_accepted probe_ops journal_ops c a r now).1.backend ≡ c.backend)
        × (sent_nothing (reduce_accepted probe_ops journal_ops c a r now).0.outcome ≡ false)
  unfolding reduce_accepted read_pair_configuration
  reduce_accepted_backend c a r now =
      ground (arith, settle_backend (read_pair_configuration probe_ops c).1 a r now)

  pub reduce_backend_result_backend :
      (c : PairController B P J) (a : ControllerAction) (x : PairActionResult) (p : Bool) (now : ℕ)
      → (reduce_backend_result probe_ops journal_ops c a x p now).1.backend ≡ c.backend
  unfolding reduce_backend_result reduce_rejected
  reduce_backend_result_backend c a (accepted r) p now = (reduce_accepted_backend c a r now).0
  reduce_backend_result_backend c a (rejected_before_send f) p now = ground arith
  reduce_backend_result_backend c a (outcome_unknown f) p now = ground arith

  reduce_backend_result_sends :
      (c : PairController B P J) (a : ControllerAction) (x : PairActionResult) (p : Bool) (now : ℕ)
      → sent_nothing (reduce_backend_result probe_ops journal_ops c a x p now).0.outcome ≡ true
      → sends_nothing x ≡ true
  unfolding reduce_backend_result
  reduce_backend_result_sends c a (accepted r) p now h =
      ground (arith, reduce_accepted_backend c a r now)
  reduce_backend_result_sends c a (rejected_before_send f) p now h = refl
  reduce_backend_result_sends c a (outcome_unknown f) p now h = ground arith

module _ {B P J : Type 0} (ops : PairBackend B) (writes : B → ℕ)
    (contract : KeepsContract ops writes) (probe_ops : PairConfigurationProbe P)
    (journal_ops : UncertaintyJournal J) where
  execute-Quiet :
      (c : PairController B P J) (a : ControllerAction) (p : Bool) (now : ℕ)
      → sent_nothing (execute ops probe_ops journal_ops c a p now).0.outcome ≡ true
      → Quiet writes c (execute ops probe_ops journal_ops c a p now).1
  unfolding execute acted
  execute-Quiet c a p now h =
      let x = (attempt ops a c.backend).0 in
      let sent =
        attempt-sends_nothing ops a c.backend
          (reduce_backend_result_sends probe_ops journal_ops (acted ops c a) a x p now h) in
      ap writes (
        reduce_backend_result_backend probe_ops journal_ops (acted ops c a) a x p now
        ∙ attempt-method ops a c.backend)
      ∙ contract.rejected_quiet a c.backend sent

  journalled-Quiet :
      (c : PairController B P J) (a : ControllerAction) (p : Bool) (now : ℕ)
      → sent_nothing (journalled ops probe_ops journal_ops c a p now).0.outcome ≡ true
      → Quiet writes c (journalled ops probe_ops journal_ops c a p now).1
  unfolding journalled
  journalled-Quiet c a p now h = ground (
    arith,
    execute-Quiet (record c { journal = (journal_ops.mark_pending (journal_action a) c.journal).1 })
        a p now,
  )

  is_idempotent-Quiet :
      (c : PairController B P J) (a : ControllerAction) → Quiet writes c (is_idempotent ops c a).1
  unfolding is_idempotent
  is_idempotent-Quiet c a = ground (arith, contract.health_quiet c.backend)

  admitted-Quiet :
      (c : PairController B P J) (a : ControllerAction) (p : Bool) (now : ℕ)
      → sent_nothing (admitted ops probe_ops journal_ops c a p now).0.outcome ≡ true
      → Quiet writes c (admitted ops probe_ops journal_ops c a p now).1
  unfolding admitted
  admitted-Quiet c a p now h =
      ground (arith, is_idempotent-Quiet c a, journalled-Quiet (is_idempotent ops c a).1 a p now)

  preflight-Quiet :
      (c : PairController B P J) (a : ControllerAction) (p : Bool) (now : ℕ)
      → sent_nothing (preflight ops probe_ops journal_ops c a p now).0.outcome ≡ true
      → Quiet writes c (preflight ops probe_ops journal_ops c a p now).1
  unfolding preflight read_pair_configuration
  preflight-Quiet c a p now h =
      ground (arith, admitted-Quiet (read_pair_configuration probe_ops c).1 a p now)

  -- Over a backend that keeps its contract, an action that ends as rejected before send or as
  -- idempotent has sent no role command, on every path of the controller.
  pub mutate-Quiet :
      (c : PairController B P J) (a : ControllerAction) (now : ℕ)
      → sent_nothing (mutate ops probe_ops journal_ops c a now).0.outcome ≡ true
      → Quiet writes c (mutate ops probe_ops journal_ops c a now).1
  unfolding mutate
  mutate-Quiet c a now h = ground (arith, preflight-Quiet c a c.unresolved_action now)
