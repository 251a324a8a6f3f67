-- ===== src/Controller/Evidence.antt =====
-- What a successful outcome of rust/src/controller.rs rests on.
use jbl_aura_play_together.Base.{
  ℕ, ◌≡◌, refl, ◌∙◌, Bool, true, false, arith, some, none, is_ok, if◌then◌else◌,
}
use jbl_aura_play_together.Backend.{
  PairBackend, PairActionReceipt, PairActionResult, accepted, rejected_before_send, outcome_unknown,
  is_ack_only, lifecycle_eq_sound, PairBackendError,
}
use jbl_aura_play_together.Journal.{UncertaintyJournal}
use jbl_aura_play_together.Controller.Types.{
  ControllerAction, ControllerActionOutcome, ControllerActionResult, PairConfigurationProbe,
  PairConfigurationState, journal_action,
}
use jbl_aura_play_together.Controller.State.{PairController, expected_lifecycle, accepted_state}
use jbl_aura_play_together.Controller.Reduce.{
  read_pair_configuration, settle, reduce_rejected, reduce_accepted, reduce_backend_result,
}
use jbl_aura_play_together.Controller.{
  is_idempotent, execute, journalled, admitted, preflight, mutate, acted, attempt,
}

abbrev pub succeeded : ControllerActionOutcome → Bool
succeeded ControllerActionOutcome.accepted = true
succeeded ControllerActionOutcome.accepted_unconfirmed = true
succeeded _ = false

-- The outcome that a receipt's evidence allows.
abbrev pub outcome_of : PairActionReceipt → ControllerActionOutcome
outcome_of r =
    if is_ack_only r.evidence
    then ControllerActionOutcome.accepted_unconfirmed
    else ControllerActionOutcome.accepted

-- The result and the state that a receipt leads to.
pub record Settled {B P J : Type 0} (a : ControllerAction) (r : PairActionReceipt)
    (res : ControllerActionResult × PairController B P J) : Type 0 where
  pub outcome : res.0.outcome ≡ outcome_of r
  pub evidence : res.0.evidence ≡ some r.evidence
  pub failure : res.0.failure ≡ none
  pub reported : res.0.managed_state ≡ accepted_state a
  pub managed_state : res.1.managed_state ≡ accepted_state a
  pub unresolved_action : res.1.unresolved_action ≡ false
  pub consecutive_failures : res.1.consecutive_failures ≡ 0

module _ {B P J : Type 0} (journal_ops : UncertaintyJournal J) where
  settle-succeeded :
      (c : PairController B P J) (a : ControllerAction) (r : PairActionReceipt) (now : ℕ)
      → succeeded (settle journal_ops c a r now).0.outcome ≡ true
      → (is_ok (journal_ops.clear c.journal).0 ≡ true) × Settled a r (settle journal_ops c a r now)
  unfolding settle
  settle-succeeded c a r now h = ground arith

  reduce_rejected_fails :
      (c : PairController B P J) (a : ControllerAction) (e : PairBackendError) (p : Bool) (now : ℕ)
      → succeeded (reduce_rejected journal_ops c a e p now).0.outcome ≡ false
  unfolding reduce_rejected
  reduce_rejected_fails c a e p now = ground arith

module _ {B P J : Type 0} (probe_ops : PairConfigurationProbe P)
    (journal_ops : UncertaintyJournal J) where
  -- What the reduction of a receipt has checked.
  abbrev pub Reduced : PairController B P J → ControllerAction → PairActionReceipt → Type 0
  Reduced c a r =
      (r.lifecycle ≡ expected_lifecycle a)
      × ((read_pair_configuration probe_ops c).0.0 ≡ PairConfigurationState.ready)
      × (is_ok (journal_ops.clear c.journal).0 ≡ true)

  reduce_accepted-succeeded :
      (c : PairController B P J) (a : ControllerAction) (r : PairActionReceipt) (now : ℕ)
      → succeeded (reduce_accepted probe_ops journal_ops c a r now).0.outcome ≡ true
      → Reduced c a r × Settled a r (reduce_accepted probe_ops journal_ops c a r now)
  unfolding reduce_accepted read_pair_configuration
  reduce_accepted-succeeded c a r now h = ground (
    arith,
    settle-succeeded journal_ops (read_pair_configuration probe_ops c).1 a r now,
    lifecycle_eq_sound r.lifecycle (expected_lifecycle a),
  )

  reduce_backend_result-succeeded :
      (c : PairController B P J) (a : ControllerAction) (x : PairActionResult) (p : Bool) (now : ℕ)
      → succeeded (reduce_backend_result probe_ops journal_ops c a x p now).0.outcome ≡ true
      → (r : PairActionReceipt) × (x ≡ accepted r)
        × Reduced c a r
        × Settled a r (reduce_backend_result probe_ops journal_ops c a x p now)
  unfolding reduce_backend_result
  reduce_backend_result-succeeded c a (accepted r) p now h =
      let (x, y) = reduce_accepted-succeeded c a r now h in (r, refl, x, y)
  reduce_backend_result-succeeded c a (rejected_before_send f) p now h =
      absurd (ground (arith, reduce_rejected_fails journal_ops c a f.reason p now))
  reduce_backend_result-succeeded c a (outcome_unknown f) p now h = absurd (ground arith)

  module _ (ops : PairBackend B) where
    -- The controller that is handed to the backend: its membership read, its idempotence tested
    -- and its journal marked.
    abbrev pub handed : PairController B P J → ControllerAction → PairController B P J
    handed c a =
        let c' = (is_idempotent ops (read_pair_configuration probe_ops c).1 a).1 in
        record c' { journal = (journal_ops.mark_pending (journal_action a) c'.journal).1 }

    -- Everything that stands before and behind a confirmed action.
    pub record Confirmed (c : PairController B P J) (a : ControllerAction) (r : PairActionReceipt)
        : Type 0 where
      pub member_check : (read_pair_configuration probe_ops c).0.0 ≡ PairConfigurationState.ready
      pub marked : is_ok (journal_ops.mark_pending (journal_action a) c.journal).0 ≡ true
      pub attempted : (attempt ops a (handed c a).backend).0 ≡ accepted r
      pub reduced : Reduced (acted ops (handed c a) a) a r

    execute-succeeded :
        (c : PairController B P J) (a : ControllerAction) (p : Bool) (now : ℕ)
        → succeeded (execute ops probe_ops journal_ops c a p now).0.outcome ≡ true
        → (r : PairActionReceipt) × ((attempt ops a c.backend).0 ≡ accepted r)
          × Reduced (acted ops c a) a r
          × Settled a r (execute ops probe_ops journal_ops c a p now)
    unfolding execute
    execute-succeeded c a p now h =
        reduce_backend_result-succeeded (acted ops c a) a (attempt ops a c.backend).0 p now h

    journalled-succeeded :
        (c : PairController B P J) (a : ControllerAction) (p : Bool) (now : ℕ)
        → succeeded (journalled ops probe_ops journal_ops c a p now).0.outcome ≡ true
        → (is_ok (journal_ops.mark_pending (journal_action a) c.journal).0 ≡ true)
          × (journalled ops probe_ops journal_ops c a p now
              ≡ execute ops probe_ops journal_ops
                  (record c { journal = (journal_ops.mark_pending (journal_action a) c.journal).1 })
                  a
                  p
                  now)
    unfolding journalled
    journalled-succeeded c a p now h = ground arith

    admitted-succeeded :
        (c : PairController B P J) (a : ControllerAction) (p : Bool) (now : ℕ)
        → succeeded (admitted ops probe_ops journal_ops c a p now).0.outcome ≡ true
        → admitted ops probe_ops journal_ops c a p now
          ≡ journalled ops probe_ops journal_ops (is_idempotent ops c a).1 a p now
    unfolding admitted
    admitted-succeeded c a p now h = ground arith

    preflight-succeeded :
        (c : PairController B P J) (a : ControllerAction) (p : Bool) (now : ℕ)
        → succeeded (preflight ops probe_ops journal_ops c a p now).0.outcome ≡ true
        → ((read_pair_configuration probe_ops c).0.0 ≡ PairConfigurationState.ready)
          × (preflight ops probe_ops journal_ops c a p now
              ≡ admitted ops probe_ops journal_ops (read_pair_configuration probe_ops c).1 a p now)
    unfolding preflight
    preflight-succeeded c a p now h = ground arith

    mutate-succeeded :
        (c : PairController B P J) (a : ControllerAction) (now : ℕ)
        → succeeded (mutate ops probe_ops journal_ops c a now).0.outcome ≡ true
        → mutate ops probe_ops journal_ops c a now
          ≡ preflight ops probe_ops journal_ops c a c.unresolved_action now
    unfolding mutate
    mutate-succeeded c a now h = ground arith

    handed-journal :
        (c : PairController B P J) (a : ControllerAction)
        → (is_idempotent ops (read_pair_configuration probe_ops c).1 a).1.journal ≡ c.journal
    unfolding is_idempotent read_pair_configuration
    handed-journal c a = ground arith

    -- The way of an action that succeeds, up to the backend.
    pub mutate-execute :
        (c : PairController B P J) (a : ControllerAction) (now : ℕ)
        → succeeded (mutate ops probe_ops journal_ops c a now).0.outcome ≡ true
        → ((read_pair_configuration probe_ops c).0.0 ≡ PairConfigurationState.ready)
          × (is_ok (journal_ops.mark_pending (journal_action a) c.journal).0 ≡ true)
          × (mutate ops probe_ops journal_ops c a now
              ≡ execute ops probe_ops journal_ops (handed c a) a c.unresolved_action now)
    mutate-execute c a now h =
        let e1 = mutate-succeeded c a now h in
        let h1 = rw e1 at h in
        let (ready, e2) = preflight-succeeded c a c.unresolved_action now h1 in
        let h2 = rw e2 at h1 in
        let c1 = (read_pair_configuration probe_ops c).1 in
        let e3 = admitted-succeeded c1 a c.unresolved_action now h2 in
        let h3 = rw e3 at h2 in
        let (marked, e4) =
          journalled-succeeded (is_idempotent ops c1 a).1 a c.unresolved_action now h3 in
        (ready, rw (handed-journal c a) at marked, e1 ∙ e2 ∙ e3 ∙ e4)

    -- An action that ends as accepted, confirmed or not, has read the expected membership, marked the
    -- journal, and then been accepted by the backend, whose receipt tells the lifecycle that the
    -- action asks for; after it, the membership was read again and the journal cleared. The result
    -- tells that receipt's evidence, an ack alone is no confirmation, and latch and failure count
    -- are reset.
    pub mutate-Confirmed :
        (c : PairController B P J) (a : ControllerAction) (now : ℕ)
        → succeeded (mutate ops probe_ops journal_ops c a now).0.outcome ≡ true
        → (r : PairActionReceipt) × Confirmed c a r
          × Settled a r (mutate ops probe_ops journal_ops c a now)
    mutate-Confirmed c a now h =
        let (ready, marked, e) = mutate-execute c a now h in
        let (r, att, red, set) =
          execute-succeeded (handed c a) a c.unresolved_action now (rw e at h) in
        (
          r,
          record { member_check = ready; marked = marked; attempted = att; reduced = red },
          rw e set,
        )
