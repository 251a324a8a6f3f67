-- ===== src/Controller/Owing.antt =====
-- What an uncertain outcome of rust/src/controller.rs leaves in the journal.
use jbl_aura_play_together.Base.{ℕ, ◌≡◌, ◌⊎◌, refl, Bool, true, false, inl, arith, is_ok}
use jbl_aura_play_together.Backend.{
  PairBackend, PairActionReceipt, PairActionResult, accepted, rejected_before_send, outcome_unknown,
  PairBackendError,
}
use jbl_aura_play_together.Journal.{UncertaintyJournal}
use jbl_aura_play_together.Controller.Types.{
  ControllerAction, PairConfigurationProbe, journal_action,
}
use jbl_aura_play_together.Controller.State.{PairController}
use jbl_aura_play_together.Controller.Reduce.{
  read_pair_configuration, settle, reduce_rejected, reduce_accepted, reduce_backend_result,
}
use jbl_aura_play_together.Controller.{
  is_idempotent, execute, journalled, admitted, preflight, mutate, acted, attempt,
}
use jbl_aura_play_together.Controller.Endings.{is_uncertain}

-- A journal as another one left it, or one whose clearing has failed since.
abbrev pub Owes : {J : Type 0} → UncertaintyJournal J → J → J → Type 0
Owes journal_ops j k =
    (k ≡ j) ⊎ ((is_ok (journal_ops.clear j).0 ≡ false) × (k ≡ (journal_ops.clear j).1))

module _ {B P J : Type 0} (journal_ops : UncertaintyJournal J) where
  settle-Owes :
      (c : PairController B P J) (a : ControllerAction) (r : PairActionReceipt) (now : ℕ)
      → is_uncertain (settle journal_ops c a r now).0.outcome ≡ true
      → Owes journal_ops c.journal (settle journal_ops c a r now).1.journal
  unfolding settle
  settle-Owes c a r now h = ground arith

  reduce_rejected-Owes :
      (c : PairController B P J) (a : ControllerAction) (e : PairBackendError) (p : Bool) (now : ℕ)
      → is_uncertain (reduce_rejected journal_ops c a e p now).0.outcome ≡ true
      → Owes journal_ops c.journal (reduce_rejected journal_ops c a e p now).1.journal
  unfolding reduce_rejected
  reduce_rejected-Owes c a e p now h = ground arith

  module _ (probe_ops : PairConfigurationProbe P) where
    reduce_accepted-Owes :
        (c : PairController B P J) (a : ControllerAction) (r : PairActionReceipt) (now : ℕ)
        → is_uncertain (reduce_accepted probe_ops journal_ops c a r now).0.outcome ≡ true
        → Owes journal_ops c.journal (reduce_accepted probe_ops journal_ops c a r now).1.journal
    unfolding reduce_accepted read_pair_configuration
    reduce_accepted-Owes c a r now h =
        ground (arith, settle-Owes (read_pair_configuration probe_ops c).1 a r now)

    reduce_backend_result-Owes :
        (c : PairController B P J) (a : ControllerAction) (x : PairActionResult) (p : Bool)
        (now : ℕ)
        → is_uncertain (reduce_backend_result probe_ops journal_ops c a x p now).0.outcome ≡ true
        → Owes journal_ops c.journal
            (reduce_backend_result probe_ops journal_ops c a x p now).1.journal
    unfolding reduce_backend_result
    reduce_backend_result-Owes c a (accepted r) p now h = reduce_accepted-Owes c a r now h
    reduce_backend_result-Owes c a (rejected_before_send f) p now h =
        reduce_rejected-Owes c a f.reason p now h
    reduce_backend_result-Owes c a (outcome_unknown f) p now h = inl refl

    module _ (ops : PairBackend B) where
      execute-Owes :
          (c : PairController B P J) (a : ControllerAction) (p : Bool) (now : ℕ)
          → is_uncertain (execute ops probe_ops journal_ops c a p now).0.outcome ≡ true
          → Owes journal_ops c.journal (execute ops probe_ops journal_ops c a p now).1.journal
      unfolding execute acted
      execute-Owes c a p now h =
          reduce_backend_result-Owes (acted ops c a) a (attempt ops a c.backend).0 p now h

      -- The journal was marked for the action, and it is that one, or its clearing has failed.
      abbrev pub Marked : J → ControllerAction → J → Type 0
      Marked j a k =
          (is_ok (journal_ops.mark_pending (journal_action a) j).0 ≡ true)
          × Owes journal_ops (journal_ops.mark_pending (journal_action a) j).1 k

      journalled-Owes :
          (c : PairController B P J) (a : ControllerAction) (p : Bool) (now : ℕ)
          → is_uncertain (journalled ops probe_ops journal_ops c a p now).0.outcome ≡ true
          → Marked c.journal a (journalled ops probe_ops journal_ops c a p now).1.journal
      unfolding journalled
      journalled-Owes c a p now h = ground (
        arith,
        execute-Owes
            (record c { journal = (journal_ops.mark_pending (journal_action a) c.journal).1 }) a p
            now,
      )

      admitted-Owes :
          (c : PairController B P J) (a : ControllerAction) (p : Bool) (now : ℕ)
          → is_uncertain (admitted ops probe_ops journal_ops c a p now).0.outcome ≡ true
          → Marked c.journal a (admitted ops probe_ops journal_ops c a p now).1.journal
      unfolding admitted is_idempotent
      admitted-Owes c a p now h = ground (arith, journalled-Owes (is_idempotent ops c a).1 a p now)

      preflight-Owes :
          (c : PairController B P J) (a : ControllerAction) (p : Bool) (now : ℕ)
          → is_uncertain (preflight ops probe_ops journal_ops c a p now).0.outcome ≡ true
          → Marked c.journal a (preflight ops probe_ops journal_ops c a p now).1.journal
      unfolding preflight read_pair_configuration
      preflight-Owes c a p now h =
          ground (arith, admitted-Owes (read_pair_configuration probe_ops c).1 a p now)

      pub mutate-Owes :
          (c : PairController B P J) (a : ControllerAction) (now : ℕ)
          → is_uncertain (mutate ops probe_ops journal_ops c a now).0.outcome ≡ true
          → Marked c.journal a (mutate ops probe_ops journal_ops c a now).1.journal
      unfolding mutate
      mutate-Owes c a now h = ground (arith, preflight-Owes c a c.unresolved_action now)
