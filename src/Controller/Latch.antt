-- ===== src/Controller/Latch.antt =====
-- The uncertainty latch of rust/src/controller.rs: the controller's flag and its journal agree.
use jbl_aura_play_together.Base.{ℕ, ◌≡◌, ◌⊎◌, Bool, true, false, arith}
use jbl_aura_play_together.Backend.{
  PairBackend, PairActionReceipt, PairActionResult, accepted, rejected_before_send, outcome_unknown,
  PairBackendError,
}
use jbl_aura_play_together.Journal.{UncertaintyJournal, JournalLaws}
use jbl_aura_play_together.Controller.Types.{
  ControllerAction, recover_stop, PairConfigurationProbe, journal_action, action_eq,
}
use jbl_aura_play_together.Controller.State.{PairController, bump_revision}
use jbl_aura_play_together.Controller.Reduce.{
  read_pair_configuration, settle, reduce_rejected, reduce_accepted, reduce_backend_result,
}
use jbl_aura_play_together.Controller.{
  is_idempotent, execute, journalled, admitted, preflight, mutate, status, acted, attempt,
}

-- The flag is set exactly while the journal holds a pending action.
abbrev pub IsLatched : {B P J : Type 0} → UncertaintyJournal J → PairController B P J → Type 0
IsLatched journal_ops c = c.unresolved_action ≡ journal_ops.is_pending c.journal

-- Inside an action the journal is pending, and the flag still tells what stood before it.
record InFlight {B P J : Type 0} (journal_ops : UncertaintyJournal J) (c : PairController B P J)
    (had_pending : Bool) : Type 0 where
  is_pending : journal_ops.is_pending c.journal ≡ true
  flag : c.unresolved_action ≡ had_pending

-- Only a recovery enters with an action pending.
abbrev MayEnter : ControllerAction → Bool → Type 0
MayEnter a had_pending = (action_eq a recover_stop ≡ true) ⊎ (had_pending ≡ false)

module _ {B P J : Type 0} (journal_ops : UncertaintyJournal J)
    (laws : JournalLaws journal_ops) where
  settle-IsLatched :
      (c : PairController B P J) (a : ControllerAction) (r : PairActionReceipt) (now : ℕ) (h : Bool)
      → InFlight journal_ops c h
      → IsLatched journal_ops (settle journal_ops c a r now).1
  unfolding settle
  settle-IsLatched c a r now h f =
      ground (arith, laws.cleared c.journal, laws.clear_failed c.journal)

  reduce_rejected-IsLatched :
      (c : PairController B P J) (a : ControllerAction) (e : PairBackendError) (h : Bool) (now : ℕ)
      → InFlight journal_ops c h
      → MayEnter a h
      → IsLatched journal_ops (reduce_rejected journal_ops c a e h now).1
  unfolding reduce_rejected
  reduce_rejected-IsLatched c a e h now f g =
      ground (arith, laws.cleared c.journal, laws.clear_failed c.journal)

  module _ (probe_ops : PairConfigurationProbe P) where
    reduce_accepted-IsLatched :
        (c : PairController B P J) (a : ControllerAction) (r : PairActionReceipt) (now : ℕ)
        (h : Bool)
        → InFlight journal_ops c h
        → IsLatched journal_ops (reduce_accepted probe_ops journal_ops c a r now).1
    unfolding reduce_accepted read_pair_configuration
    reduce_accepted-IsLatched c a r now h f =
        ground (arith, settle-IsLatched (read_pair_configuration probe_ops c).1 a r now h)

    reduce_backend_result-IsLatched :
        (c : PairController B P J) (a : ControllerAction) (r : PairActionResult) (h : Bool)
        (now : ℕ)
        → InFlight journal_ops c h
        → MayEnter a h
        → IsLatched journal_ops (reduce_backend_result probe_ops journal_ops c a r h now).1
    unfolding reduce_backend_result
    reduce_backend_result-IsLatched c a (accepted r) h now f g =
        reduce_accepted-IsLatched c a r now h f
    reduce_backend_result-IsLatched c a (rejected_before_send x) h now f g =
        reduce_rejected-IsLatched c a x.reason h now f g
    reduce_backend_result-IsLatched c a (outcome_unknown x) h now f g = ground arith

    module _ (ops : PairBackend B) where
      execute-IsLatched :
          (c : PairController B P J) (a : ControllerAction) (h : Bool) (now : ℕ)
          → InFlight journal_ops c h
          → MayEnter a h
          → IsLatched journal_ops (execute ops probe_ops journal_ops c a h now).1
      unfolding execute acted
      execute-IsLatched c a h now f g =
          reduce_backend_result-IsLatched (acted ops c a) a (attempt ops a c.backend).0 h now
            (ground arith) g

      journalled-IsLatched :
          (c : PairController B P J) (a : ControllerAction) (h : Bool) (now : ℕ)
          → IsLatched journal_ops c
          → c.unresolved_action ≡ h
          → MayEnter a h
          → IsLatched journal_ops (journalled ops probe_ops journal_ops c a h now).1
      unfolding journalled
      journalled-IsLatched c a h now l u g = ground (
        arith,
        laws.marked (journal_action a) c.journal,
        laws.mark_failed (journal_action a) c.journal,
        execute-IsLatched
            (record c { journal = (journal_ops.mark_pending (journal_action a) c.journal).1 }) a h
            now,
      )

      admitted-IsLatched :
          (c : PairController B P J) (a : ControllerAction) (h : Bool) (now : ℕ)
          → IsLatched journal_ops c
          → c.unresolved_action ≡ h
          → MayEnter a h
          → IsLatched journal_ops (admitted ops probe_ops journal_ops c a h now).1
      unfolding admitted is_idempotent
      admitted-IsLatched c a h now l u g =
          ground (arith, journalled-IsLatched (is_idempotent ops c a).1 a h now)

      preflight-IsLatched :
          (c : PairController B P J) (a : ControllerAction) (h : Bool) (now : ℕ)
          → IsLatched journal_ops c
          → c.unresolved_action ≡ h
          → MayEnter a h
          → IsLatched journal_ops (preflight ops probe_ops journal_ops c a h now).1
      unfolding preflight read_pair_configuration
      preflight-IsLatched c a h now l u g =
          ground (arith, admitted-IsLatched (read_pair_configuration probe_ops c).1 a h now)

      pub mutate-IsLatched :
          (c : PairController B P J) (a : ControllerAction) (now : ℕ)
          → IsLatched journal_ops c
          → IsLatched journal_ops (mutate ops probe_ops journal_ops c a now).1
      unfolding mutate
      mutate-IsLatched c a now l = ground (arith, preflight-IsLatched c a c.unresolved_action now)

      pub status-IsLatched :
          (c : PairController B P J) (now : ℕ)
          → IsLatched journal_ops c
          → IsLatched journal_ops (status ops probe_ops c now).1
      unfolding status read_pair_configuration bump_revision
      status-IsLatched c now l = ground arith
