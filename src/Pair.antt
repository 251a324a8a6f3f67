-- ===== src/Pair.antt =====
-- The parts composed as rust/src/service_runtime.rs composes them: rust/src/controller.rs over the
-- file journal of rust/src/journal.rs, and over the native backend of rust/src/backend_native.rs.
pub mod Trace
use jbl_aura_play_together.Base.{
  ℕ, ◌≤◌, u64_max, ◌≡◌, ◌≢◌, ◌⊎◌, refl, sym, ap, ◌∙◌, inl, inr, Bool, true, false, arith, is_ok,
  List, [], ◌∷◌, All,
}
use jbl_aura_play_together.Backend.{
  PairBackend, PairLifecycle, PairActionReceipt, PairActionResult, accepted,
}
use jbl_aura_play_together.Backend.Transaction.Pinning.{checked_action-accepted}
use jbl_aura_play_together.Backend.Transaction
use jbl_aura_play_together.Journal.{UncertaintyJournal}
use jbl_aura_play_together.Journal.File.{Directory, CommitIo, crash, mark_pending, clear}
use jbl_aura_play_together.Journal.File.Open.{Io, Scheduled, file_journal}
use jbl_aura_play_together.Journal.File.Durable.{IsSound, IsDurable}
use jbl_aura_play_together.Journal.File.Crash.{
  OpensPending, open_entries-IsDurable, mark_pending-IsDurable, clear_failed_keeps,
}
use jbl_aura_play_together.Controller.Types.{
  ControllerAction, PairConfigurationProbe, journal_action,
}
use jbl_aura_play_together.Controller.State.{PairController}
use jbl_aura_play_together.Controller.Reduce.{read_pair_configuration}
use jbl_aura_play_together.Controller.{mutate, is_idempotent, attempt}
use jbl_aura_play_together.Controller.Endings.{is_uncertain, mutate-Recorded}
use jbl_aura_play_together.Controller.Evidence.{succeeded, Confirmed, mutate-Confirmed, handed}
use jbl_aura_play_together.Controller.Owing.{Owes, mutate-Owes}
use jbl_aura_play_together.Controller.Session.{Request, IsNoRecovery, run, run_latched}

module _ {B P : Type 0} (ops : PairBackend B) (probe_ops : PairConfigurationProbe P) (euid : ℕ)
    (schedule : ℕ → Io) where
  Owes-IsDurable :
      (j k : Scheduled)
      → IsDurable euid j.journal.directory
      → Owes (file_journal euid schedule) j k
      → IsDurable euid k.journal.directory
  unfolding file_journal
  Owes-IsDurable j k h (inl e) = rw e h
  Owes-IsDurable j k h (inr (o, e)) =
      let io = schedule j.calls in
      rw e (clear_failed_keeps euid io.first io.unlink_ok j.journal h o)

  mark-IsDurable :
      (a : ControllerAction) (j : Scheduled)
      → IsSound euid j.journal.directory
      → is_ok ((file_journal euid schedule).mark_pending (journal_action a) j).0 ≡ true
      → IsDurable euid
          ((file_journal euid schedule).mark_pending (journal_action a) j).1.journal.directory
  unfolding file_journal
  mark-IsDurable a j h o =
      let io = schedule j.calls in
      mark_pending-IsDurable euid (journal_action a) io.first io.second j.journal h o

  uncertain-IsDurable :
      (c : PairController B P Scheduled) (a : ControllerAction) (now : ℕ)
      → IsSound euid c.journal.journal.directory
      → is_uncertain (mutate ops probe_ops (file_journal euid schedule) c a now).0.outcome ≡ true
      → IsDurable euid
          (mutate ops probe_ops (file_journal euid schedule) c a now).1.journal.journal.directory
  uncertain-IsDurable c a now h u =
      let (o, w) = mutate-Owes (file_journal euid schedule) probe_ops ops c a now u in
      Owes-IsDurable _ _ (mark-IsDurable a c.journal h o) w

  uncertain_latches :
      (c : PairController B P Scheduled) (a : ControllerAction) (now : ℕ)
      → c.revision ≤ u64_max
      → is_uncertain (mutate ops probe_ops (file_journal euid schedule) c a now).0.outcome ≡ true
      → (mutate ops probe_ops (file_journal euid schedule) c a now).1.unresolved_action ≡ true
  uncertain_latches c a now b u =
      ground
        (arith, (mutate-Recorded (file_journal euid schedule) probe_ops ops c a now b).uncertain)

  -- Over the file journal in a readable directory, for a controller whose revision is a u64: after
  -- an action that ends uncertain, and any further requests without a recovery, whatever the system
  -- calls answer, a crash at that point leaves a directory that the next start opens as pending.
  pub uncertain_survives :
      (c : PairController B P Scheduled) (a : ControllerAction) (now : ℕ) (rs : List Request)
      (i k : ℕ) (io : CommitIo)
      → IsSound euid c.journal.journal.directory
      → c.revision ≤ u64_max
      → is_uncertain (mutate ops probe_ops (file_journal euid schedule) c a now).0.outcome ≡ true
      → All IsNoRecovery rs
      → OpensPending euid io (
          crash i k
            (run ops probe_ops
              (file_journal euid schedule)
              (mutate ops probe_ops (file_journal euid schedule) c a now).1
              rs).journal.journal.directory)
  uncertain_survives c a now rs i k io s b u n =
      let j = file_journal euid schedule in
      let c' = (mutate ops probe_ops j c a now).1 in
      let (_, same, _) =
        run_latched ops probe_ops j (λ _. Unit) (λ _ _. tt) c' rs (uncertain_latches c a now b u) n
          tt in
      rw same (
        open_entries-IsDurable euid i k io c'.journal.journal.directory
          (uncertain-IsDurable c a now s u))
