-- ===== src/Journal/File/Reopen.antt =====
-- The journal of rust/src/journal.rs reopened: after a reported clear, and from the snapshot that
-- the one-file implementation left. It also fills the interface that the controller takes.
use jbl_aura_play_together.Base.{
  ℕ, ◌≡◌, ◌≢◌, refl, sym, ◌∙◌, Bool, true, false, arith, some, none, Option, [], ◌∷◌, Result, ok,
  is_ok, ◌⊎◌, inl, inr,
}
use jbl_aura_play_together.Journal.{
  JournalAction, JournalState, clean, pending, JournalError, JournalLaws,
}
use jbl_aura_play_together.Journal.File.{
  Entry, missing, unopenable, file, journal_file, pending_file, Directory, CommitIo, unlink_entry,
  unlinked, unlink_failed, FileUncertaintyJournal, read_state, commit, mark_pending, clear,
  open_entries, assemble,
}
use jbl_aura_play_together.Journal.File.Open.{Io, file_journal}
use jbl_aura_play_together.Journal.File.Durable.{
  IsDurable, IsSound, Committed, unchanged, published, done, commit-Committed, read_state-written,
  pending_file-IsDurable,
}

module _ (euid : ℕ) where
  -- The clean snapshot is the only one that a crash can leave, and the marker is gone now.
  pub record IsCleared (d : Directory) : Type 0 where
    pub marker : read_state euid d.marker ≡ ok none
    pub snapshot : read_state euid d.snapshot ≡ ok (some clean)
    pub only : d.snapshot_candidates ≡ d.snapshot ∷ []

  Committed-snapshot :
      {d : Directory} {x : Result (Unit {0}) JournalError × Directory}
      → Committed euid journal_file clean d x
      → is_ok x.0 ≡ true
      → (read_state euid x.1.snapshot ≡ ok (some clean))
        × (x.1.snapshot_candidates ≡ x.1.snapshot ∷ [])
        × (x.1.marker ≡ d.marker)
  Committed-snapshot unchanged o = absurd (cc)
  Committed-snapshot (published m v) o = absurd (cc)
  Committed-snapshot (done m v) o = (read_state-written euid m clean v, refl, refl)

  unlink_entry_missing :
      (u : Bool) (e : Entry)
      → unlink_entry u e ≢ unlink_failed
      → (unlink_entry u e ≡ unlinked) ⊎ (e ≡ missing)
  unlink_entry_missing true missing h = inr refl
  unlink_entry_missing true unopenable h = inl refl
  unlink_entry_missing true (file m x) h = inl refl
  unlink_entry_missing false e h = absurd (h refl)

  read_state-missing : read_state euid missing ≡ ok none
  unfolding read_state
  read_state-missing = refl

  clear-IsCleared :
      (io : CommitIo) (u : Bool) (j : FileUncertaintyJournal)
      → is_ok (clear euid io u j).0 ≡ true
      → IsCleared (clear euid io u j).1.directory
  unfolding clear
  clear-IsCleared io u j o =
      let d = (commit euid journal_file clean io j.directory).1 in
      let c = Committed-snapshot (commit-Committed euid journal_file clean io j.directory) in
      let m = unlink_entry_missing u d.marker in
      record {
        marker = ground (arith, c, m, read_state-missing);
        snapshot = ground (arith, c);
        only = ground (arith, c);
      }

  clear-state_clean :
      (io : CommitIo) (u : Bool) (j : FileUncertaintyJournal)
      → is_ok (clear euid io u j).0 ≡ true
      → (clear euid io u j).1.state ≡ clean
  unfolding clear
  clear-state_clean io u j o = ground arith

  assemble_clean :
      (s m : Result (Option JournalState) JournalError) (io : CommitIo) (d : Directory)
      → s ≡ ok (some clean)
      → m ≡ ok none
      → assemble euid s m io d ≡ (ok (record { directory = d; state = clean }), d)
  unfolding assemble
  assemble_clean s m io d p q = ground arith

  -- A clear that is reported as done leaves a clean service, and the next opening of the directory
  -- is clean too, with the directory as it is.
  pub clear_reopens_clean :
      (io : CommitIo) (u : Bool) (j : FileUncertaintyJournal) (io' : CommitIo)
      → is_ok (clear euid io u j).0 ≡ true
      → ((clear euid io u j).1.state ≡ clean)
        × (open_entries euid io' (clear euid io u j).1.directory ≡ (
          ok (record { directory = (clear euid io u j).1.directory; state = clean }),
          (clear euid io u j).1.directory,
        ))
  unfolding open_entries
  clear_reopens_clean io u j io' o =
      let c = clear-IsCleared io u j o in
      (clear-state_clean io u j o, assemble_clean _ _ io' _ c.snapshot c.marker)

  assemble_migrates :
      (io : CommitIo) (d : Directory) (a : JournalAction)
      (s m : Result (Option JournalState) JournalError)
      → s ≡ ok (some (pending a))
      → m ≡ ok none
      → (is_ok (assemble euid s m io d).0 ≡ is_ok (commit euid pending_file (pending a) io d).0)
        × ((assemble euid s m io d).1 ≡ (commit euid pending_file (pending a) io d).1)
  unfolding assemble
  assemble_migrates io d a s m p q = ground arith

  -- The snapshot of the one-file implementation, pending and with no marker beside it: a controller
  -- is only opened over it with the marker on disk.
  pub migration-IsDurable :
      (io : CommitIo) (d : Directory) (a : JournalAction)
      → IsSound euid d
      → read_state euid d.snapshot ≡ ok (some (pending a))
      → read_state euid d.marker ≡ ok none
      → is_ok (open_entries euid io d).0 ≡ true
      → IsDurable euid (open_entries euid io d).1
  unfolding open_entries
  migration-IsDurable io d a s p q o =
      let (e, f) = assemble_migrates io d a _ _ p q in
      rw f (
        pending_file-IsDurable euid (commit-Committed euid pending_file (pending a) io d) s
          (sym e ∙ o))

module _ (euid : ℕ) (schedule : ℕ → Io) where
  -- The file journal keeps the laws that the controller relies on, whatever its system calls do.
  pub file_journal-JournalLaws : JournalLaws (file_journal euid schedule)
  unfolding file_journal mark_pending clear
  file_journal-JournalLaws = record {
    marked = λ a s o. ground arith;
    mark_failed = λ a s o p. ground arith;
    cleared = λ s o. ground arith;
    clear_failed = λ s o. ground arith;
  }
