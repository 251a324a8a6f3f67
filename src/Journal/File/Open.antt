-- ===== src/Journal/File/Open.antt =====
-- rust/src/journal.rs: `open_under` with its checks of the directory, and the file journal as the
-- controller takes it.
use jbl_aura_play_together.Base.{ℕ, ◌+◌, Bool, not, Result, ok, err, if◌then◌else◌}
use jbl_aura_play_together.Journal.{
  is_pending_state, JournalError, state_directory_unavailable, state_directory_untrusted,
  UncertaintyJournal,
}
use jbl_aura_play_together.Journal.File.{
  CommitIo, Directory, FileUncertaintyJournal, Metadata, clear, mark_pending, open_entries,
  validate_directory_metadata,
}

-- The results of the system calls on the path to the directory.
pub data Stat : Type 0 where
  found : Metadata → Stat
  not_found stat_failed : Stat

pub record OpenIo : Type 0 where
  pub root_is_absolute : Bool
  pub root_created : Bool
  pub directory_stat : Stat
  pub directory_created : Bool
  pub created_stat : Stat
  pub opened : Bool
  pub opened_stat : Stat

module _ (euid : ℕ) where
  unfoldable pub checked_stat : Stat → JournalError → Result (Unit {0}) JournalError
  unfolding validate_directory_metadata
  checked_stat (found m) e = validate_directory_metadata euid m
  checked_stat not_found e = err e
  checked_stat stat_failed e = err e

  -- The checks of `open_under` on the directory, in the order of the source.
  unfoldable pub check_directory : OpenIo → Result (Unit {0}) JournalError
  unfolding checked_stat
  check_directory io =
      if not io.root_is_absolute
      then err state_directory_untrusted
      else if not io.root_created
      then err state_directory_unavailable
      else let present : Result (Unit {0}) JournalError = elim io.directory_stat [
        | found m ↦ validate_directory_metadata euid m
        | not_found ↦
            if io.directory_created
            then checked_stat io.created_stat state_directory_unavailable
            else err state_directory_unavailable
        | stat_failed ↦ err state_directory_unavailable
      ] in
        elim present [
          | err e ↦ err e
          | ok _ ↦
              if io.opened
              then checked_stat io.opened_stat state_directory_untrusted
              else err state_directory_untrusted
        ]

  unfoldable pub open_under :
      OpenIo → CommitIo → Directory → Result FileUncertaintyJournal JournalError × Directory
  unfolding check_directory open_entries
  open_under io commit_io d = elim (check_directory io) [
    | err e ↦ (err e, d)
    | ok _ ↦ open_entries euid commit_io d
  ]

-- A journal with the results of all its coming system calls, one schedule entry to a call.
pub record Io : Type 0 where
  pub first : CommitIo
  pub second : CommitIo
  pub unlink_ok : Bool

pub record Scheduled : Type 0 where
  pub journal : FileUncertaintyJournal
  pub calls : ℕ

module _ (euid : ℕ) (schedule : ℕ → Io) where
  -- `impl UncertaintyJournal for FileUncertaintyJournal`.
  unfoldable pub file_journal : UncertaintyJournal Scheduled
  file_journal = record {
    is_pending = λ s. is_pending_state s.journal.state;
    mark_pending = λ action s.
        let io = schedule s.calls in
        let (r, j) = mark_pending euid action io.first io.second s.journal in
        (r, record { journal = j; calls = s.calls + 1 });
    clear = λ s.
        let io = schedule s.calls in
        let (r, j) = clear euid io.first io.unlink_ok s.journal in
        (r, record { journal = j; calls = s.calls + 1 });
  }
