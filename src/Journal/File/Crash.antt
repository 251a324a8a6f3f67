-- ===== src/Journal/File/Crash.antt =====
-- The journal of rust/src/journal.rs across crashes: what a restart finds.
use jbl_aura_play_together.Base.{
  ℕ, zero, suc, ◌≡◌, refl, Bool, true, false, arith, some, none, Option, List, [], ◌∷◌, All, Result,
  ok, err, is_ok,
}
use jbl_aura_play_together.Journal.{
  JournalAction, JournalState, clean, pending, JournalError, is_pending_state,
}
use jbl_aura_play_together.Journal.File.{
  Entry, journal_file, pending_file, Directory, CommitIo, FileUncertaintyJournal, pick, crash,
  read_state, commit, mark_pending, clear, open_entries, assemble, unlink_marker,
}
use jbl_aura_play_together.Journal.File.Durable.{
  IsDurable, IsSound, IsPendingEntry, IsReadable, reads_pending, commit-Committed,
  journal_file-IsDurable, journal_file-IsSound, pending_file-IsSound, pending_file-IsDurable,
  pending_file_keeps,
}

pub pick-All :
    (P : Entry → Type 0) (es : List Entry) (i : ℕ) (e : Entry) → P e → All P es → P (pick es i e)
pick-All P [] i e h a = h
pick-All P (x ∷ es) zero e h a = a.0
pick-All P (x ∷ es) (suc i) e h a = pick-All P es i e h a.1

module _ (euid : ℕ) where
  pub crash-IsDurable : (i k : ℕ) (d : Directory) → IsDurable euid d → IsDurable euid (crash i k d)
  unfolding crash
  crash-IsDurable i k d h =
      let m =
        pick-All (IsPendingEntry euid) d.marker_candidates k d.marker h.marker
          h.marker_candidates in
      let s =
        pick-All (IsReadable euid) d.snapshot_candidates i d.snapshot h.snapshot
          h.snapshot_candidates in
      record {
        marker = m;
        marker_candidates = (m, tt);
        snapshot = s;
        snapshot_candidates = (s, tt);
      }

  -- The directory opens as a pending journal.
  abbrev pub OpensPending : CommitIo → Directory → Type 0
  OpensPending io d =
      (j : FileUncertaintyJournal) × ((open_entries euid io d).0 ≡ ok j)
      × (is_pending_state j.state ≡ true)

  pub assemble_pending :
      (s m : Result (Option JournalState) JournalError) (io : CommitIo) (d : Directory)
      → is_ok s ≡ true
      → reads_pending m ≡ true
      → (j : FileUncertaintyJournal) × ((assemble euid s m io d).0 ≡ ok j)
        × (is_pending_state j.state ≡ true)
  unfolding assemble
  assemble_pending (ok s) (ok (some (pending a))) io d h k =
      (record { directory = d; state = pending a }, refl, refl)
  assemble_pending (ok s) (ok (some clean)) io d h k = absurd (ground arith)
  assemble_pending (ok s) (ok none) io d h k = absurd (ground arith)
  assemble_pending (ok s) (err e) io d h k = absurd (ground arith)
  assemble_pending (err e) m io d h k = absurd (ground arith)

  -- A durable marker is found by every later opening, whatever a crash makes of the directory.
  pub open_entries-IsDurable :
      (i k : ℕ) (io : CommitIo) (d : Directory) → IsDurable euid d → OpensPending io (crash i k d)
  unfolding open_entries
  open_entries-IsDurable i k io d h =
      let c = crash-IsDurable i k d h in
      assemble_pending (read_state euid (crash i k d).snapshot)
        (read_state euid (crash i k d).marker) io (crash i k d) c.snapshot c.marker

  pub mark_pending-IsDurable :
      (a : JournalAction) (x y : CommitIo) (j : FileUncertaintyJournal)
      → IsSound euid j.directory
      → is_ok (mark_pending euid a x y j).0 ≡ true
      → IsDurable euid (mark_pending euid a x y j).1.directory
  unfolding mark_pending
  mark_pending-IsDurable a x y j h o =
      let first = commit-Committed euid pending_file (pending a) x j.directory in
      let second =
        commit-Committed euid journal_file (pending a) y
          (commit euid pending_file (pending a) x j.directory).1 in
      ground (arith, pending_file-IsDurable euid first h, journal_file-IsDurable euid second)

  pub mark_pending_keeps :
      (a : JournalAction) (x y : CommitIo) (j : FileUncertaintyJournal)
      → IsDurable euid j.directory
      → IsDurable euid (mark_pending euid a x y j).1.directory
  unfolding mark_pending
  mark_pending_keeps a x y j h =
      let first = commit-Committed euid pending_file (pending a) x j.directory in
      let second =
        commit-Committed euid journal_file (pending a) y
          (commit euid pending_file (pending a) x j.directory).1 in
      ground (arith, pending_file_keeps euid first h, journal_file-IsDurable euid second)

  pub mark_pending-IsSound :
      (a : JournalAction) (x y : CommitIo) (j : FileUncertaintyJournal)
      → IsSound euid j.directory
      → IsSound euid (mark_pending euid a x y j).1.directory
  unfolding mark_pending
  mark_pending-IsSound a x y j h =
      let first = commit-Committed euid pending_file (pending a) x j.directory in
      let second =
        commit-Committed euid journal_file (pending a) y
          (commit euid pending_file (pending a) x j.directory).1 in
      ground (arith, pending_file-IsSound euid first h, journal_file-IsSound euid second)

  pub clear_failed_keeps :
      (io : CommitIo) (u : Bool) (j : FileUncertaintyJournal)
      → IsDurable euid j.directory
      → is_ok (clear euid io u j).0 ≡ false
      → IsDurable euid (clear euid io u j).1.directory
  unfolding clear
  clear_failed_keeps io u j h o = ground (
    arith,
    journal_file-IsDurable euid (commit-Committed euid journal_file clean io j.directory) h,
  )

  unlink-IsSound : (d : Directory) → IsSound euid d → IsSound euid (unlink_marker d)
  unfolding read_state
  unlink-IsSound d h = ground arith

  pub clear-IsSound :
      (io : CommitIo) (u : Bool) (j : FileUncertaintyJournal)
      → IsSound euid j.directory
      → IsSound euid (clear euid io u j).1.directory
  unfolding clear
  clear-IsSound io u j h =
      let k =
        journal_file-IsSound euid (commit-Committed euid journal_file clean io j.directory) h in
      ground (arith, k, unlink-IsSound (commit euid journal_file clean io j.directory).1 k)
