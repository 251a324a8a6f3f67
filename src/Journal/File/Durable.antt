-- ===== src/Journal/File/Durable.antt =====
-- What a crash can do to the uncertainty journal of rust/src/journal.rs.
use jbl_aura_play_together.Base.{
  ℕ, ◌≡◌, refl, Bool, true, false, arith, some, none, Option, List, [], ◌∷◌, All, length, Result,
  ok, err, is_ok,
}
use jbl_aura_play_together.Journal.{
  JournalAction, start, stop, shutdown, recover_stop, JournalState, clean, pending, JournalError,
  journal_write_failed, encode_state, parse_state,
}
use jbl_aura_play_together.Journal.File.{
  Metadata, Entry, file, Name, journal_file, pending_file, Directory, CommitIo, rename_entry,
  sync_directory, validate_journal_metadata, parse_payload, read_state, commit,
}

abbrev pub reads_pending : Result (Option JournalState) JournalError → Bool
reads_pending (ok (some (pending a))) = true
reads_pending _ = false

-- What `open_under` accepts of the marker: none, or a pending one.
abbrev pub reads_marker : Result (Option JournalState) JournalError → Bool
reads_marker (ok none) = true
reads_marker (ok (some (pending a))) = true
reads_marker _ = false

parse_payload-encode_state : (s : JournalState) → parse_payload (encode_state s) ≡ ok (some s)
unfolding parse_payload parse_state encode_state
parse_payload-encode_state clean = refl
parse_payload-encode_state (pending start) = refl
parse_payload-encode_state (pending stop) = refl
parse_payload-encode_state (pending shutdown) = refl
parse_payload-encode_state (pending recover_stop) = refl

module _ (euid : ℕ) where
  -- Every entry that a crash may leave under a name reads as a pending action, or as some state.
  abbrev pub IsPendingEntry : Entry → Type 0
  IsPendingEntry e = reads_pending (read_state euid e) ≡ true

  abbrev pub IsMarkerEntry : Entry → Type 0
  IsMarkerEntry e = reads_marker (read_state euid e) ≡ true

  abbrev pub IsReadable : Entry → Type 0
  IsReadable e = is_ok (read_state euid e) ≡ true

  -- The marker is on disk, whatever the host does next, and so is some snapshot.
  pub record IsDurable (d : Directory) : Type 0 where
    pub marker : IsPendingEntry d.marker
    pub marker_candidates : All IsPendingEntry d.marker_candidates
    pub snapshot : IsReadable d.snapshot
    pub snapshot_candidates : All IsReadable d.snapshot_candidates

  -- The two names are readable now and after any crash.
  pub record IsSound (d : Directory) : Type 0 where
    pub marker : IsMarkerEntry d.marker
    pub marker_candidates : All IsMarkerEntry d.marker_candidates
    pub snapshot : IsReadable d.snapshot
    pub snapshot_candidates : All IsReadable d.snapshot_candidates

  abbrev pub written : Metadata → JournalState → Entry
  written m s = file (record m { len = length (encode_state s) }) (encode_state s)

  pub read_state-written :
      (m : Metadata) (s : JournalState)
      → is_ok (validate_journal_metadata euid m false) ≡ true
      → read_state euid (written m s) ≡ ok (some s)
  unfolding read_state validate_journal_metadata encode_state
  read_state-written m clean h = ground (arith, parse_payload-encode_state clean)
  read_state-written m (pending start) h =
      ground (arith, parse_payload-encode_state (pending start))
  read_state-written m (pending stop) h = ground (arith, parse_payload-encode_state (pending stop))
  read_state-written m (pending shutdown) h =
      ground (arith, parse_payload-encode_state (pending shutdown))
  read_state-written m (pending recover_stop) h =
      ground (arith, parse_payload-encode_state (pending recover_stop))

  -- A commit changes nothing, or it renames a good file over the name; it is reported as done only
  -- behind the rename and the sync of the directory.
  pub data Committed (name : Name) (s : JournalState) (d : Directory)
      : Result (Unit {0}) JournalError × Directory → Type 0 where
    unchanged : Committed name s d (err journal_write_failed, d)
    published :
        (m : Metadata)
        → is_ok (validate_journal_metadata euid m false) ≡ true
        → Committed name s d (err journal_write_failed, rename_entry name (written m s) d)
    done :
        (m : Metadata)
        → is_ok (validate_journal_metadata euid m false) ≡ true
        → Committed name s d (ok tt, sync_directory (rename_entry name (written m s) d))

  pub commit-Committed :
      (name : Name) (s : JournalState) (io : CommitIo) (d : Directory)
      → Committed name s d (commit euid name s io d)
  unfolding commit
  commit-Committed name s io d = go io.created
    where
      go :
          (created : Option Metadata)
          → Committed name s d (commit euid name s (record io { created = created }) d)
      go none = unchanged
      go (some m) =
          let a : Committed name s d (err journal_write_failed, d) = unchanged in
          let b : is_ok (validate_journal_metadata euid m false) ≡ true
              → Committed name s d (err journal_write_failed, rename_entry name (written m s) d) =
            published m in
          let e : is_ok (validate_journal_metadata euid m false) ≡ true
              → Committed name s d (ok tt, sync_directory (rename_entry name (written m s) d)) =
            done m in
          ground (arith, a, b, e)

  written-IsPendingEntry :
      (m : Metadata) (a : JournalAction)
      → is_ok (validate_journal_metadata euid m false) ≡ true
      → IsPendingEntry (written m (pending a))
  written-IsPendingEntry m a h = rw (read_state-written m (pending a) h)

  written-IsReadable :
      (m : Metadata) (s : JournalState)
      → is_ok (validate_journal_metadata euid m false) ≡ true
      → IsReadable (written m s)
  written-IsReadable m s h = rw (read_state-written m s h)

  IsPendingEntry-IsMarkerEntry : (e : Entry) → IsPendingEntry e → IsMarkerEntry e
  IsPendingEntry-IsMarkerEntry e h = ground arith

  All-IsMarkerEntry : (es : List Entry) → All IsPendingEntry es → All IsMarkerEntry es
  All-IsMarkerEntry [] h = tt
  All-IsMarkerEntry (e ∷ es) h = (IsPendingEntry-IsMarkerEntry e h.0, All-IsMarkerEntry es h.1)

  pub IsDurable-IsSound : {d : Directory} → IsDurable d → IsSound d
  IsDurable-IsSound {d} h = record {
    marker = IsPendingEntry-IsMarkerEntry d.marker h.marker;
    marker_candidates = All-IsMarkerEntry d.marker_candidates h.marker_candidates;
    snapshot = h.snapshot;
    snapshot_candidates = h.snapshot_candidates;
  }

  -- A commit of the snapshot leaves the marker where it is.
  pub journal_file-IsDurable :
      {s : JournalState} {d : Directory} {x : Result (Unit {0}) JournalError × Directory}
      → Committed journal_file s d x
      → IsDurable d
      → IsDurable x.1
  journal_file-IsDurable unchanged h = h
  journal_file-IsDurable {s} (published m v) h = ground (arith, written-IsReadable m s v)
  journal_file-IsDurable {s} (done m v) h = ground (arith, written-IsReadable m s v)

  pub journal_file-IsSound :
      {s : JournalState} {d : Directory} {x : Result (Unit {0}) JournalError × Directory}
      → Committed journal_file s d x
      → IsSound d
      → IsSound x.1
  journal_file-IsSound unchanged h = h
  journal_file-IsSound {s} (published m v) h = ground (arith, written-IsReadable m s v)
  journal_file-IsSound {s} (done m v) h = ground (arith, written-IsReadable m s v)

  -- A commit of the marker that is reported as done is on disk.
  pub pending_file-IsSound :
      {a : JournalAction} {d : Directory} {x : Result (Unit {0}) JournalError × Directory}
      → Committed pending_file (pending a) d x
      → IsSound d
      → IsSound x.1
  pending_file-IsSound unchanged h = h
  pending_file-IsSound {a} (published m v) h = ground (arith, written-IsPendingEntry m a v)
  pending_file-IsSound {a} (done m v) h = ground (arith, written-IsPendingEntry m a v)

  pub pending_file-IsDurable :
      {a : JournalAction} {d : Directory} {x : Result (Unit {0}) JournalError × Directory}
      → Committed pending_file (pending a) d x
      → IsSound d
      → is_ok x.0 ≡ true
      → IsDurable x.1
  pending_file-IsDurable unchanged h o = absurd (cc)
  pending_file-IsDurable (published m v) h o = absurd (cc)
  pending_file-IsDurable {a} (done m v) h o = ground (arith, written-IsPendingEntry m a v)

  -- A marker that was on disk stays there, whatever becomes of a later commit of the marker.
  pub pending_file_keeps :
      {a : JournalAction} {d : Directory} {x : Result (Unit {0}) JournalError × Directory}
      → Committed pending_file (pending a) d x
      → IsDurable d
      → IsDurable x.1
  pending_file_keeps unchanged h = h
  pending_file_keeps {a} (published m v) h = ground (arith, written-IsPendingEntry m a v)
  pending_file_keeps {a} (done m v) h = ground (arith, written-IsPendingEntry m a v)
