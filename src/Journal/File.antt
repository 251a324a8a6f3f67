-- ===== src/Journal/File.antt =====
-- rust/src/journal.rs, `FileUncertaintyJournal`: the journal of the real service, over a model of
-- its state directory.
--
-- The directory is what `openat2`, `renameat`, `unlinkat` and `fsync` make of the two fixed names.
-- Of each name the model keeps the entry that a process sees now, and every entry that may be
-- there after a crash: a rename or an unlink adds a candidate, a successful `fsync` of the
-- directory leaves the present one alone. The results of the system calls are arguments. Names of
-- temporary files, which no reader opens, are not part of the state.
pub mod Open
pub mod Durable
pub mod Crash
pub mod Promise
pub mod Reopen
use jbl_aura_play_together.Base.{
  ℕ, zero, suc, ◌+◌, ◌%◌, Bool, true, false, not, ◌&&◌, ◌||◌, ltb, ◌==◌, Option, none, some, List,
  [], ◌∷◌, length, take, Result, ok, err, is_ok, if◌then◌else◌,
}
use jbl_aura_play_together.Journal.{
  JournalAction, JournalState, clean, pending, is_pending_state, JournalError,
  state_directory_unavailable, state_directory_untrusted, journal_untrusted, journal_invalid,
  journal_write_failed, encode_state, parse_state, UncertaintyJournal,
}

abbrev pub max_journal_bytes : ℕ
max_journal_bytes = 128

pub record Metadata : Type 0 where
  pub is_dir : Bool
  pub is_file : Bool
  pub uid : ℕ
  pub mode : ℕ
  pub nlink : ℕ
  pub len : ℕ

pub data Entry : Type 0 where
  missing unopenable : Entry
  file : Metadata → List ℕ → Entry

pub data Name : Type 0 where
  journal_file pending_file : Name

pub record Directory : Type 0 where
  pub snapshot : Entry
  pub marker : Entry
  pub snapshot_candidates : List Entry
  pub marker_candidates : List Entry

-- The results of the system calls of one `commit`; `created` is the metadata of the new file.
pub record CommitIo : Type 0 where
  pub random_ok : Bool
  pub created : Option Metadata
  pub write_ok : Bool
  pub file_sync_ok : Bool
  pub rename_ok : Bool
  pub directory_sync_ok : Bool

pub data Unlinked : Type 0 where
  unlinked no_entry unlink_failed : Unlinked

pub record FileUncertaintyJournal : Type 0 where
  pub directory : Directory
  pub state : JournalState

abbrev pub rename_entry : Name → Entry → Directory → Directory
rename_entry journal_file e d = record d {
  snapshot = e;
  snapshot_candidates = e ∷ d.snapshot_candidates;
}
rename_entry pending_file e d = record d { marker = e; marker_candidates = e ∷ d.marker_candidates }

abbrev pub unlink_marker : Directory → Directory
unlink_marker d = record d { marker = missing; marker_candidates = missing ∷ d.marker_candidates }

-- `unlink_entry` of the marker, given whether the system lets the call through.
abbrev pub unlink_entry : Bool → Entry → Unlinked
unlink_entry false e = unlink_failed
unlink_entry true missing = no_entry
unlink_entry true _ = unlinked

abbrev pub sync_directory : Directory → Directory
sync_directory d = record d {
  snapshot_candidates = d.snapshot ∷ [];
  marker_candidates = d.marker ∷ [];
}

abbrev pub pick : List Entry → ℕ → Entry → Entry
pick [] i e = e
pick (x ∷ xs) zero e = x
pick (x ∷ xs) (suc i) e = pick xs i e

-- A crash leaves of each name one of its candidates, and all of it is then on disk.
unfoldable pub crash : ℕ → ℕ → Directory → Directory
crash i k d =
    let snapshot = pick d.snapshot_candidates i d.snapshot in
    let marker = pick d.marker_candidates k d.marker in
    record {
      snapshot = snapshot;
      marker = marker;
      snapshot_candidates = snapshot ∷ [];
      marker_candidates = marker ∷ [];
    }

-- The part of `read_state` behind the metadata check. Bytes that are not UTF-8 are no state's
-- text, and both refusals are the same error.
unfoldable pub parse_payload : List ℕ → Result (Option JournalState) JournalError
parse_payload content =
    let payload = take (max_journal_bytes + 1) content in
    if ltb max_journal_bytes (length payload)
    then err journal_invalid
    else elim (parse_state payload) [ some s ↦ ok (some s) | none ↦ err journal_invalid ]

-- The `match marker` of `open_under`.
unfoldable pub initial_state :
    Option JournalState → Option JournalState → Result JournalState JournalError
initial_state (some (pending action)) snapshot = ok (pending action)
initial_state (some clean) snapshot = err journal_invalid
initial_state none none = ok clean
initial_state none (some s) = ok s

abbrev pub needs_migration : Option JournalState → Option JournalState → Bool
needs_migration none (some (pending action)) = true
needs_migration _ _ = false

module _ (euid : ℕ) where
  unfoldable pub validate_directory_metadata : Metadata → Result (Unit {0}) JournalError
  validate_directory_metadata m =
      if not m.is_dir || not (m.uid == euid) || not (m.mode % 512 == 0o700)
      then err state_directory_untrusted
      else ok tt

  unfoldable pub validate_journal_metadata : Metadata → Bool → Result (Unit {0}) JournalError
  validate_journal_metadata m enforce_size =
      if not m.is_file
        || not (m.uid == euid)
        || not (m.mode % 512 == 0o600)
        || not (m.nlink == 1)
        || (enforce_size && ltb max_journal_bytes m.len)
      then err journal_untrusted
      else ok tt

  unfoldable pub read_state : Entry → Result (Option JournalState) JournalError
  unfolding parse_payload validate_journal_metadata
  read_state missing = ok none
  read_state unopenable = err journal_untrusted
  read_state (file m content) = elim (validate_journal_metadata m true) [
    | err e ↦ err e
    | ok _ ↦ parse_payload content
  ]

  -- `commit`: every failure is `JournalWriteFailed`; only the last two steps touch a name.
  unfoldable pub commit :
      Name → JournalState → CommitIo → Directory → Result (Unit {0}) JournalError × Directory
  unfolding validate_journal_metadata encode_state
  commit name state io d = elim io.created [
    | none ↦ (err journal_write_failed, d)
    | some m ↦
        if not io.random_ok || not (is_ok (validate_journal_metadata m false))
        then (err journal_write_failed, d)
        else if not io.write_ok || not io.file_sync_ok || not io.rename_ok
        then (err journal_write_failed, d)
        else let written =
            file (record m { len = length (encode_state state) }) (encode_state state) in
          let d' = rename_entry name written d in
          if io.directory_sync_ok
          then (ok tt, sync_directory d')
          else (err journal_write_failed, d')
  ]

  unfoldable pub mark_pending :
      JournalAction
      → CommitIo
      → CommitIo
      → FileUncertaintyJournal
      → Result (Unit {0}) JournalError × FileUncertaintyJournal
  mark_pending action first second j =
      let state = pending action in
      let (marked, d) = commit pending_file state first j.directory in
      let (copied, d') = commit journal_file state second d in
      if is_ok marked
      then (copied, record { directory = d'; state = state })
      else (marked, record { directory = d; state = state })

  unfoldable pub clear :
      CommitIo
      → Bool
      → FileUncertaintyJournal
      → Result (Unit {0}) JournalError × FileUncertaintyJournal
  clear io unlink_ok j =
      let (committed, d) = commit journal_file clean io j.directory in
      if is_ok committed
      then elim (unlink_entry unlink_ok d.marker) [
        | unlinked ↦ (ok tt, record { directory = unlink_marker d; state = clean })
        | no_entry ↦ (ok tt, record { directory = d; state = clean })
        | unlink_failed ↦ (err journal_write_failed, record { directory = d; state = j.state })
      ]
      else (committed, record { directory = d; state = j.state })

  -- The migration of a journal that the one-file implementation wrote.
  unfoldable pub migrate :
      Bool
      → JournalState
      → CommitIo
      → Directory
      → Result FileUncertaintyJournal JournalError × Directory
  migrate needed state io d =
      let (committed, d') = commit pending_file state io d in
      if needed
      then elim committed [
        | ok _ ↦ (ok (record { directory = d'; state = state }), d')
        | err e ↦ (err e, d')
      ]
      else (ok (record { directory = d; state = state }), d)

  -- What `open_under` makes of the two reads, in the order of the source.
  unfoldable pub assemble :
      Result (Option JournalState) JournalError
      → Result (Option JournalState) JournalError
      → CommitIo
      → Directory
      → Result FileUncertaintyJournal JournalError × Directory
  unfolding initial_state migrate
  assemble (err e) marker io d = (err e, d)
  assemble (ok snapshot) (err e) io d = (err e, d)
  assemble (ok snapshot) (ok marker) io d = elim (initial_state marker snapshot) [
    | err e ↦ (err e, d)
    | ok state ↦ migrate (needs_migration marker snapshot) state io d
  ]

  -- The part of `open_under` behind the checks of the directory.
  unfoldable pub open_entries :
      CommitIo → Directory → Result FileUncertaintyJournal JournalError × Directory
  unfolding assemble
  open_entries io d = assemble (read_state d.snapshot) (read_state d.marker) io d
