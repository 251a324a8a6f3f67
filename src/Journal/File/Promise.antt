-- ===== src/Journal/File/Promise.antt =====
-- The promise of the uncertainty journal in rust/src/journal.rs: once a mark is reported as done,
-- every restart finds an action pending until a clear is reported as done.
use jbl_aura_play_together.Base.{
  ℕ, ◌≡◌, ◌≢◌, refl, Bool, true, false, arith, some, none, Option, List, [], ◌∷◌, Result, ok, err,
  is_ok, if◌then◌else◌, inl, inr, Bool-cases, Option-cases,
}
use jbl_aura_play_together.Journal.{JournalAction, JournalState, clean, pending, JournalError}
use jbl_aura_play_together.Journal.File.{
  pending_file, Directory, CommitIo, FileUncertaintyJournal, crash, read_state, mark_pending, clear,
  open_entries, assemble,
}
use jbl_aura_play_together.Journal.File.Durable.{
  IsDurable, IsSound, IsMarkerEntry, IsReadable, reads_pending, commit-Committed,
  pending_file-IsSound,
}
use jbl_aura_play_together.Journal.File.Crash.{
  pick-All, crash-IsDurable, OpensPending, open_entries-IsDurable, mark_pending-IsDurable,
  mark_pending_keeps, mark_pending-IsSound, clear_failed_keeps, clear-IsSound,
}

-- What happens to the state directory: calls of a running service with the results of their
-- system calls, and restarts behind a crash.
pub data Event : Type 0 where
  marks : JournalAction → CommitIo → CommitIo → Event
  clears : CommitIo → Bool → Event
  restarts : ℕ → ℕ → CommitIo → Event

-- The directory, the state of the running service (none where its opening failed), and whether a
-- mark was reported as done with no clear reported as done since.
pub record Host : Type 0 where
  pub directory : Directory
  pub running : Option JournalState
  pub owed : Bool

abbrev pub state_of : Result FileUncertaintyJournal JournalError → Option JournalState
state_of (ok j) = some j.state
state_of (err e) = none

-- A host on which no service runs and nothing is owed.
abbrev pub fresh : Directory → Host
fresh d = record { directory = d; running = none; owed = false }

module _ (euid : ℕ) where
  unfoldable pub mark_on : Host → JournalAction → CommitIo → CommitIo → JournalState → Host
  mark_on h a x y s =
      let (r, j) = mark_pending euid a x y (record { directory = h.directory; state = s }) in
      record {
        directory = j.directory;
        running = some j.state;
        owed = if is_ok r then true else h.owed;
      }

  unfoldable pub clear_on : Host → CommitIo → Bool → JournalState → Host
  clear_on h io u s =
      let (r, j) = clear euid io u (record { directory = h.directory; state = s }) in
      record {
        directory = j.directory;
        running = some j.state;
        owed = if is_ok r then false else h.owed;
      }

  unfoldable pub restart_on : Host → ℕ → ℕ → CommitIo → Host
  restart_on h i k io =
      let (r, d) = open_entries euid io (crash i k h.directory) in
      record { directory = d; running = state_of r; owed = h.owed }

  unfoldable pub happen : Host → Event → Host
  unfolding mark_on clear_on restart_on
  happen h (marks a x y) = elim h.running [ none ↦ h | some s ↦ mark_on h a x y s ]
  happen h (clears io u) = elim h.running [ none ↦ h | some s ↦ clear_on h io u s ]
  happen h (restarts i k io) = restart_on h i k io

  unfoldable pub history : Host → List Event → Host
  unfolding happen
  history h [] = h
  history h (e ∷ es) = history (happen h e) es

  pub record Keeps (h : Host) : Type 0 where
    pub sound : IsSound euid h.directory
    pub durable : h.owed ≡ true → IsDurable euid h.directory
    pub fail_closed : h.owed ≡ true → h.running ≢ some clean

  mark_pending-state :
      (a : JournalAction) (x y : CommitIo) (j : FileUncertaintyJournal)
      → (mark_pending euid a x y j).1.state ≡ pending a
  unfolding mark_pending
  mark_pending-state a x y j = ground arith

  clear-state :
      (io : CommitIo) (u : Bool) (j : FileUncertaintyJournal)
      → (clear euid io u j).1.state ≡ (if is_ok (clear euid io u j).0 then clean else j.state)
  unfolding clear
  clear-state io u j = ground arith

  mark_on-Keeps :
      (h : Host) (a : JournalAction) (x y : CommitIo) (s : JournalState)
      → Keeps h
      → Keeps (mark_on h a x y s)
  unfolding mark_on
  mark_on-Keeps h a x y s k =
      let j : FileUncertaintyJournal = record { directory = h.directory; state = s } in
      record {
        sound = mark_pending-IsSound euid a x y j k.sound;
        durable = λ o. elim (Bool-cases (is_ok (mark_pending euid a x y j).0)) [
          | inl e ↦ mark_pending-IsDurable euid a x y j k.sound e
          | inr e ↦ mark_pending_keeps euid a x y j (k.durable (ground arith))
        ];
        fail_closed = λ o c. ground (arith, mark_pending-state a x y j);
      }

  clear_on-Keeps :
      (h : Host) (io : CommitIo) (u : Bool) (s : JournalState)
      → h.running ≡ some s
      → Keeps h
      → Keeps (clear_on h io u s)
  unfolding clear_on
  clear_on-Keeps h io u s r k =
      let j : FileUncertaintyJournal = record { directory = h.directory; state = s } in
      record {
        sound = clear-IsSound euid io u j k.sound;
        durable = λ o. clear_failed_keeps euid io u j (k.durable (ground arith)) (ground arith);
        fail_closed = λ o c. ground (arith, clear-state io u j, k.fail_closed (ground arith));
      }

  crash-IsSound : (i k : ℕ) (d : Directory) → IsSound euid d → IsSound euid (crash i k d)
  unfolding crash
  crash-IsSound i k d h =
      let m =
        pick-All (IsMarkerEntry euid) d.marker_candidates k d.marker h.marker h.marker_candidates in
      let s =
        pick-All (IsReadable euid) d.snapshot_candidates i d.snapshot h.snapshot
          h.snapshot_candidates in
      record {
        marker = m;
        marker_candidates = (m, tt);
        snapshot = s;
        snapshot_candidates = (s, tt);
      }

  assemble-IsSound :
      (s m : Result (Option JournalState) JournalError) (io : CommitIo) (d : Directory)
      → IsSound euid d
      → IsSound euid (assemble euid s m io d).1
  unfolding assemble
  assemble-IsSound (ok (some (pending a))) (ok none) io d h =
      ground
        (arith, pending_file-IsSound euid (commit-Committed euid pending_file (pending a) io d) h)
  assemble-IsSound (ok (some clean)) (ok none) io d h = h
  assemble-IsSound (ok none) (ok none) io d h = h
  assemble-IsSound (ok s) (ok (some (pending b))) io d h = h
  assemble-IsSound (ok s) (ok (some clean)) io d h = h
  assemble-IsSound (ok s) (err e) io d h = h
  assemble-IsSound (err e) m io d h = h

  -- Opening leaves a durable marker where it is.
  assemble_keeps :
      (s m : Result (Option JournalState) JournalError) (io : CommitIo) (d : Directory)
      → reads_pending m ≡ true
      → (assemble euid s m io d).1 ≡ d
  unfolding assemble
  assemble_keeps (ok s) (ok (some (pending a))) io d h = refl
  assemble_keeps (ok s) (ok (some clean)) io d h = refl
  assemble_keeps (ok s) (ok none) io d h = absurd (ground arith)
  assemble_keeps (ok s) (err e) io d h = refl
  assemble_keeps (err e) m io d h = refl

  restart_on-Keeps : (h : Host) (i k : ℕ) (io : CommitIo) → Keeps h → Keeps (restart_on h i k io)
  unfolding restart_on open_entries
  restart_on-Keeps h i k io p =
      let d = crash i k h.directory in
      record {
        sound =
            assemble-IsSound (read_state euid d.snapshot) (read_state euid d.marker) io d
              (crash-IsSound i k h.directory p.sound);
        durable = λ o.
            let c = crash-IsDurable euid i k h.directory (p.durable o) in
            rw
              (assemble_keeps (read_state euid d.snapshot) (read_state euid d.marker) io d c.marker)
              c;
        fail_closed = λ o e.
            let (j, q, r) = open_entries-IsDurable euid i k io h.directory (p.durable o) in
            ground (arith, q, r);
      }

  happen-Keeps : (h : Host) (e : Event) → Keeps h → Keeps (happen h e)
  unfolding happen
  happen-Keeps h (marks a x y) k = elim (Option-cases h.running) [
    | inl e ↦ rw (e, happen) k
    | inr (s, e) ↦ rw (e, happen) (mark_on-Keeps h a x y s k)
  ]
  happen-Keeps h (clears io u) k = elim (Option-cases h.running) [
    | inl e ↦ rw (e, happen) k
    | inr (s, e) ↦ rw (e, happen) (clear_on-Keeps h io u s e k)
  ]
  happen-Keeps h (restarts i k io) p = restart_on-Keeps h i k io p

  history-Keeps : (h : Host) (es : List Event) → Keeps h → Keeps (history h es)
  unfolding history
  history-Keeps h [] k = k
  history-Keeps h (e ∷ es) k = history-Keeps (happen h e) es (happen-Keeps h e k)

  -- From a readable directory with nothing owed, after any marks, clears, failures of their system
  -- calls, crashes and restarts: while a mark is owed, the next restart opens a pending journal,
  -- whatever the crash before it leaves, and a running service holds no clean state.
  pub owed_survives :
      (d : Directory) (es : List Event) (i k : ℕ) (io : CommitIo)
      → IsSound euid d
      → (history (fresh d) es).owed ≡ true
      → OpensPending euid io (crash i k (history (fresh d) es).directory)
        × ((history (fresh d) es).running ≢ some clean)
  owed_survives d es i k io s o =
      let p =
        history-Keeps (fresh d) es
          (record { sound = s; durable = λ f. absurd (cc); fail_closed = λ f. absurd (cc) }) in
      (
        open_entries-IsDurable euid i k io (history (fresh d) es).directory (p.durable o),
        p.fail_closed o,
      )
