-- ===== src/Tests/JournalTests.antt =====
-- Tests of rust/src/journal.rs.
use jbl_aura_play_together.Base.{◌≡◌, refl, ◌≢◌, some, true, false, [], ◌∷◌, List, is_ok, codes}
use jbl_aura_play_together.Journal.{
  clean, pending, start, stop, encode_state, parse_state, JournalLaws,
}
use jbl_aura_play_together.Journal.Codec.{parse_state_iff}
use jbl_aura_play_together.Journal.File.{
  Directory, file, missing, crash, commit, mark_pending, clear, open_entries, read_state,
  FileUncertaintyJournal,
}
use jbl_aura_play_together.Journal.File.Open.{file_journal}
use jbl_aura_play_together.Journal.File.Durable.{IsSound, IsDurable}
use jbl_aura_play_together.Journal.File.Crash.{OpensPending}
use jbl_aura_play_together.Journal.File.Promise.{
  Event, marks, clears, restarts, fresh, history, owed_survives,
}
use jbl_aura_play_together.Journal.File.Reopen.{migration-IsDurable, file_journal-JournalLaws}
use jbl_aura_play_together.Tests.Fixtures.{
  euid, good_commit, unsynced_commit, full_disk, empty_directory, fresh_metadata,
}

abbrev idle : FileUncertaintyJournal
idle = record { directory = empty_directory; state = clean }

-- A mark whose directory sync fails is reported as failed, and a crash may lose it.
lost_mark :
    (is_ok (mark_pending euid start unsynced_commit good_commit idle).0 ≡ false)
    × ((crash 0 1 (mark_pending euid start unsynced_commit good_commit idle).1.directory).marker
        ≡ missing)
unfolding mark_pending commit crash
lost_mark = (refl, refl)

empty_directory-IsSound : IsSound euid empty_directory
unfolding read_state
empty_directory-IsSound = record {
  marker = refl;
  marker_candidates = (refl, tt);
  snapshot = refl;
  snapshot_candidates = (refl, tt);
}

-- A service starts, marks, fails to clear, crashes, and starts again.
abbrev bad_night : List Event
bad_night =
    restarts 0 0 good_commit
    ∷ marks start good_commit good_commit
    ∷ clears unsynced_commit true
    ∷ restarts 0 0 good_commit
    ∷ clears full_disk true
    ∷ []

owed_survives_example :
    OpensPending euid good_commit
      (crash 1 0 (history euid (fresh empty_directory) bad_night).directory)
    × ((history euid (fresh empty_directory) bad_night).running ≢ some clean)
owed_survives_example =
    owed_survives euid empty_directory bad_night 1 0 good_commit empty_directory-IsSound
      (unfold history read_state parse_state mark_pending clear commit open_entries crash in refl)

abbrev marked : FileUncertaintyJournal
marked = record { directory = empty_directory; state = pending stop }

abbrev one_file : Directory
unfolding encode_state
one_file = record {
  snapshot = file (record fresh_metadata { len = 43 }) (encode_state (pending start));
  marker = missing;
  snapshot_candidates = [];
  marker_candidates = [];
}

one_file-IsSound : IsSound euid one_file
unfolding read_state encode_state parse_state
one_file-IsSound = record {
  marker = refl;
  marker_candidates = tt;
  snapshot = refl;
  snapshot_candidates = tt;
}

migration-IsDurable_example : IsDurable euid (open_entries euid good_commit one_file).1
unfolding encode_state
migration-IsDurable_example =
    migration-IsDurable euid good_commit one_file start one_file-IsSound
      (unfold read_state parse_state in refl) (unfold read_state in refl)
      (unfold open_entries read_state parse_state commit in refl)

parse_state_iff_example :
    (parse_state (codes "version=1\nstate=clean\n") ≡ some clean)
    × (parse_state (encode_state (pending stop)) ≡ some (pending stop))
unfolding encode_state
parse_state_iff_example = (
  (parse_state_iff (codes "version=1\nstate=clean\n") clean).1 refl,
  (parse_state_iff (encode_state (pending stop)) (pending stop)).1 refl,
)

-- Every call of this schedule fails in its last step.
file_journal-JournalLaws_example : JournalLaws (
    file_journal euid
      (λ n. record { first = unsynced_commit; second = full_disk; unlink_ok = false }))
file_journal-JournalLaws_example =
    file_journal-JournalLaws euid
      (λ n. record { first = unsynced_commit; second = full_disk; unlink_ok = false })
