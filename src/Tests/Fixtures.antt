-- ===== src/Tests/Fixtures.antt =====
-- Collaborators with fixed answers, over which the backend, the journal and the controller of
-- rust/src run.
use jbl_aura_play_together.Base.{ℕ, true, false, some, [], ◌∷◌, ok}
use jbl_aura_play_together.Model.{DeviceIdentity}
use jbl_aura_play_together.Backend.{AuraAcquisitionRoute}
use jbl_aura_play_together.Journal.{clean}
use jbl_aura_play_together.Journal.File.{Metadata, missing, Directory, CommitIo}
use jbl_aura_play_together.Journal.File.Open.{Io, Scheduled}
use jbl_aura_play_together.Controller.Types.{
  PairConfigurationProbe, PairMemberVerification, unavailable_members,
}
use jbl_aura_play_together.Native.Types.{
  BroadcastResultEvidence, PlayTogetherWriteResult, AuraHealth, AuraBearerTransport,
  AuraFailureReason, AuraActionResult, JblRoleControl, AuraRoleControl, BroadcastResultObserver,
}
use jbl_aura_play_together.Native.{NativePairCore}
use jbl_aura_play_together.Native.Actions.{new}

abbrev pub Peer : Type 0
Peer = Unit {0}

-- Speakers that answer every call with success.
abbrev pub jbl : JblRoleControl Peer
jbl = record {
  enter = λ j. (PlayTogetherWriteResult.accepted, j);
  exit = λ j. (PlayTogetherWriteResult.accepted, j);
}

abbrev pub aura_answering : AuraActionResult → AuraRoleControl Peer
aura_answering answer = record {
  connect_verified = λ id a. (ok tt, a);
  health = λ a. (AuraHealth.ready, a);
  transport = λ a. some AuraBearerTransport.le;
  acquisition_route = λ a. AuraAcquisitionRoute.stable_direct;
  start = λ a. (answer, a);
  stop = λ a. (answer, a);
  shutdown = λ a. (ok tt, a);
}

abbrev pub aura : AuraRoleControl Peer
aura = aura_answering AuraActionResult.accepted

-- An Aura that never acknowledges, and one that refuses before it writes.
abbrev pub silent_aura : AuraRoleControl Peer
silent_aura =
    aura_answering (AuraActionResult.outcome_unknown AuraFailureReason.acknowledgement_timed_out)

abbrev pub refusing_aura : AuraRoleControl Peer
refusing_aura =
    aura_answering (AuraActionResult.rejected_before_send AuraFailureReason.transport_not_ready)

abbrev pub observer : BroadcastResultObserver Peer
observer = record {
  arm = λ action id o. (ok tt, o);
  execute = λ action id o. (ok BroadcastResultEvidence.confirmed_notification, o);
  cancel = λ o. o;
}

abbrev pub Core : Type 0
Core = NativePairCore Peer Peer Peer

abbrev pub jbl_identity : DeviceIdentity
jbl_identity = record { byte_0 = 2; byte_1 = 0; byte_2 = 0; byte_3 = 0; byte_4 = 0; byte_5 = 1 }

abbrev pub aura_identity : DeviceIdentity
aura_identity = record { byte_0 = 2; byte_1 = 0; byte_2 = 0; byte_3 = 0; byte_4 = 0; byte_5 = 2 }

unfoldable pub core : Core
unfolding new
core = new tt tt tt jbl_identity aura_identity 1500

-- A state directory on which every system call succeeds, or every commit fails.
abbrev pub euid : ℕ
euid = 1000

abbrev pub fresh_metadata : Metadata
fresh_metadata = record {
  is_dir = false;
  is_file = true;
  uid = 1000;
  mode = 0o100600;
  nlink = 1;
  len = 0;
}

abbrev pub good_commit : CommitIo
good_commit = record {
  random_ok = true;
  created = some fresh_metadata;
  write_ok = true;
  file_sync_ok = true;
  rename_ok = true;
  directory_sync_ok = true;
}

abbrev pub unsynced_commit : CommitIo
unsynced_commit = record good_commit { directory_sync_ok = false }

abbrev pub full_disk : CommitIo
full_disk = record good_commit { write_ok = false }

abbrev pub empty_directory : Directory
empty_directory = record {
  snapshot = missing;
  marker = missing;
  snapshot_candidates = missing ∷ [];
  marker_candidates = missing ∷ [];
}

abbrev pub good_io : ℕ → Io
good_io n = record { first = good_commit; second = good_commit; unlink_ok = true }

abbrev pub failing_io : ℕ → Io
failing_io n = record { first = full_disk; second = full_disk; unlink_ok = true }

abbrev pub clean_journal : Scheduled
clean_journal = record {
  journal = record { directory = empty_directory; state = clean };
  calls = 0;
}

-- Probes that see the expected pair, and that cannot read it.
abbrev pub probe : PairConfigurationProbe Peer
probe = record {
  pair_configuration = λ p. (
    ok (record {
      exact_pair_configured = true;
      members = unavailable_members PairMemberVerification.verified;
    }),
    p,
  );
}
