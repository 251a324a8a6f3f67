-- ===== src/Controller/Types.antt =====
-- rust/src/controller.rs: the closed vocabulary of the controller, and its read-only probe.
use jbl_aura_play_together.Base.{
  ℕ, ◌≡◌, Bool, true, false, ◌==◌, Option, List, [], ◌∷◌, Result, arith,
}
use jbl_aura_play_together.Backend.{PairBackendKind, PairBackendEvidence, PairHealth}
use jbl_aura_play_together.Journal.{JournalAction}

pub data PairConfigurationState : Type 0 where
  ready not_ready unavailable : PairConfigurationState

pub data PairMemberName : Type 0 where
  jbl_authentics_300 aura_studio_5 : PairMemberName

pub data PairMemberChannel : Type 0 where
  front_left front_right left right mono stereo unknown : PairMemberChannel

pub data PairMemberVerification : Type 0 where
  verified not_verified unavailable : PairMemberVerification

pub record PairMemberStatus : Type 0 where
  pub name : PairMemberName
  pub verification : PairMemberVerification
  pub channels : List PairMemberChannel

-- `[PairMemberStatus; 2]`.
pub record PairMembers : Type 0 where
  pub jbl : PairMemberStatus
  pub aura : PairMemberStatus

pub record PairConfigurationObservation : Type 0 where
  pub exact_pair_configured : Bool
  pub members : PairMembers

unfoldable pub fixed_member :
    PairMemberName → PairMemberVerification → List PairMemberChannel → PairMemberStatus
fixed_member name verification channels = record {
  name = name;
  verification = verification;
  channels = channels;
}

unfoldable pub unavailable_members : PairMemberVerification → PairMembers
unfolding fixed_member
unavailable_members v = record {
  jbl = fixed_member jbl_authentics_300 v (PairMemberChannel.unknown ∷ []);
  aura = fixed_member aura_studio_5 v (PairMemberChannel.unknown ∷ []);
}

pub data ManagedLiveState : Type 0 where
  unknown offline ready linking linked unlinking : ManagedLiveState
  recovering degraded shutting_down : ManagedLiveState

pub data ControllerAction : Type 0 where
  start stop shutdown recover_stop : ControllerAction

pub data ControllerActionOutcome : Type 0 where
  accepted accepted_unconfirmed idempotent : ControllerActionOutcome
  rejected_before_send outcome_unknown postcondition_failed : ControllerActionOutcome

pub data ControllerFailure : Type 0 where
  pair_configuration_unavailable expected_pair_not_configured : ControllerFailure
  backend_rejected_before_send aura_adapter_unavailable : ControllerFailure
  aura_discovery_unavailable aura_verified_advertisement_not_found : ControllerFailure
  aura_device_connection_failed aura_wake_profile_connect_failed : ControllerFailure
  aura_wake_fddf_timed_out aura_wake_fddf_invalid aura_wake_fddf_unavailable : ControllerFailure
  aura_wake_profile_release_failed aura_gatt_profile_invalid : ControllerFailure
  aura_notification_setup_failed aura_write_unknown aura_ack_timeout : ControllerFailure
  aura_ack_channel_closed aura_unexpected_ack jbl_enter_outcome_unknown : ControllerFailure
  jbl_exit_outcome_unknown jbl_broadcast_result_timed_out : ControllerFailure
  jbl_broadcast_result_unavailable jbl_broadcast_result_rejected : ControllerFailure
  aura_start_outcome_unknown backend_outcome_unknown : ControllerFailure
  unexpected_backend_lifecycle membership_postcondition_failed : ControllerFailure
  unresolved_prior_action recovery_not_allowed journal_unavailable : ControllerFailure
  journal_commit_failed : ControllerFailure

pub record ControllerActionResult : Type 0 where
  pub action : ControllerAction
  pub outcome : ControllerActionOutcome
  pub managed_state : ManagedLiveState
  pub evidence : Option PairBackendEvidence
  pub failure : Option ControllerFailure
  pub revision : ℕ

pub data PairProbeError : Type 0 where
  unavailable invalid_response : PairProbeError

-- The trait `PairConfigurationProbe`.
pub record PairConfigurationProbe (P : Type 0) : Type 0 where
  pub pair_configuration : P → Result PairConfigurationObservation PairProbeError × P

pub record RecordedAction : Type 0 where
  pub result : ControllerActionResult
  pub recorded_at : ℕ

-- The fields of the recorded result, but for its managed state, with the age.
pub record LastActionStatus : Type 0 where
  pub action : ControllerAction
  pub outcome : ControllerActionOutcome
  pub evidence : Option PairBackendEvidence
  pub failure : Option ControllerFailure
  pub revision : ℕ
  pub age_ms : ℕ

pub record ControllerStatus : Type 0 where
  pub backend : PairBackendKind
  pub pair_configuration : PairConfigurationState
  pub members : PairMembers
  pub managed_state : ManagedLiveState
  pub backend_health : Option PairHealth
  pub unresolved_action : Bool
  pub consecutive_failures : ℕ
  pub revision : ℕ
  pub last_action : Option LastActionStatus

unfoldable pub journal_action : ControllerAction → JournalAction
journal_action start = JournalAction.start
journal_action stop = JournalAction.stop
journal_action shutdown = JournalAction.shutdown
journal_action recover_stop = JournalAction.recover_stop

-- The derived equalities compare discriminants.
abbrev pub action_eq : ControllerAction → ControllerAction → Bool
action_eq start start = true
action_eq stop stop = true
action_eq shutdown shutdown = true
action_eq recover_stop recover_stop = true
action_eq _ _ = false

abbrev pub managed_index : ManagedLiveState → ℕ
managed_index unknown = 0
managed_index offline = 1
managed_index ready = 2
managed_index linking = 3
managed_index linked = 4
managed_index unlinking = 5
managed_index recovering = 6
managed_index degraded = 7
managed_index shutting_down = 8

abbrev pub managed_eq : ManagedLiveState → ManagedLiveState → Bool
managed_eq a b = managed_index a == managed_index b

pub managed_eq_sound : (a b : ManagedLiveState) → managed_eq a b ≡ true → a ≡ b
managed_eq_sound a b h = ground arith
