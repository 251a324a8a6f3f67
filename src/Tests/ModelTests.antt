-- ===== src/Tests/ModelTests.antt =====
-- Tests of rust/src/model.rs, rust/src/control.rs, rust/src/aura_protocol.rs and the observation of
-- rust/src/controller.rs.
use jbl_aura_play_together.Base.{
  ℕ, ◌≡◌, ◌≤◌, refl, arith, Bool, true, false, Option, some, none, List, [], ◌∷◌, ok, err, codes,
  same, length, if◌then◌else◌, trim, trim_start, trim_end, utf8,
}
use jbl_aura_play_together.Model.{
  binary, hex_nibble, upper_hex_digit, joined, compact_config_value, strip_separators, separated,
  digits_of, read_bytes, admit, parse, from_member_id, identity_eq, matches_binary,
}
use jbl_aura_play_together.Model.Identity.{IsIdentity, parse_reads_back}
use jbl_aura_play_together.Model.Group.{
  JsonValue, GroupStatus, parse_group_status, parse_members, parse_member, parse_channels,
  public_name, public_channel, is_allowed_channel, error_code_is_zero, group_status,
}
use jbl_aura_play_together.Model.Group.Faithful.{IsFaithful, parse_group_status-IsFaithful}
use jbl_aura_play_together.Error.{
  device_info_missing, control_command_rejected, basic_response_code_invalid,
}
use jbl_aura_play_together.Model.DeviceInfo.{version_of, parse_device_info}
use jbl_aura_play_together.Control.Response.{pos_int, neg_int, float, number, match_code}
use jbl_aura_play_together.Control.{start, command_id, payload_json, pl_frame}
use jbl_aura_play_together.Control.Frame.{read_frame, max_write, pl_frame_reads_back}
use jbl_aura_play_together.AuraProtocol.{harman_fddf_uuid, matches_verified_fddf}
use jbl_aura_play_together.Controller.Observation.{from_group_status}
use jbl_aura_play_together.Controller.Observation.Members.{
  IsObservation, from_group_status-parse_group_status,
}
use jbl_aura_play_together.Tests.Fixtures.{jbl_identity, aura_identity}

jbl_identity-IsIdentity : IsIdentity jbl_identity
unfolding binary
jbl_identity-IsIdentity = record {
  bytes =
      (omega arith, (omega arith, (omega arith, (omega arith, (omega arith, (omega arith, tt))))));
  unicast = refl;
  nonzero = refl;
}

parse_reads_back_example :
    (parse (compact_config_value jbl_identity) ≡ some jbl_identity)
    × (parse (joined upper_hex_digit b':' (binary jbl_identity)) ≡ some jbl_identity)
parse_reads_back_example = parse_reads_back jbl_identity jbl_identity-IsIdentity

parsed : parse (codes " 02-00-00-00-00-01\n") ≡ some jbl_identity
unfolding parse digits_of separated strip_separators read_bytes hex_nibble admit binary trim
    trim_start trim_end utf8
parsed = refl

-- A group address, and mixed separators.
not_parsed : (parse (codes "030000000001") ≡ none) × (parse (codes "02:00:00:00:00-01") ≡ none)
unfolding parse digits_of separated strip_separators read_bytes hex_nibble admit binary trim
    trim_start trim_end utf8
not_parsed = (refl, refl)

pl_frame_reads_back_example :
    (f : List ℕ) × (pl_frame (start jbl_identity) ≡ some f)
    × (read_frame f ≡ some (command_id, payload_json (start jbl_identity)))
    × (length f ≤ max_write)
pl_frame_reads_back_example = pl_frame_reads_back (start jbl_identity)

abbrev advertisement : List ℕ
advertisement = 0x2d ∷ 0x21 ∷ 0 ∷ 0 ∷ 0 ∷ 0 ∷ 0 ∷ 0 ∷ 0 ∷ 0 ∷ 0 ∷ 2 ∷ 0 ∷ 0 ∷ 0 ∷ 0 ∷ 2 ∷ 7 ∷ []

verified : matches_verified_fddf harman_fddf_uuid advertisement aura_identity ≡ true
unfolding matches_verified_fddf matches_binary binary
verified = refl

-- The parts of one response.
data Node : Type 0 where
  response group members jbl aura channels zero no : Node
  text : List ℕ → Node

abbrev field : List ℕ → List (List ℕ × Node) → Option Node
field key [] = none
field key ((k, v) ∷ kvs) = if same key k then some v else field key kvs

abbrev fields : Node → List (List ℕ × Node)
fields response = (codes "error_code", zero) ∷ (codes "group_info", group) ∷ []
fields group = (codes "members", members) ∷ (codes "disabled", no) ∷ []
fields jbl =
    (codes "device_name", text (codes "JBL Authentics 300"))
    ∷ (codes "id", text (codes "020000000001"))
    ∷ (codes "channel", channels)
    ∷ []
fields aura =
    (codes "device_name", text (codes "Aura Studio 5"))
    ∷ (codes "id", text (codes "020000000002"))
    ∷ (codes "channel", channels)
    ∷ []
fields _ = []

abbrev json : JsonValue Node Node
json = record {
  get = λ key n. field key (fields n);
  as_object = λ n. some n;
  entry = λ key n. field key (fields n);
  as_array = λ n. elim n as (λ _. Option (List Node)) [
    | members ↦ some (jbl ∷ aura ∷ [])
    | channels ↦ some (text (codes " Stereo") ∷ text (codes "room 1") ∷ [])
    | _ ↦ none
  ];
  as_str = λ n. elim n as (λ _. Option (List ℕ)) [ text s ↦ some s | _ ↦ none ];
  as_bool = λ n. elim n as (λ _. Option Bool) [ no ↦ some false | _ ↦ none ];
  is_zero = λ n. elim n as (λ _. Bool) [ zero ↦ true | _ ↦ false ];
}

abbrev shown : List (List ℕ)
shown = codes "stereo" ∷ codes "unknown" ∷ []

abbrev configured : GroupStatus
configured = record {
  expected_pair_configured = true;
  disabled = some false;
  member_count = 2;
  members =
      record { name = codes "JBL Authentics 300"; channels = shown }
      ∷ record { name = codes "Aura Studio 5"; channels = shown }
      ∷ [];
  error = none;
}

parsed_group : parse_group_status json response jbl_identity aura_identity ≡ ok configured
unfolding parse_group_status parse_members parse_member parse_channels public_name public_channel
    is_allowed_channel error_code_is_zero group_status identity_eq from_member_id parse digits_of
    separated strip_separators read_bytes hex_nibble admit binary trim trim_start trim_end utf8
parsed_group = refl

parse_group_status-IsFaithful_example :
    IsFaithful json response jbl_identity aura_identity configured
parse_group_status-IsFaithful_example =
    parse_group_status-IsFaithful json response jbl_identity aura_identity configured parsed_group

from_group_status-parse_group_status_example : IsObservation (from_group_status configured)
from_group_status-parse_group_status_example =
    from_group_status-parse_group_status json response jbl_identity aura_identity configured
      parsed_group

-- A version of forbidden characters is not shown, nor one of more than forty bytes.
versions :
    (version_of (codes "1.2-rc_3") ≡ some (codes "1.2-rc_3"))
    × (version_of (codes "1 2") ≡ none)
    × (version_of (codes "12345678901234567890123456789012345678901") ≡ none)
unfolding version_of utf8
versions = (refl, refl, refl)

no_device_info : parse_device_info json response ≡ err device_info_missing
unfolding parse_device_info error_code_is_zero
no_device_info = refl

response_codes :
    (match_code (number (pos_int 0)) ≡ ok tt)
    × (match_code (number (neg_int 0)) ≡ err control_command_rejected)
    × (match_code (number float) ≡ err basic_response_code_invalid)
unfolding match_code
response_codes = (refl, refl, refl)
