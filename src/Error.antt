-- ===== src/Error.antt =====
-- rust/src/error.rs: the closed error vocabulary of the JBL local API.
use jbl_aura_play_together.Base.{ℕ, String, Bool, true, false}

pub data JblError : Type 0 where
  config_unavailable config_permissions config_too_large invalid_config : JblError
  missing_setting : String → JblError
  invalid_timeout invalid_address certificate_unavailable : JblError
  certificate_permissions private_key_unavailable private_key_permissions : JblError
  invalid_tls_fingerprint invalid_client_identity credential_file_invalid : JblError
  credential_too_large tls_configuration peer_certificate_mismatch : JblError
  network_unreachable : JblError
  http_status : ℕ → JblError
  response_too_large invalid_json invalid_xml basic_response_not_object : JblError
  basic_response_code_missing basic_response_code_invalid : JblError
  control_command_rejected device_info_missing control_device_info_missing : JblError
  unexpected_device_model device_reported_error group_info_missing : JblError
  group_members_missing group_disabled_invalid group_member_invalid : JblError
  invalid_arguments output_failed : JblError

abbrev pub is_control_command_rejected : JblError → Bool
is_control_command_rejected control_command_rejected = true
is_control_command_rejected _ = false
