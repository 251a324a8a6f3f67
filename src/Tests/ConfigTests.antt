-- ===== src/Tests/ConfigTests.antt =====
-- Tests of rust/src/config.rs.
use jbl_aura_play_together.Base.{
  ℕ, ◌≡◌, ◌++◌, refl, true, some, none, List, [], ◌∷◌, ok, err, codes, same, if◌then◌else◌, trim,
  trim_start, trim_end, utf8,
}
use jbl_aura_play_together.Error.{invalid_config, config_unavailable}
use jbl_aura_play_together.Model.{
  binary, hex_nibble, strip_separators, separated, digits_of, read_bytes, admit, parse, identity_eq,
}
use jbl_aura_play_together.Web.Text.{strip_last, split_once, split, decimal, is_utf8, is_utf8_from}
use jbl_aura_play_together.Config.Text.{
  lines, unquote, decode, from_utf8, digits_below, parse_unsigned, path_of, parent, join,
}
use jbl_aura_play_together.Config.Settings.{
  is_allowed_key, insert_setting, parse_line, parse_lines, parse_config_text,
}
use jbl_aura_play_together.Config.Payload.{
  safe_config_value, payload_text, private_settings, config_payload,
}
use jbl_aura_play_together.Config.{
  ack, RuntimeConfig, Variable, present, not_present, PrivateFiles, automatic_config_path,
  select_config_source, resolve_path, required, overrides_from, environment_overrides,
  config_values, timeout_setting, port_setting, confirmation_setting, identity_setting,
  runtime_config, with_identities, from_values, load_from_source, load,
}
use jbl_aura_play_together.Config.Bounds.{IsRuntimeConfig, load-IsRuntimeConfig}
use jbl_aura_play_together.Config.Installed.{IsTrimmed, IsReadBack, config_payload_reads_back}
use jbl_aura_play_together.Tests.Fixtures.{jbl_identity, aura_identity}

abbrev file_text : List ℕ
file_text =
    codes "# pair\n JBL_IP = '10.0.0.2'\r\n\nJBL_LOCAL_API_CERT=a.pem\nJBL_LOCAL_API_KEY=/k.pem\n"
    ++ codes "JBL_LOCAL_API_TLS_SHA256=ab\nJBL_BT_MAC=020000000001\nJBL_LOCAL_API_TIMEOUT=+7\nX=1"

abbrev files : PrivateFiles
files = record {
  read_private_file = λ path. ok file_text;
  read_private_file_if_present = λ path. err config_unavailable;
}

-- The identity of the second speaker comes from the environment, the timeout of the file is overruled.
abbrev env : List ℕ → Variable
env key =
    if same key (codes "AURA_BT_MAC")
    then present (codes "02:00:00:00:00:02")
    else if same key (codes "JBL_LOCAL_API_TIMEOUT")
    then present (codes "9")
    else not_present

abbrev loaded_config : RuntimeConfig
loaded_config = record {
  address = codes "10.0.0.2";
  certificate = record { absolute = true; components = codes "etc" ∷ codes "a.pem" ∷ [] };
  private_key = record { absolute = true; components = codes "k.pem" ∷ [] };
  tls_sha256 = codes "ab";
  jbl_identity = jbl_identity;
  expected_model = codes "JBL Authentics 300";
  aura_identity = aura_identity;
  timeout_seconds = 9;
  gena_callback_port = 8098;
  broadcast_confirmation = ack;
}

loaded :
    load none files env none (some (codes "/etc//devices.env")) none (some (codes "/home"))
    ≡ ok loaded_config
unfolding load load_from_source environment_overrides overrides_from select_config_source
    automatic_config_path config_values from_utf8 is_utf8 is_utf8_from decode parse_config_text
    parse_lines parse_line insert_setting is_allowed_key lines unquote strip_last split_once split
    from_values required timeout_setting port_setting confirmation_setting identity_setting
    with_identities runtime_config resolve_path path_of parent join parse_unsigned digits_below
    decimal parse digits_of separated strip_separators read_bytes hex_nibble admit binary
    identity_eq trim trim_start trim_end utf8
loaded = refl

load-IsRuntimeConfig_example : IsRuntimeConfig loaded_config
load-IsRuntimeConfig_example =
    load-IsRuntimeConfig none files env none (some (codes "/etc//devices.env")) none
      (some (codes "/home")) loaded_config loaded

-- A key twice, and a line without an equals sign.
refused :
    (parse_config_text (codes "JBL_IP=a\nJBL_IP=a") ≡ err invalid_config)
    × (parse_config_text (codes "JBL_IP") ≡ err invalid_config)
unfolding parse_config_text parse_lines parse_line insert_setting is_allowed_key lines unquote
    strip_last split_once trim trim_start trim_end
refused = (refl, refl)

abbrev installed_text : List ℕ
installed_text = payload_text (private_settings loaded_config (codes "/etc/a.pem") (codes "/k.pem"))

installed : config_payload loaded_config (codes "/etc/a.pem") (codes "/k.pem") ≡ ok installed_text
unfolding config_payload safe_config_value strip_last
installed = refl

trimmed : IsTrimmed loaded_config (codes "/etc/a.pem") (codes "/k.pem")
unfolding trim trim_start trim_end
trimmed = record {
  address = refl;
  expected_model = refl;
  tls_sha256 = refl;
  certificate = refl;
  private_key = refl;
}

config_payload_reads_back_example :
    IsReadBack (private_settings loaded_config (codes "/etc/a.pem") (codes "/k.pem")) installed_text
config_payload_reads_back_example =
    config_payload_reads_back loaded_config (codes "/etc/a.pem") (codes "/k.pem") installed_text
      installed trimmed load-IsRuntimeConfig_example.jbl load-IsRuntimeConfig_example.aura

-- A model with a space at its end is written, and read back without it.
untrimmed :
    (safe_config_value (codes "Model ") ≡ true)
    × (parse_config_text (codes "JBL_EXPECTED_MODEL=Model \n")
        ≡ ok ((codes "JBL_EXPECTED_MODEL", codes "Model") ∷ []))
unfolding safe_config_value strip_last parse_config_text parse_lines parse_line insert_setting
    is_allowed_key lines unquote split_once trim trim_start trim_end
untrimmed = (refl, refl)
