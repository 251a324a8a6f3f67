-- ===== src/Config.antt =====
-- rust/src/config.rs: the runtime configuration, from the environment and a private file. What the
-- system says of the environment, the working directory and the private file is an argument.
pub mod Text
pub mod Settings
pub mod Payload
pub mod Bounds
pub mod Lines
pub mod Writable
pub mod Installed
use jbl_aura_play_together.Base.{
  ℕ, zero, suc, ◌+◌, ◌/◌, ◌%◌, ltb, String, Bool, true, false, ◌&&◌, ◌||◌, leb, not, Option, none,
  some, List, [], ◌∷◌, ◌++◌, Result, ok, err, codes, same, if◌then◌else◌, trim, u64_max,
}
use jbl_aura_play_together.Error.{JblError, invalid_config, missing_setting, invalid_timeout}
use jbl_aura_play_together.Model.{DeviceIdentity, identity_eq, parse, compact_config_value}
use jbl_aura_play_together.Model.Group.{ok_or, nonempty, and_then, ◌>>=◌}
use mathlib.Core.Option
use jbl_aura_play_together.Web.Text.{is_empty, starts_with, split_once, contains_byte, strip_last}
use jbl_aura_play_together.Config.Text.{
  lines, unquote, from_utf8, parse_unsigned, PathBuf, path_of, parent, join,
}
use jbl_aura_play_together.Config.Settings.{
  Values, lookup, is_allowed_key, allowed_keys, insert_setting, parse_line, parse_lines,
  parse_config_text,
}

abbrev pub max_u16 : ℕ
max_u16 = 65535

abbrev pub default_gena_callback_port : ℕ
default_gena_callback_port = 8098

pub data BroadcastConfirmation : Type 0 where
  ack gena : BroadcastConfirmation

pub record RuntimeConfig : Type 0 where
  pub address : List ℕ
  pub certificate : PathBuf
  pub private_key : PathBuf
  pub tls_sha256 : List ℕ
  pub jbl_identity : DeviceIdentity
  pub expected_model : List ℕ
  pub aura_identity : DeviceIdentity
  pub timeout_seconds : ℕ
  pub gena_callback_port : ℕ
  pub broadcast_confirmation : BroadcastConfirmation

pub data ConfigSource : Type 0 where
  required_file optional_default : PathBuf → ConfigSource
  no_file : ConfigSource

abbrev pub source_path : ConfigSource → Option PathBuf
source_path (required_file path) = some path
source_path (optional_default path) = some path
source_path no_file = none

-- Both variables are filtered to be non-empty.
unfoldable pub automatic_config_path : Option (List ℕ) → Option (List ℕ) → Option PathBuf
automatic_config_path xdg_config_home home = elim (and_then xdg_config_home nonempty) [
  | some root ↦ some (join (path_of root) (path_of (codes "jbl-aura-link-rust/devices.env")))
  | none ↦ and_then (and_then home nonempty) (λ root.
      some (join (path_of root) (path_of (codes ".config/jbl-aura-link-rust/devices.env"))))
]

unfoldable pub select_config_source :
    Option PathBuf → Option PathBuf → Option PathBuf → ConfigSource
select_config_source (some path) environment_path automatic_path = required_file path
select_config_source none (some path) automatic_path = required_file path
select_config_source none none (some path) = optional_default path
select_config_source none none none = no_file

-- `env::current_dir` is an argument.
unfoldable pub resolve_path : Option PathBuf → List ℕ → Option PathBuf → Result PathBuf JblError
resolve_path current_dir value config_path =
    let path = path_of value in
    if path.absolute
    then ok path
    else elim (and_then config_path parent) as (λ _. Result PathBuf JblError) [
      | some directory ↦ ok (join directory path)
      | none ↦ elim current_dir as (λ _. Result PathBuf JblError) [
        | some directory ↦ ok (join directory path)
        | none ↦ err invalid_config
      ]
    ]

unfoldable pub required : Values → String → Result (List ℕ) JblError
required values key =
    ok_or (and_then (lookup (codes key) values) (λ value. nonempty (trim value)))
      (missing_setting key)

-- What `env::var` says of one variable.
pub data Variable : Type 0 where
  present : List ℕ → Variable
  not_present not_unicode : Variable

unfoldable pub overrides_from : (List ℕ → Variable) → List (List ℕ) → Result Values JblError
overrides_from env [] = ok []
overrides_from env (key ∷ keys) = elim (env key) as (λ _. Result Values JblError) [
  | present value ↦ overrides_from env keys >>= λ values. ok ((key, value) ∷ values)
  | not_present ↦ overrides_from env keys
  | not_unicode ↦ err invalid_config
]

unfoldable pub environment_overrides : (List ℕ → Variable) → Result Values JblError
environment_overrides env = overrides_from env allowed_keys

-- The reads of private_file.rs, with their checks of owner, mode and size.
pub record PrivateFiles : Type 0 where
  pub read_private_file : PathBuf → Result (List ℕ) JblError
  pub read_private_file_if_present : PathBuf → Result (Option (List ℕ)) JblError

abbrev pub payload_of : PrivateFiles → ConfigSource → Result (Option (List ℕ)) JblError
payload_of files (required_file path) =
    files.read_private_file path >>= λ payload. ok (some payload)
payload_of files (optional_default path) = files.read_private_file_if_present path
payload_of files no_file = ok none

unfoldable pub config_values : PrivateFiles → ConfigSource → Result Values JblError
config_values files source = payload_of files source >>= λ payload.
    elim payload as (λ _. Result Values JblError) [
      | none ↦ ok []
      | some bytes ↦ ok_or (from_utf8 bytes) invalid_config >>= parse_config_text
    ]

abbrev pub or_default : List ℕ → Option (List ℕ) → List ℕ
or_default default none = default
or_default default (some value) = value

abbrev pub within : ℕ → ℕ → ℕ → Option ℕ
within low high n = if leb low n && leb n high then some n else none

-- The parts of `load_from_source` that read one setting.
unfoldable pub timeout_setting : Values → Result ℕ JblError
timeout_setting values =
    ok_or
      (and_then
        (parse_unsigned (u64_max + 1)
          (or_default (codes "5") (lookup (codes "JBL_LOCAL_API_TIMEOUT") values)))
        (within 1 30))
      invalid_timeout

unfoldable pub port_setting : Values → Result ℕ JblError
port_setting values = elim (lookup (codes "JBL_GENA_CALLBACK_PORT") values) [
  | some value ↦
      ok_or (and_then (parse_unsigned (max_u16 + 1) value) (within 1024 max_u16)) invalid_config
  | none ↦ ok default_gena_callback_port
]

unfoldable pub confirmation_setting : Values → Result BroadcastConfirmation JblError
confirmation_setting values = elim (lookup (codes "JBL_BROADCAST_CONFIRMATION") values) [
  | some value ↦
      if same value (codes "ack")
      then ok ack
      else if same value (codes "gena")
      then ok gena
      else err invalid_config
  | none ↦ ok ack
]

unfoldable pub identity_setting : Values → String → Result DeviceIdentity JblError
identity_setting values key = required values key >>= λ value. ok_or (parse value) invalid_config

-- The value that `load_from_source` returns, with the settings that only it reads.
unfoldable pub runtime_config :
    Option PathBuf
    → Option PathBuf
    → Values
    → List ℕ
    → List ℕ
    → ℕ
    → ℕ
    → BroadcastConfirmation
    → DeviceIdentity
    → DeviceIdentity
    → Result RuntimeConfig JblError
runtime_config current_dir config_path values certificate_value private_key_value timeout port
      confirmation jbl aura =
    do
      address ← required values "JBL_IP"
      certificate ← resolve_path current_dir certificate_value config_path
      private_key ← resolve_path current_dir private_key_value config_path
      tls_sha256 ← required values "JBL_LOCAL_API_TLS_SHA256"
      ok (record {
        address = address;
        certificate = certificate;
        private_key = private_key;
        tls_sha256 = tls_sha256;
        jbl_identity = jbl;
        expected_model =
            or_default (codes "JBL Authentics 300") (lookup (codes "JBL_EXPECTED_MODEL") values);
        aura_identity = aura;
        timeout_seconds = timeout;
        gena_callback_port = port;
        broadcast_confirmation = confirmation;
      })

-- `load_from_source` from the identities on.
unfoldable pub with_identities :
    Option PathBuf
    → Option PathBuf
    → Values
    → List ℕ
    → List ℕ
    → ℕ
    → ℕ
    → BroadcastConfirmation
    → Result RuntimeConfig JblError
with_identities current_dir config_path values certificate_value private_key_value timeout port
      confirmation =
    do
      jbl ← identity_setting values "JBL_BT_MAC"
      aura ← identity_setting values "AURA_BT_MAC"
      elim (identity_eq jbl aura) [
        | true ↦ err invalid_config
        | false ↦
            runtime_config current_dir config_path values certificate_value private_key_value
              timeout port confirmation jbl aura
      ]

-- `load_from_source` behind the merge of the settings.
unfoldable pub from_values :
    Option PathBuf → Option PathBuf → Values → Result RuntimeConfig JblError
from_values current_dir config_path values = do
  certificate_value ← required values "JBL_LOCAL_API_CERT"
  private_key_value ← required values "JBL_LOCAL_API_KEY"
  timeout ← timeout_setting values
  port ← port_setting values
  confirmation ← confirmation_setting values
  with_identities current_dir config_path values certificate_value private_key_value timeout port
      confirmation

-- `HashMap::extend`: the overrides come first.
unfoldable pub load_from_source :
    Option PathBuf → PrivateFiles → ConfigSource → Values → Result RuntimeConfig JblError
load_from_source current_dir files source overrides = config_values files source >>= λ values.
    from_values current_dir (source_path source) (overrides ++ values)

-- `RuntimeConfig::load`. The variables of the paths are arguments; the overrides are read after
-- the source is selected.
unfoldable pub load :
    Option PathBuf
    → PrivateFiles
    → (List ℕ → Variable)
    → Option PathBuf
    → Option (List ℕ)
    → Option (List ℕ)
    → Option (List ℕ)
    → Result RuntimeConfig JblError
load current_dir files env explicit_path environment_path xdg_config_home home =
    environment_overrides env
    >>= load_from_source current_dir files (
        select_config_source explicit_path (Option.map path_of environment_path)
          (automatic_config_path xdg_config_home home))
