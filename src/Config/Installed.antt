-- ===== src/Config/Installed.antt =====
-- The private file that rust/src/config.rs installs, read by the parser of the same file.
use jbl_aura_play_together.Base.{
  ℕ, String, ◌≡◌, ◌∙◌, refl, arith, true, some, List, [], ◌∷◌, ok, All, codes, trim,
}
use jbl_aura_play_together.Model.Identity.{IsIdentity}
use jbl_aura_play_together.Config.{RuntimeConfig}
use jbl_aura_play_together.Config.Settings.{
  Values, lookup, insert_setting, is_allowed_key, parse_config_text,
}
use jbl_aura_play_together.Config.Payload.{payload_text, private_settings, config_payload}
use jbl_aura_play_together.Config.Lines.{
  IsWritable, store, IsSetting, parse_lines-payload_text, key_test, key_test-IsKey,
}
use jbl_aura_play_together.Config.Writable.{
  safe-IsWritable, display-IsWritable, confirmation_text-IsWritable,
  compact_config_value-IsWritable,
}

-- The texts of a configuration that `trim` does not change.
pub record IsTrimmed (config : RuntimeConfig) (cert key : List ℕ) : Type 0 where
  pub address : trim config.address ≡ config.address
  pub expected_model : trim config.expected_model ≡ config.expected_model
  pub tls_sha256 : trim config.tls_sha256 ≡ config.tls_sha256
  pub certificate : trim cert ≡ cert
  pub private_key : trim key ≡ key

-- What the parser makes of a file that holds every setting once.
abbrev pub IsReadBack : Values → List ℕ → Type 0
IsReadBack settings text =
    (values : Values) × (parse_config_text text ≡ ok values)
    × All (λ setting. lookup setting.0 values ≡ some setting.1) settings

-- A pair, to the right.
infixr 4 ◌&◌
abbrev ◌&◌ {ℓ κ} : {A : Type ℓ} {B : Type κ} → A → B → A × B
a & b = (a, b)

abbrev onto : Values → Values → Values
onto [] values = values
onto (setting ∷ settings) values = onto settings (setting ∷ values)

abbrev stored : RuntimeConfig → List ℕ → List ℕ → Values
stored config certificate private_key = onto (private_settings config certificate private_key) []

store-private_settings :
    (config : RuntimeConfig) (certificate private_key : List ℕ)
    → store (private_settings config certificate private_key) []
      ≡ ok (stored config certificate private_key)
unfolding insert_setting is_allowed_key
store-private_settings config certificate private_key = refl

lookup-stored :
    (config : RuntimeConfig) (certificate private_key : List ℕ)
    → All
        (λ setting. lookup setting.0 (stored config certificate private_key) ≡ some setting.1)
        (private_settings config certificate private_key)
lookup-stored config certificate private_key =
    (refl & refl & refl & refl & refl & refl & refl & refl & refl & refl & tt)

written :
    (key : String) {value : List ℕ}
    → key_test (codes key) ≡ true
    → IsWritable value
    → IsSetting (codes key, value)
written key k w = (key_test-IsKey (codes key) k, w)

private_settings-IsSetting :
    (config : RuntimeConfig) (certificate private_key text : List ℕ)
    → config_payload config certificate private_key ≡ ok text
    → IsTrimmed config certificate private_key
    → IsIdentity config.jbl_identity
    → IsIdentity config.aura_identity
    → All IsSetting (private_settings config certificate private_key)
unfolding config_payload
private_settings-IsSetting config certificate private_key text h t j a =
    (written "JBL_IP" refl (safe-IsWritable config.address (ground (arith, h)) t.address)
      & written "JBL_EXPECTED_MODEL" refl
          (safe-IsWritable config.expected_model (ground (arith, h)) t.expected_model)
      & written "JBL_BT_MAC" refl (compact_config_value-IsWritable config.jbl_identity j)
      & written "AURA_BT_MAC" refl (compact_config_value-IsWritable config.aura_identity a)
      & written "JBL_LOCAL_API_CERT" refl
          (safe-IsWritable certificate (ground (arith, h)) t.certificate)
      & written "JBL_LOCAL_API_KEY" refl
          (safe-IsWritable private_key (ground (arith, h)) t.private_key)
      & written "JBL_LOCAL_API_TLS_SHA256" refl
          (safe-IsWritable config.tls_sha256 (ground (arith, h)) t.tls_sha256)
      & written "JBL_LOCAL_API_TIMEOUT" refl (display-IsWritable config.timeout_seconds)
      & written "JBL_GENA_CALLBACK_PORT" refl (display-IsWritable config.gena_callback_port)
      & written "JBL_BROADCAST_CONFIRMATION" refl
          (confirmation_text-IsWritable config.broadcast_confirmation)
      & tt)

config_payload_text :
    (config : RuntimeConfig) (certificate private_key text : List ℕ)
    → config_payload config certificate private_key ≡ ok text
    → text ≡ payload_text (private_settings config certificate private_key)
unfolding config_payload
config_payload_text config certificate private_key text h = ground (arith, h)

-- The file that is installed for a configuration with trimmed texts and valid identities is parsed
-- without an error, and every setting is read back as the value that was written.
pub config_payload_reads_back :
    (config : RuntimeConfig) (certificate private_key text : List ℕ)
    → config_payload config certificate private_key ≡ ok text
    → IsTrimmed config certificate private_key
    → IsIdentity config.jbl_identity
    → IsIdentity config.aura_identity
    → IsReadBack (private_settings config certificate private_key) text
unfolding parse_config_text
config_payload_reads_back config certificate private_key text h t j a =
    let settings = private_settings config certificate private_key in
    (
      stored config certificate private_key,
      rw (config_payload_text config certificate private_key text h) (
          parse_lines-payload_text settings []
            (private_settings-IsSetting config certificate private_key text h t j a)
          ∙ store-private_settings config certificate private_key),
      lookup-stored config certificate private_key,
    )
