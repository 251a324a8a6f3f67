-- ===== src/Config/Payload.antt =====
-- rust/src/config.rs: the text that `install_private_config` writes.
use jbl_aura_play_together.Base.{
  ℕ, zero, suc, ◌+◌, ◌/◌, ◌%◌, ltb, Bool, true, false, ◌&&◌, ◌||◌, not, none, some, List, [], ◌∷◌,
  ◌++◌, Result, ok, err, codes, if◌then◌else◌,
}
use jbl_aura_play_together.Error.{JblError, invalid_config}
use jbl_aura_play_together.Model.{compact_config_value}
use jbl_aura_play_together.Web.Text.{is_empty, starts_with, contains_byte, strip_last}
use jbl_aura_play_together.Config.Settings.{Values}
use jbl_aura_play_together.Config.{RuntimeConfig, BroadcastConfirmation, ack, gena}

abbrev pub ends_with : ℕ → List ℕ → Bool
ends_with c text = elim (strip_last c text) [ none ↦ false | some _ ↦ true ]

-- The control characters and the quotes that the private file cannot carry.
unfoldable pub safe_config_value : List ℕ → Bool
safe_config_value value = not (
    is_empty value
    || contains_byte 0 value
    || contains_byte 10 value
    || contains_byte 13 value
    || starts_with (39 ∷ []) value
    || starts_with (b'"' ∷ []) value
    || ends_with 39 value
    || ends_with b'"' value)

-- `Display` of an unsigned integer: its digits in front of a text. A u64 has at most 20 of them.
unfoldable pub digits_onto : ℕ → ℕ → List ℕ → List ℕ
digits_onto zero n text = text
digits_onto (suc fuel) n text =
    let digits = (b'0' + n % 10) ∷ text in
    let longer = digits_onto fuel (n / 10) digits in if ltb n 10 then digits else longer

abbrev pub display : ℕ → List ℕ
display n = digits_onto 20 n []

abbrev pub confirmation_text : BroadcastConfirmation → List ℕ
confirmation_text ack = codes "ack"
confirmation_text gena = codes "gena"

abbrev pub setting_line : List ℕ × List ℕ → List ℕ → List ℕ
setting_line setting text = setting.0 ++ (b'=' ∷ (setting.1 ++ (10 ∷ text)))

unfoldable pub payload_text : Values → List ℕ
payload_text [] = []
payload_text (setting ∷ settings) = setting_line setting (payload_text settings)

abbrev pub private_settings : RuntimeConfig → List ℕ → List ℕ → Values
private_settings config certificate private_key =
    (codes "JBL_IP", config.address)
    ∷ (codes "JBL_EXPECTED_MODEL", config.expected_model)
    ∷ (codes "JBL_BT_MAC", compact_config_value config.jbl_identity)
    ∷ (codes "AURA_BT_MAC", compact_config_value config.aura_identity)
    ∷ (codes "JBL_LOCAL_API_CERT", certificate)
    ∷ (codes "JBL_LOCAL_API_KEY", private_key)
    ∷ (codes "JBL_LOCAL_API_TLS_SHA256", config.tls_sha256)
    ∷ (codes "JBL_LOCAL_API_TIMEOUT", display config.timeout_seconds)
    ∷ (codes "JBL_GENA_CALLBACK_PORT", display config.gena_callback_port)
    ∷ (codes "JBL_BROADCAST_CONFIRMATION", confirmation_text config.broadcast_confirmation)
    ∷ []

-- The text that `install_private_config` writes. The texts of the two paths are arguments, with
-- which `Path::to_str` succeeded; the checks and the writes of the file are not modelled.
unfoldable pub config_payload : RuntimeConfig → List ℕ → List ℕ → Result (List ℕ) JblError
config_payload config certificate private_key =
    if safe_config_value certificate
      && safe_config_value private_key
      && safe_config_value config.address
      && safe_config_value config.tls_sha256
      && safe_config_value config.expected_model
    then ok (payload_text (private_settings config certificate private_key))
    else err invalid_config
