-- ===== src/Config/Settings.antt =====
-- rust/src/config.rs: the settings of a text, `parse_config_text`.
use jbl_aura_play_together.Base.{
  ℕ, Bool, ◌||◌, not, Option, none, some, List, [], ◌∷◌, Result, ok, err, codes, same,
  if◌then◌else◌, trim,
}
use jbl_aura_play_together.Error.{JblError, invalid_config}
use jbl_aura_play_together.Model.Group.{◌>>=◌}
use jbl_aura_play_together.Web.Text.{is_empty, starts_with, split_once}
use jbl_aura_play_together.Config.Text.{lines, unquote}

unfoldable pub is_allowed_key : List ℕ → Bool
is_allowed_key key =
    same key (codes "JBL_IP")
    || same key (codes "JBL_LOCAL_API_CERT")
    || same key (codes "JBL_LOCAL_API_KEY")
    || same key (codes "JBL_LOCAL_API_TLS_SHA256")
    || same key (codes "JBL_LOCAL_API_TIMEOUT")
    || same key (codes "JBL_GENA_CALLBACK_PORT")
    || same key (codes "JBL_BROADCAST_CONFIRMATION")
    || same key (codes "JBL_BT_MAC")
    || same key (codes "JBL_EXPECTED_MODEL")
    || same key (codes "AURA_BT_MAC")

abbrev pub allowed_keys : List (List ℕ)
allowed_keys =
    codes "JBL_IP"
    ∷ codes "JBL_LOCAL_API_CERT"
    ∷ codes "JBL_LOCAL_API_KEY"
    ∷ codes "JBL_LOCAL_API_TLS_SHA256"
    ∷ codes "JBL_LOCAL_API_TIMEOUT"
    ∷ codes "JBL_GENA_CALLBACK_PORT"
    ∷ codes "JBL_BROADCAST_CONFIRMATION"
    ∷ codes "JBL_BT_MAC"
    ∷ codes "JBL_EXPECTED_MODEL"
    ∷ codes "AURA_BT_MAC"
    ∷ []

-- A map of settings; the first entry of a key counts.
abbrev pub Values : Type 0
Values = List (List ℕ × List ℕ)

abbrev pub lookup : List ℕ → Values → Option (List ℕ)
lookup key [] = none
lookup key (entry ∷ values) =
    let rest = lookup key values in if same key entry.0 then some entry.1 else rest

-- A key that the text has twice is refused.
unfoldable pub insert_setting : List ℕ → List ℕ → Values → Result Values JblError
insert_setting key value values =
    if not (is_allowed_key key)
    then ok values
    else elim (lookup key values) as (λ _. Result Values JblError) [
      | some _ ↦ err invalid_config
      | none ↦ ok ((key, value) ∷ values)
    ]

-- One turn of the loop over the lines.
unfoldable pub parse_line : List ℕ → Values → Result Values JblError
parse_line raw_line values =
    let line = trim raw_line in
    if is_empty line || starts_with (codes "#") line
    then ok values
    else elim (split_once b'=' line) as (λ _. Result Values JblError) [
      | none ↦ err invalid_config
      | some setting ↦ insert_setting (trim setting.0) (unquote (trim setting.1)) values
    ]

unfoldable pub parse_lines : List (List ℕ) → Values → Result Values JblError
parse_lines [] values = ok values
parse_lines (raw_line ∷ raw_lines) values = parse_line raw_line values >>= parse_lines raw_lines

unfoldable pub parse_config_text : List ℕ → Result Values JblError
parse_config_text text = parse_lines (lines text) []
