-- ===== src/Model/DeviceInfo.antt =====
-- rust/src/model.rs: `parse_device_info`, over any JSON value type.
use jbl_aura_play_together.Base.{
  ℕ, Bool, true, not, ◌&&◌, ◌||◌, ltb, leb, ◌==◌, Option, none, some, List, [], ◌∷◌, Result, ok,
  err, length, codes, if◌then◌else◌, trim, utf8,
}
use jbl_aura_play_together.Error.{JblError, device_reported_error, device_info_missing}
use jbl_aura_play_together.Model.Group.{JsonValue, ok_or, and_then, ◌>>=◌, error_code_is_zero}

pub record DeviceInfo : Type 0 where
  pub name : Option (List ℕ)
  pub model : Option (List ℕ)
  pub firmware : Option (List ℕ)
  pub one_os_version : Option (List ℕ)

abbrev pub is_version_char : ℕ → Bool
is_version_char c =
    leb b'0' c && leb c b'9'
    || leb b'A' c && leb c b'Z'
    || leb b'a' c && leb c b'z'
    || c == b'.'
    || c == b'-'
    || c == b'_'

abbrev pub all_version_chars : List ℕ → Bool
all_version_chars [] = true
all_version_chars (c ∷ text) = is_version_char c && all_version_chars text

-- The length is that of the bytes.
unfoldable pub version_of : List ℕ → Option (List ℕ)
version_of [] = none
version_of (c ∷ raw) =
    if ltb 40 (length (utf8 (c ∷ raw))) || not (all_version_chars (c ∷ raw))
    then none
    else some (c ∷ raw)

module _ {V M : Type 0} (json : JsonValue V M) where
  unfoldable pub safe_version : Option V → Option (List ℕ)
  safe_version value = and_then (and_then value json.as_str) (λ raw. version_of (trim raw))

  unfoldable pub parse_device_info : V → Result DeviceInfo JblError
  parse_device_info response =
      if not (error_code_is_zero json (json.get (codes "error_code") response))
      then err device_reported_error
      else ok_or (and_then (json.get (codes "device_info") response) json.as_object)
          device_info_missing
        >>= λ info. ok (record {
          name = none;
          model = none;
          firmware = safe_version (json.entry (codes "firmware") info);
          one_os_version = safe_version (json.entry (codes "one_os_ver") info);
        })
