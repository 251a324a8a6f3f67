-- ===== src/Model/Group.antt =====
-- rust/src/model.rs: `parse_group_status` over any JSON value type. The record of operations stands
-- for what the source uses of `serde_json`.
pub mod Sanitized
pub mod Faithful
use jbl_aura_play_together.Base.{
  ℕ, ◌+◌, ltb, leb, ◌==◌, Bool, true, false, not, ◌&&◌, ◌||◌, Option, none, some, List, [], ◌∷◌,
  Result, ok, err, length, map, codes, same, if◌then◌else◌, trim, utf8, to_ascii_lowercase,
}
use jbl_aura_play_together.Error.{JblError}
use jbl_aura_play_together.Model.{DeviceIdentity, identity_eq, from_member_id}

-- What `serde_json::Value` and its maps offer; `is_zero` says that a value is a number whose `i64`
-- is zero.
pub record JsonValue (V M : Type 0) : Type 0 where
  pub get : List ℕ → V → Option V
  pub as_object : V → Option M
  pub entry : List ℕ → M → Option V
  pub as_array : V → Option (List V)
  pub as_str : V → Option (List ℕ)
  pub as_bool : V → Option Bool
  pub is_zero : V → Bool

abbrev pub jbl_public_role : List ℕ
jbl_public_role = codes "JBL Authentics 300"

abbrev pub aura_public_role : List ℕ
aura_public_role = codes "Aura Studio 5"

abbrev pub unknown_text : List ℕ
unknown_text = codes "unknown"

unfoldable pub is_allowed_channel : List ℕ → Bool
is_allowed_channel c =
    same c (codes "front_left")
    || same c (codes "front_right")
    || same c (codes "left")
    || same c (codes "right")
    || same c (codes "mono")
    || same c (codes "stereo")

pub record GroupMember : Type 0 where
  pub name : List ℕ
  pub channels : List (List ℕ)

pub record GroupStatus : Type 0 where
  pub expected_pair_configured : Bool
  pub disabled : Option Bool
  pub member_count : ℕ
  pub members : List GroupMember
  pub error : Option (List ℕ)

-- `ok_or`, and `?` on a result.
abbrev pub ok_or : {A : Type 0} → Option A → JblError → Result A JblError
ok_or (some a) e = ok a
ok_or none e = err e

infixl 5 ◌>>=◌
abbrev pub ◌>>=◌ : {A C : Type 0} → Result A JblError → (A → Result C JblError) → Result C JblError
err e >>= f = err e
ok a >>= f = f a

-- `Option::and_then` and `Option::filter` for a text that must not be empty.
abbrev pub and_then : {A C : Type 0} → Option A → (A → Option C) → Option C
and_then none f = none
and_then (some a) f = f a

abbrev pub nonempty : List ℕ → Option (List ℕ)
nonempty [] = none
nonempty (c ∷ s) = some (c ∷ s)

-- The two counters that the loop over the members keeps.
pub record Counts : Type 0 where
  pub jbl_count : ℕ
  pub aura_count : ℕ

-- The name that a member is shown under, and the counters behind it.
unfoldable pub public_name :
    DeviceIdentity → DeviceIdentity → List ℕ → DeviceIdentity → Counts → List ℕ × Counts
public_name expected_jbl expected_aura raw_name raw_identity counts =
    if same raw_name jbl_public_role && identity_eq raw_identity expected_jbl
    then (jbl_public_role, record counts { jbl_count = counts.jbl_count + 1 })
    else if same raw_name aura_public_role && identity_eq raw_identity expected_aura
    then (aura_public_role, record counts { aura_count = counts.aura_count + 1 })
    else (unknown_text, counts)

abbrev pub named_member : List (List ℕ) → List ℕ × Counts → GroupMember × Counts
named_member channels named = (record { name = named.0; channels = channels }, named.1)

unfoldable pub public_channel : List ℕ → List ℕ
public_channel raw =
    let channel = map to_ascii_lowercase (trim raw) in
    if is_allowed_channel channel then channel else unknown_text

-- The result of `parse_group_status` behind its loop.
unfoldable pub group_status : Bool → List GroupMember → Counts → GroupStatus
group_status disabled members counts =
    let expected = (counts.jbl_count == 1 && counts.aura_count == 1) && not disabled in
    record {
      expected_pair_configured = expected;
      disabled = some disabled;
      member_count = length members;
      members = members;
      error = if expected then none else some (codes "expected_pair_not_configured");
    }

module _ {V M : Type 0} (json : JsonValue V M) where
  unfoldable pub error_code_is_zero : Option V → Bool
  error_code_is_zero none = false
  error_code_is_zero (some v) =
      (elim (json.as_str v) as (λ _. Bool) [ some code ↦ same code (codes "0") | none ↦ false ])
      || json.is_zero v

  unfoldable pub parse_channels : List V → Result (List (List ℕ)) JblError
  parse_channels [] = ok []
  parse_channels (v ∷ vs) = elim (json.as_str v) [
    | none ↦ err JblError.group_member_invalid
    | some raw ↦ elim (parse_channels vs) [
      | err e ↦ err e
      | ok channels ↦ ok (public_channel raw ∷ channels)
    ]
  ]

  -- The closure over one member of `parse_group_status`.
  unfoldable pub parse_member :
      DeviceIdentity → DeviceIdentity → Counts → V → Result (GroupMember × Counts) JblError
  parse_member expected_jbl expected_aura counts raw_member = do
    member ← ok_or (json.as_object raw_member) JblError.group_member_invalid
    raw_name ←
        ok_or (and_then (and_then (json.entry (codes "device_name") member) json.as_str) nonempty)
          JblError.group_member_invalid
    raw_identity ←
        ok_or (and_then (and_then (json.entry (codes "id") member) json.as_str) from_member_id)
          JblError.group_member_invalid
    raw_channels ←
        ok_or (and_then (json.entry (codes "channel") member) json.as_array)
          JblError.group_member_invalid
    channels ← parse_channels raw_channels
    ok (named_member channels (public_name expected_jbl expected_aura raw_name raw_identity counts))

  unfoldable pub parse_members :
      DeviceIdentity
      → DeviceIdentity
      → Counts
      → List V
      → Result (List GroupMember × Counts) JblError
  parse_members expected_jbl expected_aura counts [] = ok ([], counts)
  parse_members expected_jbl expected_aura counts (v ∷ vs) =
      elim (parse_member expected_jbl expected_aura counts v) [
        | err e ↦ err e
        | ok parsed ↦ elim (parse_members expected_jbl expected_aura parsed.1 vs) [
          | err e ↦ err e
          | ok rest ↦ ok (parsed.0 ∷ rest.0, rest.1)
        ]
      ]

  unfoldable pub parse_group_status :
      V → DeviceIdentity → DeviceIdentity → Result GroupStatus JblError
  parse_group_status response expected_jbl expected_aura =
      if identity_eq expected_jbl expected_aura
      then err JblError.invalid_config
      else if not (error_code_is_zero (json.get (codes "error_code") response))
      then err JblError.device_reported_error
      else do
        group ←
            ok_or (and_then (json.get (codes "group_info") response) json.as_object)
              JblError.group_info_missing
        raw_members ←
            ok_or (and_then (json.entry (codes "members") group) json.as_array)
              JblError.group_members_missing
        disabled ←
            if length raw_members == 2
            then ok_or (and_then (json.entry (codes "disabled") group) json.as_bool)
                JblError.group_disabled_invalid
            else err JblError.group_member_invalid
        parsed ←
            parse_members expected_jbl expected_aura (record { jbl_count = 0; aura_count = 0 })
              raw_members
        ok (group_status disabled parsed.0 parsed.1)
