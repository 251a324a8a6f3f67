-- ===== src/Model.antt =====
-- rust/src/model.rs: the identity of a speaker. A byte is a number below 256.
pub mod Identity
pub mod Group
pub mod DeviceInfo
use jbl_aura_play_together.Base.{
  ℕ, zero, suc, ◌+◌, ◌-◌, ◌*◌, ◌/◌, ◌%◌, Bool, true, false, ◌&&◌, ◌||◌, not, ltb, leb, ◌==◌, Option,
  none, some, List, [], ◌∷◌, ◌++◌, length, codes, same, if◌then◌else◌, ◌>>=◌, trim, utf8,
}
use mathlib.Core.Option

-- The six bytes.
pub record DeviceIdentity : Type 0 where
  pub byte_0 : ℕ
  pub byte_1 : ℕ
  pub byte_2 : ℕ
  pub byte_3 : ℕ
  pub byte_4 : ℕ
  pub byte_5 : ℕ

unfoldable pub binary : DeviceIdentity → List ℕ
binary i = i.byte_0 ∷ i.byte_1 ∷ i.byte_2 ∷ i.byte_3 ∷ i.byte_4 ∷ i.byte_5 ∷ []

unfoldable pub matches_binary : DeviceIdentity → List ℕ → Bool
matches_binary i candidate = same candidate (binary i)

-- The derived `PartialEq`.
unfoldable pub identity_eq : DeviceIdentity → DeviceIdentity → Bool
identity_eq i k = same (binary i) (binary k)

unfoldable pub hex_nibble : ℕ → Option ℕ
hex_nibble byte =
    if leb b'0' byte && leb byte b'9'
    then some (byte - b'0')
    else if leb b'a' byte && leb byte b'f'
    then some (byte - b'a' + 10)
    else if leb b'A' byte && leb byte b'F'
    then some (byte - b'A' + 10)
    else none

-- One digit of `{:02x}`, and of `{:02X}`.
abbrev pub hex_digit : ℕ → ℕ
hex_digit n = if ltb n 10 then b'0' + n else b'a' + (n - 10)

abbrev pub upper_hex_digit : ℕ → ℕ
upper_hex_digit n = if ltb n 10 then b'0' + n else b'A' + (n - 10)

-- The bytes in hexadecimal digits of either case, without and with a separator between them.
unfoldable pub encode : (ℕ → ℕ) → List ℕ → List ℕ
encode digit [] = []
encode digit (byte ∷ bytes) = digit (byte / 16) ∷ digit (byte % 16) ∷ encode digit bytes

unfoldable pub joined : (ℕ → ℕ) → ℕ → List ℕ → List ℕ
joined digit separator [] = []
joined digit separator (byte ∷ []) = digit (byte / 16) ∷ digit (byte % 16) ∷ []
joined digit separator (byte ∷ next ∷ bytes) =
    digit (byte / 16) ∷ digit (byte % 16) ∷ separator ∷ joined digit separator (next ∷ bytes)

unfoldable pub compact_config_value : DeviceIdentity → List ℕ
compact_config_value i = encode hex_digit (binary i)

abbrev pub is_separator_index : ℕ → Bool
is_separator_index index = index == 2 || index == 5 || index == 8 || index == 11 || index == 14

-- The loop over the seventeen bytes of a separated identity, from an index on.
unfoldable pub strip_separators : ℕ → ℕ → List ℕ → Option (List ℕ)
strip_separators separator index [] = some []
strip_separators separator index (byte ∷ bytes) =
    let rest = strip_separators separator (index + 1) bytes in
    if is_separator_index index
    then if byte == separator then rest else none
    else Option.map (λ digits. byte ∷ digits) rest

-- The loop over the digits, two to a byte. Of the high digit the low four bits are clear, so that
-- `|` adds.
unfoldable pub read_bytes : List ℕ → Option (List ℕ)
read_bytes (h ∷ l ∷ digits) = do
  high ← hex_nibble h
  low ← hex_nibble l
  bytes ← read_bytes digits
  some ((high * 16 + low) ∷ bytes)
read_bytes _ = some []

-- The digits of a value of seventeen bytes.
unfoldable pub separated : List ℕ → Option (List ℕ)
separated (a ∷ b ∷ separator ∷ rest) =
    if separator == b':' || separator == b'-'
    then strip_separators separator 0 (a ∷ b ∷ separator ∷ rest)
    else none
separated _ = none

-- The digits of a trimmed value of either length.
unfoldable pub digits_of : List ℕ → Option (List ℕ)
digits_of value =
    if length value == 12 then some value else if length value == 17 then separated value else none

abbrev pub of_bytes : List ℕ → Option DeviceIdentity
of_bytes (a ∷ b ∷ c ∷ d ∷ e ∷ f ∷ []) =
    some (record { byte_0 = a; byte_1 = b; byte_2 = c; byte_3 = d; byte_4 = e; byte_5 = f })
of_bytes _ = none

-- The checks on the six bytes: some bit is set, and the address is no group address.
unfoldable pub admit : DeviceIdentity → Option DeviceIdentity
admit i =
    if same (binary i) (0 ∷ 0 ∷ 0 ∷ 0 ∷ 0 ∷ 0 ∷ []) || not (i.byte_0 % 2 == 0) then none else some i

unfoldable pub parse : List ℕ → Option DeviceIdentity
parse value = do
  digits ← digits_of (utf8 (trim value))
  bytes ← read_bytes digits
  identity ← of_bytes bytes
  admit identity

unfoldable pub from_member_id : List ℕ → Option DeviceIdentity
from_member_id value = if length (utf8 value) == 12 then parse value else none
