-- ===== src/Config/Text.antt =====
-- What rust/src/config.rs uses of the standard library: lines, UTF-8, unsigned numbers, and paths as
-- `Path` compares them, by their components.
use jbl_aura_play_together.Base.{
  ℕ, zero, suc, ◌+◌, ◌-◌, ◌*◌, Bool, true, false, not, ◌&&◌, ◌||◌, ltb, ◌==◌, Option, none, some,
  List, [], ◌∷◌, ◌++◌, codes, same, if◌then◌else◌,
}
use jbl_aura_play_together.Web.Text.{
  starts_with, strip_last, into_first, split, all_bytes, is_ascii_digit, decimal, is_utf8,
}

-- `str::lines`: a line ends at a line feed, with a carriage return in front of it or not.
unfoldable pub lines : List ℕ → List (List ℕ)
lines [] = []
lines (c ∷ text) =
    let rest = lines text in
    if c == 10
    then [] ∷ rest
    else if c == 13 && starts_with (10 ∷ []) text
    then rest
    else into_first c rest

-- One pair of quotes around a value. A quote is one byte of UTF-8, so that the source's test of
-- bytes is one of characters.
unfoldable pub unquote : List ℕ → List ℕ
unquote [] = []
unquote (c ∷ value) =
    if c == 39 || c == b'"'
    then elim (strip_last c value) [ none ↦ c ∷ value | some inner ↦ inner ]
    else c ∷ value

-- The characters of valid UTF-8: how many bytes the character still takes, and its value so far.
unfoldable pub decode : ℕ → ℕ → List ℕ → List ℕ
decode remaining value [] = []
decode zero value (b ∷ bytes) =
    if ltb b 128
    then b ∷ decode 0 0 bytes
    else if ltb b 224
    then decode 1 (b - 192) bytes
    else if ltb b 240
    then decode 2 (b - 224) bytes
    else decode 3 (b - 240) bytes
decode (suc remaining) value (b ∷ bytes) =
    let next = 64 * value + (b - 128) in
    if remaining == 0 then next ∷ decode 0 0 bytes else decode remaining next bytes

-- `String::from_utf8`.
unfoldable pub from_utf8 : List ℕ → Option (List ℕ)
unfolding decode
from_utf8 bytes = if is_utf8 bytes then some (decode 0 0 bytes) else none

-- `str::parse` of an unsigned integer below a bound; one plus sign may stand in front.
abbrev pub strip_plus : List ℕ → List ℕ
strip_plus [] = []
strip_plus (c ∷ digits) = if c == b'+' then digits else c ∷ digits

unfoldable pub digits_below : ℕ → List ℕ → Option ℕ
unfolding decimal
digits_below bound [] = none
digits_below bound (d ∷ digits) =
    if all_bytes is_ascii_digit (d ∷ digits) && ltb (decimal 0 (d ∷ digits)) bound
    then some (decimal 0 (d ∷ digits))
    else none

unfoldable pub parse_unsigned : ℕ → List ℕ → Option ℕ
parse_unsigned bound text = digits_below bound (strip_plus text)

-- A path by its components; `.` is one only at the start of a relative path.
pub record PathBuf : Type 0 where
  pub absolute : Bool
  pub components : List (List ℕ)

abbrev pub is_skipped : List ℕ → Bool
is_skipped part = same part [] || same part (codes ".")

abbrev pub normal_parts : List (List ℕ) → List (List ℕ)
normal_parts [] = []
normal_parts (part ∷ parts) =
    let rest = normal_parts parts in if is_skipped part then rest else part ∷ rest

abbrev pub relative_parts : List (List ℕ) → List (List ℕ)
relative_parts [] = []
relative_parts (part ∷ parts) =
    if same part (codes ".") then part ∷ normal_parts parts else normal_parts (part ∷ parts)

unfoldable pub path_of : List ℕ → PathBuf
path_of text =
    if starts_with (codes "/") text
    then record { absolute = true; components = normal_parts (split b'/' text) }
    else record { absolute = false; components = relative_parts (split b'/' text) }

abbrev pub without_last : List (List ℕ) → List (List ℕ)
without_last [] = []
without_last (part ∷ []) = []
without_last (part ∷ next ∷ parts) = part ∷ without_last (next ∷ parts)

-- `Path::parent`, none for a path without components.
unfoldable pub parent : PathBuf → Option PathBuf
parent path = elim path.components as (λ _. Option PathBuf) [
  | [] ↦ none
  | _ ∷ _ ↦ some (record path { components = without_last path.components })
]

abbrev pub has_none : List (List ℕ) → Bool
has_none [] = true
has_none (part ∷ parts) = false

-- `Path::join`.
unfoldable pub join : PathBuf → PathBuf → PathBuf
join directory path =
    if path.absolute
    then path
    else if not directory.absolute && has_none directory.components
    then path
    else record directory { components = directory.components ++ normal_parts path.components }
