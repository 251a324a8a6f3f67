-- ===== src/Web/Text.antt =====
-- What rust/src/web.rs does with bytes and `str`: a text is the list of its bytes.
use jbl_aura_play_together.Base.{
  ℕ, zero, suc, ◌+◌, ◌*◌, ◌-◌, Bool, true, false, not, ◌&&◌, ◌||◌, ltb, leb, ◌==◌, Option, none,
  some, List, [], ◌∷◌, length, drop, map, to_ascii_lowercase, if◌then◌else◌,
}

abbrev pub all_bytes : (ℕ → Bool) → List ℕ → Bool
all_bytes p [] = true
all_bytes p (b ∷ bytes) = p b && all_bytes p bytes

abbrev pub is_empty : List ℕ → Bool
is_empty [] = true
is_empty (b ∷ bytes) = false

abbrev pub starts_with : List ℕ → List ℕ → Bool
starts_with [] text = true
starts_with (p ∷ prefix) [] = false
starts_with (p ∷ prefix) (b ∷ text) = (p == b) && starts_with prefix text

-- `str::strip_prefix`, and `strip_suffix` of one character.
abbrev pub strip_prefix : List ℕ → List ℕ → Option (List ℕ)
strip_prefix prefix text =
    if starts_with prefix text then some (drop (length prefix) text) else none

unfoldable pub strip_last : ℕ → List ℕ → Option (List ℕ)
strip_last c [] = none
strip_last c (b ∷ []) = if b == c then some [] else none
strip_last c (b ∷ d ∷ text) = elim (strip_last c (d ∷ text)) [
  | none ↦ none
  | some rest ↦ some (b ∷ rest)
]

abbrev pub contains_byte : ℕ → List ℕ → Bool
contains_byte c text = not (all_bytes (λ b. not (b == c)) text)

-- What stands before the first occurrence of a character and behind it, `str::split_once`.
unfoldable pub split_once : ℕ → List ℕ → Option (List ℕ × List ℕ)
split_once c [] = none
split_once c (b ∷ text) =
    if b == c
    then some ([], text)
    else elim (split_once c text) as (λ _. Option (List ℕ × List ℕ)) [
      | none ↦ none
      | some r ↦ some (b ∷ r.0, r.1)
    ]

-- The same at the last occurrence, `str::rsplit_once`.
unfoldable pub rsplit_once : ℕ → List ℕ → Option (List ℕ × List ℕ)
rsplit_once c [] = none
rsplit_once c (b ∷ text) = elim (rsplit_once c text) as (λ _. Option (List ℕ × List ℕ)) [
  | some r ↦ some (b ∷ r.0, r.1)
  | none ↦ if b == c then some ([], text) else none
]

-- A byte in front of the first part of a split.
abbrev pub into_first : ℕ → List (List ℕ) → List (List ℕ)
into_first b [] = (b ∷ []) ∷ []
into_first b (part ∷ parts) = (b ∷ part) ∷ parts

-- `str::split` at a character.
unfoldable pub split : ℕ → List ℕ → List (List ℕ)
split c [] = [] ∷ []
split c (b ∷ text) = let rest = split c text in if b == c then [] ∷ rest else into_first b rest

-- `str::split("\r\n")`.
unfoldable pub split_lines : List ℕ → List (List ℕ)
split_lines [] = [] ∷ []
split_lines (b ∷ []) = (b ∷ []) ∷ []
split_lines (b ∷ c ∷ text) =
    let behind = split_lines text in
    let next = split_lines (c ∷ text) in
    if b == 13 && c == 10 then [] ∷ behind else into_first b next

-- `find_subslice` for the end of a head, "\r\n\r\n": what stands before it and behind it.
unfoldable pub find_head_end : List ℕ → Option (List ℕ × List ℕ)
find_head_end [] = none
find_head_end (b ∷ bytes) =
    let rest = find_head_end bytes in
    if starts_with (13 ∷ 10 ∷ 13 ∷ 10 ∷ []) (b ∷ bytes)
    then some ([], drop 3 bytes)
    else elim rest as (λ _. Option (List ℕ × List ℕ)) [ none ↦ none | some r ↦ some (b ∷ r.0, r.1) ]

-- `trim_matches([' ', '\t'])`.
abbrev pub is_blank : ℕ → Bool
is_blank c = c == b' ' || c == 9

unfoldable pub trim_blanks_start : List ℕ → List ℕ
trim_blanks_start [] = []
trim_blanks_start (c ∷ cs) = let rest = trim_blanks_start cs in if is_blank c then rest else c ∷ cs

unfoldable pub trim_blanks_end : List ℕ → List ℕ
trim_blanks_end [] = []
trim_blanks_end (c ∷ cs) = elim (trim_blanks_end cs) [
  | [] ↦ if is_blank c then [] else c ∷ []
  | x ∷ xs ↦ c ∷ x ∷ xs
]

unfoldable pub trim_blanks : List ℕ → List ℕ
unfolding trim_blanks_start trim_blanks_end
trim_blanks s = trim_blanks_end (trim_blanks_start s)

abbrev pub lowercase : List ℕ → List ℕ
lowercase = map to_ascii_lowercase

abbrev pub is_ascii_digit : ℕ → Bool
is_ascii_digit b = leb b'0' b && leb b b'9'

-- The value of decimal digits, behind the value of those before them.
unfoldable pub decimal : ℕ → List ℕ → ℕ
decimal n [] = n
decimal n (d ∷ digits) = decimal (10 * n + (d - b'0')) digits

-- One or more digits, with no zero in front of another.
abbrev pub is_canonical : List ℕ → Bool
is_canonical [] = false
is_canonical (d ∷ []) = is_ascii_digit d
is_canonical (d ∷ e ∷ digits) =
    not (d == b'0') && is_ascii_digit d && all_bytes is_ascii_digit (e ∷ digits)

-- The digits as a number below a bound, `parse` of an unsigned integer.
unfoldable pub parse_below : ℕ → List ℕ → Option ℕ
unfolding decimal
parse_below bound digits = if ltb (decimal 0 digits) bound then some (decimal 0 digits) else none

-- The continuation bytes that a byte of UTF-8 calls for, with the range of the next one.
abbrev pub lead : ℕ → Option (ℕ × ℕ × ℕ)
lead b =
    if leb b 127
    then some (0, 128, 191)
    else if leb 194 b && leb b 223
    then some (1, 128, 191)
    else if b == 224
    then some (2, 160, 191)
    else if b == 237
    then some (2, 128, 159)
    else if leb 225 b && leb b 239
    then some (2, 128, 191)
    else if b == 240
    then some (3, 144, 191)
    else if leb 241 b && leb b 243
    then some (3, 128, 191)
    else if b == 244
    then some (3, 128, 143)
    else none

unfoldable pub is_utf8_from : ℕ → ℕ → ℕ → List ℕ → Bool
is_utf8_from zero low high [] = true
is_utf8_from (suc n) low high [] = false
is_utf8_from zero low high (b ∷ bytes) = elim (lead b) as (λ _. Bool) [
  | none ↦ false
  | some s ↦ is_utf8_from s.0 s.1 s.2 bytes
]
is_utf8_from (suc n) low high (b ∷ bytes) = leb low b && leb b high && is_utf8_from n 128 191 bytes

-- `str::from_utf8` accepts the bytes.
unfoldable pub is_utf8 : List ℕ → Bool
unfolding is_utf8_from
is_utf8 = is_utf8_from 0 128 191
