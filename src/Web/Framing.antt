-- ===== src/Web/Framing.antt =====
-- The framing test of rust/src/web.rs, which tells when a request is buffered as a whole.
pub mod Bytes
pub mod HeaderLines
pub mod Agrees
use jbl_aura_play_together.Base.{
  ℕ, suc, ◌+◌, Bool, true, false, not, ◌&&◌, ◌||◌, ltb, ◌==◌, Option, none, some, List, [], ◌∷◌,
  length, codes, same, Result, ok, err, if◌then◌else◌,
}
use jbl_aura_play_together.Web.Text.{
  all_bytes, is_empty, split_once, split, split_lines, find_head_end, trim_blanks, lowercase,
  is_utf8,
}
use jbl_aura_play_together.Web.Request.{
  max_header_bytes, max_body_bytes, is_tchar, is_visible, parse_content_length, three_parts,
  starts_blank, is_header, first_line, later_lines, content_length_name,
}

abbrev pub max_request_bytes : ℕ
max_request_bytes = max_header_bytes + 4 + max_body_bytes

pub data RequestFrame : Type 0 where
  incomplete complete rejected : RequestFrame

abbrev pub is_some : {A : Type 0} → Option A → Bool
is_some none = false
is_some (some a) = true

abbrev pub transfer_encoding_name : List ℕ
transfer_encoding_name = codes "transfer-encoding"

-- A length that the framing accepts.
unfoldable pub frame_length : List ℕ → Option ℕ
unfolding parse_content_length
frame_length value = elim (parse_content_length value) [
  | err error ↦ none
  | ok n ↦ if ltb max_body_bytes n then none else some n
]

-- What the loop makes of one header, its name in lower case: the length known behind it, or `none`
-- where the frame is rejected.
unfoldable pub frame_header : Option ℕ → List ℕ → List ℕ → Option (Option ℕ)
unfolding frame_length
frame_header content_length name value =
    if same transfer_encoding_name name
    then none
    else if same content_length_name name
    then if is_some content_length
      then none
      else elim (frame_length value) as (λ _. Option (Option ℕ)) [
        | none ↦ none
        | some n ↦ some (some n)
      ]
    else some content_length

-- One turn of the loop over the header lines.
unfoldable pub frame_line : Option ℕ → List ℕ → Option (Option ℕ)
unfolding split_once trim_blanks starts_blank is_header frame_header
frame_line content_length line =
    if starts_blank line then none else elim (split_once b':' line) as (λ _. Option (Option ℕ)) [
      | none ↦ none
      | some parts ↦
          if is_header parts.0 parts.1
          then frame_header content_length (lowercase parts.0) (trim_blanks parts.1)
          else none
    ]

unfoldable pub frame_lines : Option ℕ → List (List ℕ) → Option (Option ℕ)
unfolding frame_line
frame_lines content_length [] = some content_length
frame_lines content_length (line ∷ lines) = elim (frame_line content_length line) [
  | none ↦ none
  | some next ↦ frame_lines next lines
]

abbrev pub or_zero : Option ℕ → ℕ
or_zero none = 0
or_zero (some n) = n

abbrev pub measured : ℕ → ℕ → RequestFrame
measured length expected =
    if ltb max_request_bytes expected
    then rejected
    else if ltb length expected
    then incomplete
    else if length == expected
    then complete
    else rejected

-- `request_frame` on the lines of a head of so many bytes, and the length of the body.
unfoldable pub frame_parts : List (List ℕ) → ℕ → ℕ → RequestFrame
unfolding split frame_lines
frame_parts lines head_end body_length = elim (three_parts (split b' ' (first_line lines))) [
  | none ↦ rejected
  | some parts ↦ elim (frame_lines none (later_lines lines)) [
    | none ↦ rejected
    | some content_length ↦
        if same parts.0 (codes "POST") && not (is_some content_length)
        then rejected
        else measured (head_end + 4 + body_length) (head_end + 4 + or_zero content_length)
  ]
]

-- `request_frame` on a head that ends before `body`.
unfoldable pub frame_head : List ℕ → List ℕ → RequestFrame
unfolding is_utf8 split_lines frame_parts
frame_head head body =
    if ltb max_header_bytes (length head) || not (is_utf8 head)
    then rejected
    else frame_parts (split_lines head) (length head) (length body)

unfoldable pub request_frame : List ℕ → RequestFrame
unfolding find_head_end frame_head
request_frame raw =
    if ltb max_request_bytes (length raw) then rejected else elim (find_head_end raw) [
      | none ↦ if ltb (max_header_bytes + 4) (length raw) then rejected else incomplete
      | some parts ↦ frame_head parts.0 parts.1
    ]
