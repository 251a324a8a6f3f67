-- ===== src/Web/Request.antt =====
-- The request parser of rust/src/web.rs.
use jbl_aura_play_together.Base.{
  ℕ, ◌+◌, Bool, true, false, not, ◌&&◌, ◌||◌, ltb, leb, ◌==◌, Option, none, some, List, [], ◌∷◌,
  length, codes, same, Result, ok, err, if◌then◌else◌,
}
use jbl_aura_play_together.Web.Text.{
  all_bytes, is_empty, starts_with, contains_byte, split_once, split, split_lines, find_head_end,
  trim_blanks, lowercase, is_ascii_digit, is_canonical, parse_below,
}

abbrev pub max_header_bytes : ℕ
max_header_bytes = 16384

abbrev pub max_header_count : ℕ
max_header_count = 64

abbrev pub max_body_bytes : ℕ
max_body_bytes = 4096

abbrev pub usize_bound : ℕ
usize_bound = 18446744073709551616

pub data Method : Type 0 where
  get_method post_method other_method : Method

pub data RequestError : Type 0 where
  bad_request forbidden_host forbidden_origin csrf_rejected not_found : RequestError
  method_not_allowed revision_conflict length_required payload_too_large : RequestError
  unsupported_media_type precondition_required invalid_json_body : RequestError
  http_version_not_supported : RequestError

-- `BTreeMap<String, String>`, of which the program uses `insert`, `get` and `contains_key`.
abbrev pub Headers : Type 0
Headers = List (List ℕ × List ℕ)

abbrev pub get : List ℕ → Headers → Option (List ℕ)
get name [] = none
get name ((key, value) ∷ headers) = if same name key then some value else get name headers

abbrev pub contains_key : List ℕ → Headers → Bool
contains_key name [] = false
contains_key name ((key, value) ∷ headers) = same name key || contains_key name headers

pub record ParsedRequest : Type 0 where
  pub method : Method
  pub target : List ℕ
  pub headers : Headers
  pub body : List ℕ
  pub content_length : Option ℕ

abbrev pub single_header : List ℕ → ParsedRequest → Option (List ℕ)
single_header name request = get name request.headers

unfoldable pub is_tchar : ℕ → Bool
is_tchar b =
    is_ascii_digit b
    || leb b'a' b && leb b b'z'
    || leb b'A' b && leb b b'Z'
    || b == b'!'
    || leb b'#' b && leb b b'\''
    || b == b'*'
    || b == b'+'
    || b == b'-'
    || b == b'.'
    || b == b'^'
    || b == b'_'
    || b == b'`'
    || b == b'|'
    || b == b'~'

abbrev pub is_visible : ℕ → Bool
is_visible b = leb 0x20 b && leb b 0x7e

abbrev pub is_head_byte : ℕ → Bool
is_head_byte b = b == 9 || is_visible b || b == 13 || b == 10

unfoldable pub parse_content_length : List ℕ → Result ℕ RequestError
unfolding parse_below
parse_content_length value =
    if is_canonical value
    then elim (parse_below usize_bound value) as (λ _. Result ℕ RequestError) [
      | none ↦ err payload_too_large
      | some length ↦ ok length
    ]
    else err bad_request

-- The operator `?`.
abbrev pub and_then : {A B E : Type 0} → Result A E → (A → Result B E) → Result B E
and_then (ok a) f = f a
and_then (err e) f = err e

-- A request line of three parts.
abbrev pub three_parts : List (List ℕ) → Option (List ℕ × List ℕ × List ℕ)
three_parts (a ∷ b ∷ c ∷ []) = some (a, b, c)
three_parts _ = none

abbrev pub method_of : List ℕ → Method
method_of text =
    if same text (codes "GET")
    then get_method
    else if same text (codes "POST")
    then post_method
    else other_method

unfoldable pub is_target : List ℕ → Bool
is_target target =
    starts_with (codes "/") target
    && not (starts_with (codes "//") target)
    && not (contains_byte b'?' target)
    && not (contains_byte b'#' target)
    && all_bytes (λ b. leb 0x21 b && leb b 0x7e) target

-- The tests of the three parts of the first line.
unfoldable pub check_parts : List ℕ × List ℕ × List ℕ → Result (Method × List ℕ) RequestError
unfolding is_tchar is_target
check_parts parts =
    if is_empty parts.0 || is_empty parts.1 || is_empty parts.2
    then err bad_request
    else if not (same parts.2 (codes "HTTP/1.1"))
    then err http_version_not_supported
    else if not (all_bytes is_tchar parts.0)
    then err bad_request
    else if not (is_target parts.1)
    then err bad_request
    else ok (method_of parts.0, parts.1)

-- `parse_request` on its first line.
unfoldable pub parse_request_line : List ℕ → Result (Method × List ℕ) RequestError
unfolding split check_parts
parse_request_line line = elim (three_parts (split b' ' line)) [
  | none ↦ err bad_request
  | some parts ↦ check_parts parts
]

-- A line that is empty or starts with a blank.
unfoldable pub starts_blank : List ℕ → Bool
starts_blank line = is_empty line || starts_with (b' ' ∷ []) line || starts_with (9 ∷ []) line

-- The two sides of a colon are a name and a value.
unfoldable pub is_header : List ℕ → List ℕ → Bool
unfolding is_tchar trim_blanks
is_header name value =
    not (is_empty name) && all_bytes is_tchar name && all_bytes is_visible (trim_blanks value)

-- One header line: its name in lower case, and its value.
unfoldable pub parse_header_line : List ℕ → Option (List ℕ × List ℕ)
unfolding split_once trim_blanks starts_blank is_header
parse_header_line line = if starts_blank line then none else elim (split_once b':' line) [
  | none ↦ none
  | some parts ↦
      if is_header parts.0 parts.1 then some (lowercase parts.0, trim_blanks parts.1) else none
]

-- The loop over the header lines, behind `count` of them.
unfoldable pub parse_headers : ℕ → Headers → List (List ℕ) → Result Headers RequestError
unfolding parse_header_line
parse_headers count headers [] = ok headers
parse_headers count headers (line ∷ lines) = elim (parse_header_line line) [
  | none ↦ err bad_request
  | some h ↦
      if ltb max_header_count (count + 1) || contains_key h.0 headers
      then err bad_request
      else parse_headers (count + 1) (h ∷ headers) lines
]

abbrev pub is_forbidden : Headers → Bool
is_forbidden headers =
    contains_key (codes "transfer-encoding") headers
    || contains_key (codes "trailer") headers
    || contains_key (codes "upgrade") headers
    || contains_key (codes "proxy-connection") headers

abbrev pub content_length_name : List ℕ
content_length_name = codes "content-length"

unfoldable pub content_length_of : Headers → Result (Option ℕ) RequestError
unfolding parse_content_length
content_length_of headers = elim (get content_length_name headers) [
  | none ↦ ok none
  | some value ↦ elim (parse_content_length value) [
    | ok length ↦ ok (some length)
    | err error ↦ err error
  ]
]

abbrev pub is_post : Method → Bool
is_post post_method = true
is_post _ = false

abbrev pub is_get : Method → Bool
is_get get_method = true
is_get _ = false

-- The checks of the body, in their order.
unfoldable pub check_body : Method → Option ℕ → List ℕ → Result (Unit {0}) RequestError
check_body method none body =
    if is_post method then err length_required else if is_empty body then ok tt else err bad_request
check_body method (some n) body =
    if ltb max_body_bytes n
    then err payload_too_large
    else if not (length body == n)
    then err bad_request
    else if is_get method && not (n == 0)
    then err bad_request
    else ok tt

-- `parse_request` behind its first line.
unfoldable pub finish_request :
    Method → List ℕ → Headers → List ℕ → Result ParsedRequest RequestError
unfolding content_length_of check_body
finish_request method target headers body =
    if is_forbidden headers then err bad_request else elim (content_length_of headers) [
      | err error ↦ err error
      | ok content_length ↦ elim (check_body method content_length body) [
        | err error ↦ err error
        | ok _ ↦ ok (record {
          method = method;
          target = target;
          headers = headers;
          body = body;
          content_length = content_length;
        })
      ]
    ]

abbrev pub first_line : List (List ℕ) → List ℕ
first_line [] = []
first_line (line ∷ lines) = line

abbrev pub later_lines : List (List ℕ) → List (List ℕ)
later_lines [] = []
later_lines (line ∷ lines) = lines

-- The lines of a head, and the body.
unfoldable pub parse_lines : List (List ℕ) → List ℕ → Result ParsedRequest RequestError
unfolding parse_request_line parse_headers finish_request
parse_lines lines body = and_then (parse_request_line (first_line lines)) λ line.
    and_then (parse_headers 0 [] (later_lines lines))
      λ headers. finish_request line.0 line.1 headers body

-- `parse_request` on a head that ends before the body. The source's `from_utf8` accepts every head
-- that passes the second test.
unfoldable pub parse_head : List ℕ → List ℕ → Result ParsedRequest RequestError
unfolding split_lines parse_lines
parse_head head body =
    if ltb max_header_bytes (length head)
    then err payload_too_large
    else if not (all_bytes is_head_byte head)
    then err bad_request
    else parse_lines (split_lines head) body

unfoldable pub parse_request : List ℕ → Result ParsedRequest RequestError
unfolding parse_head find_head_end
parse_request raw = elim (find_head_end raw) [
  | none ↦ if ltb max_header_bytes (length raw) then err payload_too_large else err bad_request
  | some parts ↦ parse_head parts.0 parts.1
]
