-- ===== src/Web/Framing/Agrees.antt =====
-- The framing test of rust/src/web.rs against its parser.
use jbl_aura_play_together.Base.{
  ℕ, ◌+◌, ◌≤◌, ◌≡◌, ◌⊎◌, ◌∙◌, sym, refl, inl, inr, arith, Bool, true, false, not, ◌&&◌, ◌||◌, ltb,
  Option, none, some, List, [], length, codes, same, Result, ok, err, Option-cases, Result-cases,
  Bool-cases, same_eq, ap, if◌then◌else◌,
}
use jbl_aura_play_together.Web.Text.{
  all_bytes, is_empty, split, split_lines, find_head_end, is_utf8,
}
use jbl_aura_play_together.Web.Request.{
  max_header_bytes, max_body_bytes, Headers, get, contains_key, Method, method_of, is_head_byte,
  is_tchar, parse_content_length, three_parts, check_parts, is_target, is_post, first_line,
  later_lines, content_length_name, parse_request_line, parse_headers, content_length_of,
  check_body, finish_request, and_then, parse_lines, parse_head, parse_request, ParsedRequest,
  RequestError,
}
use jbl_aura_play_together.Web.Framing.{
  complete, max_request_bytes, is_some, transfer_encoding_name, frame_length, frame_lines, or_zero,
  measured, frame_parts, frame_head, request_frame,
}
use jbl_aura_play_together.Web.Framing.Bytes.{
  ascii_utf8, find_head_end-length, find_head_end-length,
}
use jbl_aura_play_together.Web.Framing.HeaderLines.{
  none-some, some-injective, lookup_value, lookup_value, lookup, frame_lines-parse_headers,
}

-- Past four guards.
unguarded :
    (a b c d : Bool) (m : Method) (target : List ℕ) (r : Method × List ℕ)
    → (if a
        then err RequestError.bad_request
        else if b
        then err RequestError.http_version_not_supported
        else if c
        then err RequestError.bad_request
        else if d
        then err RequestError.bad_request
        else ok (m, target))
      ≡ ok r
    → r.0 ≡ m
unguarded a b c d m target r h = ground arith

check_parts_method :
    (parts : List ℕ × List ℕ × List ℕ) (r : Method × List ℕ)
    → check_parts parts ≡ ok r
    → r.0 ≡ method_of parts.0
unfolding check_parts
check_parts_method parts r h =
    unguarded (is_empty parts.0 || is_empty parts.1 || is_empty parts.2)
      (not (same parts.2 (codes "HTTP/1.1"))) (not (all_bytes is_tchar parts.0))
      (not (is_target parts.1)) (method_of parts.0) parts.1 r h

post_method_of : (text : List ℕ) → same text (codes "POST") ≡ true → is_post (method_of text) ≡ true
post_method_of text h = rw (same_eq text (codes "POST") h) refl

parse_request_line_reads :
    (line : List ℕ) (r : Method × List ℕ)
    → parse_request_line line ≡ ok r
    → (parts : List ℕ × List ℕ × List ℕ) × (three_parts (split b' ' line) ≡ some parts)
      × (r.0 ≡ method_of parts.0)
unfolding parse_request_line
parse_request_line_reads line r h = elim (Option-cases (three_parts (split b' ' line))) [
  | inl n ↦ absurd (ground arith)
  | inr (parts, p) ↦ (parts, p, check_parts_method parts r (ground arith))
]

-- The body that the parser lets through.
check_body_measures :
    (method : Method) (content_length : Option ℕ) (body : List ℕ)
    → check_body method content_length body ≡ ok tt
    → (length body ≡ or_zero content_length)
      × (or_zero content_length ≤ max_body_bytes)
      × ((is_some content_length ≡ true) ⊎ (is_post method ≡ false))
unfolding check_body
check_body_measures method none body h = ground arith
check_body_measures method (some n) body h = ground arith

frame_length-parse_content_length :
    (value : List ℕ) (n : ℕ)
    → parse_content_length value ≡ ok n
    → n ≤ max_body_bytes
    → frame_length value ≡ some n
unfolding frame_length
frame_length-parse_content_length value n h small = ground (arith, h)

content_length_of-lookup :
    (headers : Headers) (content_length : Option ℕ)
    → content_length_of headers ≡ ok content_length
    → or_zero content_length ≤ max_body_bytes
    → (lookup headers ≡ content_length)
      × ((v : List ℕ)
          → get content_length_name headers ≡ some v
          → (n : ℕ) × (frame_length v ≡ some n))
unfolding content_length_of lookup_value
content_length_of-lookup headers content_length h small =
    elim (Option-cases (get content_length_name headers)) [
      | inl g ↦ (ground arith, λ v f. absurd (none-some v (sym g ∙ f)))
      | inr (value, g) ↦ elim (Result-cases (parse_content_length value)) [
        | inr (error, p) ↦ absurd (ground arith)
        | inl (n, p) ↦
            let length = frame_length-parse_content_length value n p (ground arith) in
            (ground (arith, length), λ v f. (n, rw (sym (some-injective (sym g ∙ f))) length))
      ]
    ]

finish_request_ok :
    (method : Method) (target : List ℕ) (headers : Headers) (body : List ℕ) (r : ParsedRequest)
    → finish_request method target headers body ≡ ok r
    → (contains_key transfer_encoding_name headers ≡ false)
      × (content_length_of headers ≡ ok r.content_length)
      × (check_body method r.content_length body ≡ ok tt)
unfolding finish_request
finish_request_ok method target headers body r h = elim (Result-cases (content_length_of headers)) [
  | inr (error, c) ↦ absurd (ground arith)
  | inl (n, c) ↦ elim (Result-cases (check_body method n body)) [
    | inr (error, b) ↦ absurd (ground arith)
    | inl (u, b) ↦ (ground arith, ground arith, ground arith)
  ]
]

two_guards :
    {A E : Type 0} (a b : Bool) (e f : E) (x : Result A E) (r : A)
    → (if a then err e else if b then err f else x) ≡ ok r
    → (a ≡ false) × (b ≡ false) × (x ≡ ok r)
two_guards a b e f x r h = ground arith

and_then_ok :
    {A B E : Type 0} (x : Result A E) (f : A → Result B E) (r : B)
    → and_then x f ≡ ok r
    → (a : A) × (x ≡ ok a) × (f a ≡ ok r)
and_then_ok (ok a) f r h = (a, refl, h)
and_then_ok (err e) f r h = absurd (ground arith)

-- What the parser has found where it accepts lines and a body.
record Accepted (lines : List (List ℕ)) (body : List ℕ) : Type 0 where
  pub parts : List ℕ × List ℕ × List ℕ
  pub line : three_parts (split b' ' (first_line lines)) ≡ some parts
  pub content_length : Option ℕ
  pub headers : frame_lines none (later_lines lines) ≡ some content_length
  pub posted : (same parts.0 (codes "POST") && not (is_some content_length)) ≡ false
  pub measured : length body ≡ or_zero content_length
  pub bounded : or_zero content_length ≤ max_body_bytes

post_measured :
    (m : Method) (text : List ℕ) (b : Bool)
    → m ≡ method_of text
    → (b ≡ true) ⊎ (is_post m ≡ false)
    → (same text (codes "POST") && not b) ≡ false
post_measured m text b e h = elim (Bool-cases (same text (codes "POST"))) [
  | inr n ↦ rw n refl
  | inl y ↦
      let posted = ap is_post e ∙ post_method_of text y in
      elim h [ inl t ↦ rw (y, t) refl | inr f ↦ absurd (ground (arith, posted, f)) ]
]

parse_lines-Accepted :
    (lines : List (List ℕ)) (body : List ℕ) (r : ParsedRequest)
    → parse_lines lines body ≡ ok r
    → Accepted lines body
unfolding parse_lines lookup_value
parse_lines-Accepted lines body r h =
    let (line, l, h1) = and_then_ok (parse_request_line (first_line lines)) _ r h in
    let (headers, p, f) = and_then_ok (parse_headers 0 [] (later_lines lines)) _ r h1 in
    let (parts, three, method) = parse_request_line_reads (first_line lines) line l in
    let (plain, counted, checked) = finish_request_ok line.0 line.1 headers body r f in
    let (length_is, bound, posted) = check_body_measures line.0 r.content_length body checked in
    let (looked, framed) = content_length_of-lookup headers r.content_length counted bound in
    let read =
      frame_lines-parse_headers 0 [] headers (later_lines lines)
        (record { plain = plain; bounded = framed }) p in
    record {
      parts = parts;
      line = three;
      content_length = r.content_length;
      headers = read ∙ ap some looked;
      posted = post_measured line.0 parts.0 (is_some r.content_length) method posted;
      measured = length_is;
      bounded = bound;
    }

measured_complete :
    (h b n : ℕ)
    → b ≡ n
    → h ≤ max_header_bytes
    → n ≤ max_body_bytes
    → measured (h + 4 + b) (h + 4 + n) ≡ complete
measured_complete h b n e small bound = ground arith

frame_parts_complete :
    (lines : List (List ℕ)) (body : List ℕ) (h : ℕ)
    → h ≤ max_header_bytes
    → Accepted lines body
    → frame_parts lines h (length body) ≡ complete
unfolding frame_parts
frame_parts_complete lines body h small a =
    rw (frame_parts, a.line, a.headers, a.posted)
      (measured_complete h (length body) (or_zero a.content_length) a.measured small a.bounded)

within : (max n : ℕ) → ltb max n ≡ false → n ≤ max
within max n h = ground arith

head_admitted : (max n : ℕ) (b : Bool) → n ≤ max → b ≡ true → (ltb max n || not b) ≡ false
head_admitted max n b h e = ground arith

not-false : (b : Bool) → not b ≡ false → b ≡ true
not-false b h = ground arith

-- What an accepted head and body are to the framing test.
frame_head-parse_head :
    (head body : List ℕ) (r : ParsedRequest)
    → parse_head head body ≡ ok r
    → (frame_head head body ≡ complete)
      × (length head ≤ max_header_bytes)
      × (length body ≤ max_body_bytes)
unfolding parse_head frame_head is_utf8
frame_head-parse_head head body r h =
    let (small, ascii, parsed) =
      two_guards (ltb max_header_bytes (length head)) (not (all_bytes is_head_byte head))
        RequestError.payload_too_large RequestError.bad_request
        (parse_lines (split_lines head) body) r h in
    let utf8 = ascii_utf8 head (not-false (all_bytes is_head_byte head) ascii) in
    let fits = within max_header_bytes (length head) small in
    let accepted = parse_lines-Accepted (split_lines head) body r parsed in
    (
      rw (frame_head, head_admitted max_header_bytes (length head) (is_utf8 head) fits utf8)
          (frame_parts_complete (split_lines head) body (length head) fits accepted),
      fits,
      rw accepted.measured accepted.bounded,
    )

fits_request :
    (raw head body : ℕ)
    → raw ≡ head + 4 + body
    → head ≤ max_header_bytes
    → body ≤ max_body_bytes
    → ltb max_request_bytes raw ≡ false
fits_request raw head body e h b = ground arith

-- A request that the parser accepts is one that the framing test reports as complete: the parser
-- accepts none that the server would go on waiting for, or reject before it.
pub request_frame-parse_request :
    (raw : List ℕ) (r : ParsedRequest) → parse_request raw ≡ ok r → request_frame raw ≡ complete
unfolding parse_request request_frame
request_frame-parse_request raw r h = elim (Option-cases (find_head_end raw)) [
  | inl n ↦ absurd (ground arith)
  | inr (parts, e) ↦
      let (whole, small, bounded) =
        frame_head-parse_head parts.0 parts.1 r (sym (rw (parse_request, e) refl) ∙ h) in
      let fits =
        fits_request (length raw) (length parts.0) (length parts.1)
          (find_head_end-length raw parts.0 parts.1 e) small bounded in
      rw (request_frame, fits, e) whole
]
