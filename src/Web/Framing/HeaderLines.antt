-- ===== src/Web/Framing/HeaderLines.antt =====
-- The two loops over the header lines in rust/src/web.rs.
use jbl_aura_play_together.Base.{
  ℕ, ◌+◌, ◌≡◌, ◌∙◌, sym, refl, inl, inr, arith, true, false, Option, none, some, List, [], ◌∷◌,
  same, ok, Option-cases, Bool-cases, same_eq, ap,
}
use jbl_aura_play_together.Web.Text.{split_once, trim_blanks, lowercase}
use jbl_aura_play_together.Web.Request.{
  Headers, get, contains_key, starts_blank, is_header, content_length_name, parse_header_line,
  parse_headers,
}
use jbl_aura_play_together.Web.Framing.{
  transfer_encoding_name, frame_length, frame_header, frame_line, frame_lines,
}

pub none-some : {A : Type 0} (a : A) → ¬ (none ≡ some a)
none-some a = λ e. ground arith

pub some-injective : {A : Type 0} {a b : A} → some a ≡ some b → a ≡ b
some-injective e = cc

-- The lines of a head, step by step.
pub headers_step :
    (count : ℕ) (hs all : Headers) (line : List ℕ) (lines : List (List ℕ))
    → parse_headers count hs (line ∷ lines) ≡ ok all
    → (h : List ℕ × List ℕ) × (parse_header_line line ≡ some h)
      × (contains_key h.0 hs ≡ false)
      × (parse_headers (count + 1) (h ∷ hs) lines ≡ ok all)
unfolding parse_headers
headers_step count hs all line lines e = elim (Option-cases (parse_header_line line)) [
  | inl n ↦ absurd (ground arith)
  | inr (h, p) ↦ (h, p, ground arith, ground arith)
]

pub get_contains : (k v : List ℕ) (hs : Headers) → get k hs ≡ some v → contains_key k hs ≡ true
get_contains k v [] e = absurd (ground arith)
get_contains k v (h ∷ hs) e = ground (arith, get_contains k v hs)

pub get_missing : (k : List ℕ) (hs : Headers) → contains_key k hs ≡ false → get k hs ≡ none
get_missing k [] e = refl
get_missing k (h ∷ hs) e = ground (arith, get_missing k hs)

-- A key that a list of headers has is another than one that it lacks.
pub distinct :
    (k v n : List ℕ) (hs : Headers)
    → get k hs ≡ some v
    → contains_key n hs ≡ false
    → same k n ≡ false
distinct k v n hs g c = elim (Bool-cases (same k n)) [
  | inr e ↦ e
  | inl e ↦
      let found = get_contains k v hs g in
      let equal = same_eq k n e in absurd (ground (arith, ap (λ x. contains_key x hs) equal))
]

pub get_kept :
    (count : ℕ) (hs all : Headers) (lines : List (List ℕ)) (k v : List ℕ)
    → parse_headers count hs lines ≡ ok all
    → get k hs ≡ some v
    → get k all ≡ some v
unfolding parse_headers
get_kept count hs all [] k v e g = ground arith
get_kept count hs all (line ∷ lines) k v e g =
    let (h, p, fresh, rest) = headers_step count hs all line lines e in
    get_kept (count + 1) (h ∷ hs) all lines k v rest (ground (arith, distinct k v h.0 hs g fresh))

pub contains_kept :
    (count : ℕ) (hs all : Headers) (lines : List (List ℕ)) (k : List ℕ)
    → parse_headers count hs lines ≡ ok all
    → contains_key k hs ≡ true
    → contains_key k all ≡ true
unfolding parse_headers
contains_kept count hs all [] k e g = ground arith
contains_kept count hs all (line ∷ lines) k e g =
    let (h, p, fresh, rest) = headers_step count hs all line lines e in
    contains_kept (count + 1) (h ∷ hs) all lines k rest (ground arith)

-- The length that the headers so far tell.
unfoldable pub lookup_value : Option (List ℕ) → Option ℕ
lookup_value none = none
lookup_value (some value) = frame_length value

abbrev pub lookup : Headers → Option ℕ
unfolding lookup_value
lookup hs = lookup_value (get content_length_name hs)

-- The two loops on one line that is a header.
pub both_read :
    (content_length : Option ℕ) (line name value : List ℕ)
    → starts_blank line ≡ false
    → split_once b':' line ≡ some (name, value)
    → is_header name value ≡ true
    → (parse_header_line line ≡ some (lowercase name, trim_blanks value))
      × (frame_line content_length line
          ≡ frame_header content_length (lowercase name) (trim_blanks value))
unfolding parse_header_line frame_line
both_read content_length line name value b p i =
    (rw (parse_header_line, b, p, i) refl, rw (frame_line, b, p, i) refl)

pub header_line_reads :
    (line : List ℕ) (h : List ℕ × List ℕ)
    → parse_header_line line ≡ some h
    → (name : List ℕ) × (value : List ℕ) × (starts_blank line ≡ false)
      × (split_once b':' line ≡ some (name, value))
      × (is_header name value ≡ true)
unfolding parse_header_line
header_line_reads line h e = elim (Bool-cases (starts_blank line)) [
  | inl b ↦ absurd (none-some h (sym (rw (parse_header_line, b) refl) ∙ e))
  | inr b ↦ elim (Option-cases (split_once b':' line)) [
    | inl n ↦ absurd (none-some h (sym (rw (parse_header_line, b, n) refl) ∙ e))
    | inr (parts, p) ↦ elim (Bool-cases (is_header parts.0 parts.1)) [
      | inl i ↦ (parts.0, parts.1, b, p, i)
      | inr i ↦ absurd (none-some h (sym (rw (parse_header_line, b, p, i) refl) ∙ e))
    ]
  ]
]

pub frame_line-parse_header_line :
    (content_length : Option ℕ) (line : List ℕ) (h : List ℕ × List ℕ)
    → parse_header_line line ≡ some h
    → frame_line content_length line ≡ frame_header content_length h.0 h.1
frame_line-parse_header_line content_length line h e =
    let (name, value, b, p, i) = header_line_reads line h e in
    let (parsed, framed) = both_read content_length line name value b p i in
    let same_header = some-injective (sym parsed ∙ e) in rw (sym same_header) framed

-- The headers that the parser lets through: no transfer encoding, and a length within the bound.
pub record IsFramed (all : Headers) : Type 0 where
  pub plain : contains_key transfer_encoding_name all ≡ false
  pub bounded :
      (v : List ℕ) → get content_length_name all ≡ some v → (n : ℕ) × (frame_length v ≡ some n)

pub frame_header_step :
    (count : ℕ) (hs all : Headers) (h : List ℕ × List ℕ) (lines : List (List ℕ))
    → IsFramed all
    → contains_key h.0 hs ≡ false
    → parse_headers count (h ∷ hs) lines ≡ ok all
    → frame_header (lookup hs) h.0 h.1 ≡ some (lookup (h ∷ hs))
unfolding frame_header lookup_value
frame_header_step count hs all h lines framed fresh rest =
    let kept = contains_kept count (h ∷ hs) all lines transfer_encoding_name rest in
    elim (Bool-cases (same content_length_name h.0)) [
      | inr e ↦ ground (arith, kept, framed.plain)
      | inl e ↦
          let missing =
            get_missing content_length_name hs (rw (same_eq content_length_name h.0 e) fresh) in
          let (n, bound) =
            framed.bounded h.1
              (get_kept count (h ∷ hs) all lines content_length_name h.1 rest (ground arith)) in
          ground (arith, kept, framed.plain, missing, bound)
    ]

pub frame_lines-parse_headers :
    (count : ℕ) (hs all : Headers) (lines : List (List ℕ))
    → IsFramed all
    → parse_headers count hs lines ≡ ok all
    → frame_lines (lookup hs) lines ≡ some (lookup all)
unfolding frame_lines parse_headers
frame_lines-parse_headers count hs all [] framed e = ground arith
frame_lines-parse_headers count hs all (line ∷ lines) framed e =
    let (h, p, fresh, rest) = headers_step count hs all line lines e in
    let turn = frame_line-parse_header_line (lookup hs) line h p in
    let step = frame_header_step (count + 1) hs all h lines framed fresh rest in
    ground (arith, turn, step, frame_lines-parse_headers (count + 1) (h ∷ hs) all lines framed rest)
