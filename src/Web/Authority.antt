-- ===== src/Web/Authority.antt =====
-- The tests of a request's origin in rust/src/web.rs: its host, its origin, its cookie, its revision.
use jbl_aura_play_together.Base.{
  ℕ, Bool, false, not, ◌&&◌, ◌||◌, ◌==◌, Option, none, some, List, [], ◌∷◌, length, codes, same,
  if◌then◌else◌, ◌>>=◌,
}
use jbl_aura_play_together.Web.Text.{
  all_bytes, is_empty, strip_prefix, strip_last, contains_byte, split_once, rsplit_once, split,
  trim_blanks, lowercase, is_canonical, parse_below,
}

abbrev pub u64_bound : ℕ
u64_bound = 18446744073709551616

abbrev pub csrf_cookie : List ℕ
csrf_cookie = codes "jbl_aura_csrf"

unfoldable pub parse_strong_revision : List ℕ → Option ℕ
unfolding strip_last parse_below
parse_strong_revision value = do
  behind ← strip_prefix (b'"' ∷ []) value
  digits ← strip_last b'"' behind
  if is_canonical digits then parse_below u64_bound digits else none

pub data AuthorityHost : Type 0 where
  localhost ipv4_loopback ipv6_loopback : AuthorityHost

pub record LoopbackAuthority : Type 0 where
  pub host : AuthorityHost
  pub effective_port : ℕ

unfoldable pub parse_port : List ℕ → Option ℕ
unfolding parse_below
parse_port value = do
  port ← if is_canonical value then parse_below 65536 value else none
  if port == 0 then none else some port

abbrev pub is_ascii_whitespace : ℕ → Bool
is_ascii_whitespace b = b == 9 || b == 10 || b == 12 || b == 13 || b == 32

-- An authority with its port, if it names one.
abbrev pub Named : Type 0
Named = AuthorityHost × Option ℕ

unfoldable pub with_port : AuthorityHost → List ℕ → Option Named
unfolding parse_port
with_port host port = elim (parse_port port) as (λ _. Option Named) [
  | none ↦ none
  | some p ↦ some (host, some p)
]

-- The part of `LoopbackAuthority::parse` behind a bracket.
unfoldable pub parse_ipv6 : List ℕ → Option Named
unfolding split_once with_port
parse_ipv6 rest = do
  parts ← split_once b']' rest
  if not (same parts.0 (codes "::1"))
      then none
      else if is_empty parts.1
      then some (ipv6_loopback, none)
      else strip_prefix (b':' ∷ []) parts.1 >>= with_port ipv6_loopback

abbrev pub host_of : List ℕ → Option AuthorityHost
host_of raw_host =
    if same (lowercase raw_host) (codes "localhost")
    then some localhost
    else if same raw_host (codes "127.0.0.1")
    then some ipv4_loopback
    else none

unfoldable pub parse_name : List ℕ → Option Named
unfolding rsplit_once parse_port
parse_name value = elim (rsplit_once b':' value) [
  | none ↦ elim (host_of value) as (λ _. Option Named) [
    | none ↦ none
    | some host ↦ some (host, none)
  ]
  | some parts ↦ elim (parse_port parts.1) as (λ _. Option Named) [
    | none ↦ none
    | some port ↦ elim (host_of parts.0) as (λ _. Option Named) [
      | none ↦ none
      | some host ↦ some (host, some port)
    ]
  ]
]

abbrev pub at_port : ℕ → Named → Option LoopbackAuthority
at_port configured_port (host, none) = some (record { host = host; effective_port = 80 })
at_port configured_port (host, some port) =
    if port == configured_port then some (record { host = host; effective_port = port }) else none

-- `LoopbackAuthority::parse`.
unfoldable pub parse : List ℕ → ℕ → Option LoopbackAuthority
unfolding parse_ipv6 parse_name
parse value configured_port =
    if is_empty value || not (all_bytes (λ b. not (is_ascii_whitespace b)) value)
    then none
    else elim (strip_prefix (b'[' ∷ []) value) [
      | some rest ↦ parse_ipv6 rest >>= at_port configured_port
      | none ↦ parse_name value >>= at_port configured_port
    ]

abbrev pub host_index : AuthorityHost → ℕ
host_index localhost = 0
host_index ipv4_loopback = 1
host_index ipv6_loopback = 2

-- The derived `PartialEq`.
abbrev pub authority_eq : LoopbackAuthority → LoopbackAuthority → Bool
authority_eq a b = host_index a.host == host_index b.host && a.effective_port == b.effective_port

unfoldable pub origin_is_same : List ℕ → LoopbackAuthority → Bool
unfolding parse
origin_is_same value host = elim (strip_prefix (codes "http://") value) [
  | none ↦ false
  | some authority ↦
      if contains_byte b'/' authority
        || contains_byte b'?' authority
        || contains_byte b'#' authority
        || contains_byte b'@' authority
      then false
      else elim (parse authority host.effective_port) as (λ _. Bool) [
        | none ↦ false
        | some origin ↦ authority_eq origin host
      ]
]

-- The loop of `csrf_cookie_value`, with the value found so far.
unfoldable pub cookie_fields : Option (List ℕ) → List (List ℕ) → Option (List ℕ)
unfolding split_once trim_blanks
cookie_fields found [] = found
cookie_fields found (field ∷ fields) = elim (split_once b'=' (trim_blanks field)) [
  | none ↦ none
  | some parts ↦
      if same parts.0 csrf_cookie
      then elim found [
        | some earlier ↦ none
        | none ↦ if is_empty parts.1 then none else cookie_fields (some parts.1) fields
      ]
      else cookie_fields found fields
]

unfoldable pub csrf_cookie_value : List ℕ → Option (List ℕ)
unfolding split cookie_fields
csrf_cookie_value header = cookie_fields none (split b';' header)

-- `openssl::memcmp::eq` on texts of one length, its result without its timing.
unfoldable pub constant_time_eq : List ℕ → List ℕ → Bool
constant_time_eq left right = length left == length right && same left right
