-- ===== src/Config/Writable.antt =====
-- rust/src/config.rs: the values that `install_private_config` writes.
use jbl_aura_play_together.Base.{
  ℕ, zero, suc, ◌+◌, ◌%◌, ◌/◌, ◌<◌, ◌≡◌, ◌≢◌, refl, arith, Bool, true, false, not, ◌&&◌, ltb, ◌==◌,
  List, [], ◌∷◌, All, codes, is_plain, trim, trim_plain, if◌then◌else◌,
}
use jbl_aura_play_together.Web.Text.{contains_byte}
use jbl_aura_play_together.Model.{DeviceIdentity, binary, encode, hex_digit, compact_config_value}
use jbl_aura_play_together.Model.Identity.{IsIdentity}
use jbl_aura_play_together.Config.Text.{unquote}
use jbl_aura_play_together.Config.{BroadcastConfirmation, ack, gena}
use jbl_aura_play_together.Config.Payload.{
  confirmation_text, display, digits_onto, safe_config_value,
}
use jbl_aura_play_together.Config.Lines.{in_line, IsWritable}

-- Safe and trimmed values are writable.
in_line_of :
    (v : List ℕ)
    → contains_byte 10 v ≡ false
    → contains_byte 13 v ≡ false
    → All (λ c. in_line c ≡ true) v
in_line_of [] h g = tt
in_line_of (c ∷ v) h g =
    (ground (arith, h, g), in_line_of v (ground (arith, h)) (ground (arith, g)))

pub safe-IsWritable : (v : List ℕ) → safe_config_value v ≡ true → trim v ≡ v → IsWritable v
unfolding safe_config_value unquote
safe-IsWritable [] h t = absurd (ground (arith, h))
safe-IsWritable (c ∷ v) h t = record {
  nonempty = λ e. ground (arith, e);
  trimmed = t;
  unquoted = ground (arith, h);
  in_one_line = in_line_of (c ∷ v) (ground (arith, h)) (ground (arith, h));
}

-- Characters that are neither white space nor quotes.
abbrev is_bare : ℕ → Bool
is_bare c = is_plain c && not (c == 39) && not (c == b'"')

bare_plain : (v : List ℕ) → All (λ c. is_bare c ≡ true) v → All (λ c. is_plain c ≡ true) v
bare_plain [] h = tt
bare_plain (c ∷ v) h = (ground (arith, h.0), bare_plain v h.1)

bare_in_line : (v : List ℕ) → All (λ c. is_bare c ≡ true) v → All (λ c. in_line c ≡ true) v
bare_in_line [] h = tt
bare_in_line (c ∷ v) h = (ground (arith, h.0), bare_in_line v h.1)

bare-IsWritable : (v : List ℕ) → v ≢ [] → All (λ c. is_bare c ≡ true) v → IsWritable v
unfolding unquote
bare-IsWritable [] n h = absurd (n refl)
bare-IsWritable (c ∷ v) n h = record {
  nonempty = n;
  trimmed = trim_plain (c ∷ v) (bare_plain (c ∷ v) h);
  unquoted = ground (arith, h.0);
  in_one_line = bare_in_line (c ∷ v) h;
}

-- A text of bare characters that is not empty.
abbrev IsBare : List ℕ → Type 0
IsBare [] = ⊥
IsBare (c ∷ text) = All (λ d. is_bare d ≡ true) (c ∷ text)

IsBare-All : (v : List ℕ) → IsBare v → All (λ c. is_bare c ≡ true) v
IsBare-All [] h = tt
IsBare-All (c ∷ v) h = h

digits_onto-IsBare : (fuel n : ℕ) (text : List ℕ) → IsBare text → IsBare (digits_onto fuel n text)
unfolding digits_onto
digits_onto-IsBare zero n text h = h
digits_onto-IsBare (suc fuel) n text h =
    let digit : is_bare (b'0' + n % 10) ≡ true = ground arith in
    let digits : IsBare ((b'0' + n % 10) ∷ text) = (digit, IsBare-All text h) in
    elim (ltb n 10)
      as (λ b. IsBare (
        if b then (b'0' + n % 10) ∷ text else digits_onto fuel (n / 10) ((b'0' + n % 10) ∷ text))) [
          | true ↦ digits
          | false ↦ digits_onto-IsBare fuel (n / 10) ((b'0' + n % 10) ∷ text) digits
        ]

bare_text-IsWritable : (v : List ℕ) → IsBare v → IsWritable v
bare_text-IsWritable [] h = absurd h
bare_text-IsWritable (c ∷ v) h = bare-IsWritable (c ∷ v) (λ e. ground (arith, e)) h

digits_onto-started :
    (fuel n : ℕ) (text : List ℕ)
    → All (λ c. is_bare c ≡ true) text
    → IsBare (digits_onto (suc fuel) n text)
unfolding digits_onto
digits_onto-started fuel n text h =
    let digits : IsBare ((b'0' + n % 10) ∷ text) = (ground arith, h) in
    elim (ltb n 10)
      as (λ b. IsBare (
        if b then (b'0' + n % 10) ∷ text else digits_onto fuel (n / 10) ((b'0' + n % 10) ∷ text))) [
          | true ↦ digits
          | false ↦ digits_onto-IsBare fuel (n / 10) ((b'0' + n % 10) ∷ text) digits
        ]

pub display-IsWritable : (n : ℕ) → IsWritable (display n)
display-IsWritable n = bare_text-IsWritable (display n) (digits_onto-started 19 n [] tt)

-- The texts of the identities.
hex_digit_bare : (n : ℕ) → n < 16 → is_bare (hex_digit n) ≡ true
hex_digit_bare n h = ground arith

encode_bare :
    (bytes : List ℕ)
    → All (λ b. b < 256) bytes
    → All (λ c. is_bare c ≡ true) (encode hex_digit bytes)
unfolding encode
encode_bare [] h = tt
encode_bare (b ∷ bytes) h =
    let low : b % 16 < 16 = omega arith in
    let high : b / 16 < 16 = omega (arith, h.0) in
    (hex_digit_bare (b / 16) high, (hex_digit_bare (b % 16) low, encode_bare bytes h.1))

pub compact_config_value-IsWritable :
    (i : DeviceIdentity) → IsIdentity i → IsWritable (compact_config_value i)
unfolding compact_config_value binary encode
compact_config_value-IsWritable i h =
    bare-IsWritable (encode hex_digit (binary i)) (λ e. ground (arith, e))
      (encode_bare (binary i) h.bytes)

pub confirmation_text-IsWritable : (c : BroadcastConfirmation) → IsWritable (confirmation_text c)
confirmation_text-IsWritable ack =
    bare-IsWritable (codes "ack") (λ e. ground (arith, e)) (refl, (refl, (refl, tt)))
confirmation_text-IsWritable gena =
    bare-IsWritable (codes "gena") (λ e. ground (arith, e)) (refl, (refl, (refl, (refl, tt))))
