-- ===== src/Model/Identity.antt =====
-- Laws of `DeviceIdentity::parse` in rust/src/model.rs.
use jbl_aura_play_together.Base.{
  ℕ, ◌+◌, ◌*◌, ◌/◌, ◌%◌, ◌<◌, ◌≡◌, refl, sym, ◌∙◌, inl, inr, true, false, arith, some, Option-cases,
  List, [], ◌∷◌, All, same, is_plain, trim, trim_plain, utf8, utf8_plain, same_eq,
}
use jbl_aura_play_together.Model.{
  DeviceIdentity, matches_binary, binary, hex_nibble, hex_digit, upper_hex_digit, encode,
  compact_config_value, joined, separated, strip_separators, read_bytes, digits_of, of_bytes, admit,
  parse,
}

-- An identity that a configuration can name.
pub record IsIdentity (i : DeviceIdentity) : Type 0 where
  pub bytes : All (λ b. b < 256) (binary i)
  pub unicast : i.byte_0 % 2 ≡ 0
  pub nonzero : same (binary i) (0 ∷ 0 ∷ 0 ∷ 0 ∷ 0 ∷ 0 ∷ []) ≡ false

-- A way to write the digits below sixteen.
record IsDigit (digit : ℕ → ℕ) : Type 0 where
  pub reads : (n : ℕ) → n < 16 → hex_nibble (digit n) ≡ some n
  pub plain : (n : ℕ) → n < 16 → is_plain (digit n) ≡ true

hex_digit-IsDigit : IsDigit hex_digit
unfolding hex_nibble
hex_digit-IsDigit = record { reads = λ n h. ground arith; plain = λ n h. ground arith }

upper_hex_digit-IsDigit : IsDigit upper_hex_digit
unfolding hex_nibble
upper_hex_digit-IsDigit = record { reads = λ n h. ground arith; plain = λ n h. ground arith }

-- The two nibbles of a byte.
nibbles : (b : ℕ) → b < 256 → (b / 16 < 16) × (b % 16 < 16) × (b / 16 * 16 + b % 16 ≡ b)
nibbles b h = (omega arith, omega arith, omega arith)

of_bytes-binary : (i : DeviceIdentity) → of_bytes (binary i) ≡ some i
unfolding binary
of_bytes-binary i = refl

admit-IsIdentity : (i : DeviceIdentity) → IsIdentity i → admit i ≡ some i
unfolding admit
admit-IsIdentity i h = ground (arith, h.unicast, h.nonzero)

module _ (digit : ℕ → ℕ) (is_digit : IsDigit digit) where
  encode_plain :
      (bs : List ℕ) → All (λ b. b < 256) bs → All (λ c. is_plain c ≡ true) (encode digit bs)
  unfolding encode
  encode_plain [] h = tt
  encode_plain (b ∷ bs) h =
      let n = nibbles b h.0 in
      (is_digit.plain (b / 16) n.0, (is_digit.plain (b % 16) n.1, encode_plain bs h.1))

  joined_plain :
      (separator : ℕ) (bs : List ℕ)
      → is_plain separator ≡ true
      → All (λ b. b < 256) bs
      → All (λ c. is_plain c ≡ true) (joined digit separator bs)
  unfolding joined
  joined_plain separator [] p h = tt
  joined_plain separator (b ∷ []) p h =
      let n = nibbles b h.0 in (is_digit.plain (b / 16) n.0, (is_digit.plain (b % 16) n.1, tt))
  joined_plain separator (b ∷ next ∷ bs) p h =
      let n = nibbles b h.0 in
      (
        is_digit.plain (b / 16) n.0,
        (is_digit.plain (b % 16) n.1, (p, joined_plain separator (next ∷ bs) p h.1)),
      )

  read_bytes-encode : (bs : List ℕ) → All (λ b. b < 256) bs → read_bytes (encode digit bs) ≡ some bs
  unfolding read_bytes encode
  read_bytes-encode [] h = refl
  read_bytes-encode (b ∷ bs) h =
      let n = nibbles b h.0 in
      rw (is_digit.reads (b / 16) n.0, is_digit.reads (b % 16) n.1, read_bytes-encode bs h.1, n.2)
        refl

  -- Any plain text whose digits are those of the identity.
  parse_text :
      (s : List ℕ) (i : DeviceIdentity)
      → All (λ c. is_plain c ≡ true) s
      → digits_of s ≡ some (encode digit (binary i))
      → IsIdentity i
      → parse s ≡ some i
  unfolding parse
  parse_text s i p d h =
      rw
        (trim_plain s p, utf8_plain s p, d, read_bytes-encode (binary i) h.bytes, of_bytes-binary i)
        (admit-IsIdentity i h)

  digits_of-encode :
      (i : DeviceIdentity) → digits_of (encode digit (binary i)) ≡ some (encode digit (binary i))
  unfolding digits_of encode binary
  digits_of-encode i = refl

  digits_of-joined :
      (i : DeviceIdentity)
      → digits_of (joined digit b':' (binary i)) ≡ some (encode digit (binary i))
  unfolding digits_of separated strip_separators joined encode binary
  digits_of-joined i = refl

-- The text that the program keeps of an identity is read back as that identity, and so is the one
-- with colons and upper case digits that it sends to the speaker.
pub parse_reads_back :
    (i : DeviceIdentity)
    → IsIdentity i
    → (parse (compact_config_value i) ≡ some i)
      × (parse (joined upper_hex_digit b':' (binary i)) ≡ some i)
unfolding compact_config_value
parse_reads_back i h = (
  parse_text hex_digit hex_digit-IsDigit (encode hex_digit (binary i)) i
      (encode_plain hex_digit hex_digit-IsDigit (binary i) h.bytes)
      (digits_of-encode hex_digit hex_digit-IsDigit i) h,
  parse_text upper_hex_digit upper_hex_digit-IsDigit (joined upper_hex_digit b':' (binary i)) i
      (joined_plain upper_hex_digit upper_hex_digit-IsDigit b':' (binary i) refl h.bytes)
      (digits_of-joined upper_hex_digit upper_hex_digit-IsDigit i) h,
)

hex_nibble_bounded : (b n : ℕ) → hex_nibble b ≡ some n → n < 16
unfolding hex_nibble
hex_nibble_bounded b n h = ground arith

read_bytes_bounded : (ds bs : List ℕ) → read_bytes ds ≡ some bs → All (λ b. b < 256) bs
unfolding read_bytes
read_bytes_bounded (h ∷ l ∷ ds) bs e = elim (Option-cases (hex_nibble h)) [
  | inl q ↦ absurd (ground (arith, q))
  | inr (x, q) ↦ elim (Option-cases (hex_nibble l)) [
    | inl p ↦ absurd (ground (arith, q, p))
    | inr (y, p) ↦ elim (Option-cases (read_bytes ds)) [
      | inl r ↦ absurd (ground (arith, q, p, r))
      | inr (zs, r) ↦
          let b : bs ≡ (x * 16 + y) ∷ zs = ground (arith, q, p, r) in
          let u = hex_nibble_bounded h x q in
          let v = hex_nibble_bounded l y p in rw b (omega (arith, u, v), read_bytes_bounded ds zs r)
    ]
  ]
]
read_bytes_bounded [] bs e = let b : bs ≡ [] = ground arith in rw b tt
read_bytes_bounded (x ∷ []) bs e = let b : bs ≡ [] = ground arith in rw b tt

of_bytes_bounded :
    (bs : List ℕ) (i : DeviceIdentity)
    → of_bytes bs ≡ some i
    → All (λ b. b < 256) bs
    → All (λ b. b < 256) (binary i)
unfolding binary
of_bytes_bounded (a ∷ b ∷ c ∷ d ∷ e ∷ f ∷ []) i h p = ground arith
of_bytes_bounded [] i h p = absurd (ground arith)
of_bytes_bounded (a ∷ []) i h p = absurd (ground arith)
of_bytes_bounded (a ∷ b ∷ []) i h p = absurd (ground arith)
of_bytes_bounded (a ∷ b ∷ c ∷ []) i h p = absurd (ground arith)
of_bytes_bounded (a ∷ b ∷ c ∷ d ∷ []) i h p = absurd (ground arith)
of_bytes_bounded (a ∷ b ∷ c ∷ d ∷ e ∷ []) i h p = absurd (ground arith)
of_bytes_bounded (a ∷ b ∷ c ∷ d ∷ e ∷ f ∷ g ∷ bs) i h p = absurd (ground arith)

admitted-IsIdentity :
    (i k : DeviceIdentity) → admit i ≡ some k → All (λ b. b < 256) (binary i) → IsIdentity k
unfolding admit
admitted-IsIdentity i k h p =
    let e : k ≡ i = ground arith in
    rw e (record { bytes = p; unicast = ground arith; nonzero = ground arith })

-- Whatever the text, an identity that is read from it has six bytes of eight bits, of which not all
-- are zero, and is no group address.
pub parse-IsIdentity : (s : List ℕ) (i : DeviceIdentity) → parse s ≡ some i → IsIdentity i
unfolding parse
parse-IsIdentity s i h = elim (Option-cases (digits_of (utf8 (trim s)))) [
  | inl q ↦ absurd (ground (arith, q))
  | inr (ds, q) ↦ elim (Option-cases (read_bytes ds)) [
    | inl r ↦ absurd (ground (arith, q, r))
    | inr (bs, r) ↦ elim (Option-cases (of_bytes bs)) [
      | inl t ↦ absurd (ground (arith, q, r, t))
      | inr (k, t) ↦
          admitted-IsIdentity k i (ground (arith, q, r, t))
            (of_bytes_bounded bs k t (read_bytes_bounded ds bs r))
    ]
  ]
]

binary_injective : (i k : DeviceIdentity) → binary i ≡ binary k → i ≡ k
unfolding binary
binary_injective i k h = ground arith

pub matches_binary_unique :
    (i k : DeviceIdentity) (s : List ℕ)
    → matches_binary i s ≡ true
    → matches_binary k s ≡ true
    → i ≡ k
unfolding matches_binary
matches_binary_unique i k s h g =
    binary_injective i k (sym (same_eq s (binary i) h) ∙ same_eq s (binary k) g)
