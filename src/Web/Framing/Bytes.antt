-- ===== src/Web/Framing/Bytes.antt =====
-- The end of a head and its bytes, as rust/src/web.rs finds them.
use jbl_aura_play_together.Base.{
  ℕ, ◌+◌, ◌≤◌, ◌≡◌, refl, inl, inr, arith, Bool, true, ◌&&◌, some, List, [], ◌∷◌, length,
  Option-cases, Bool-cases, drop,
}
use jbl_aura_play_together.Web.Text.{all_bytes, find_head_end, is_utf8_from, starts_with, lead}
use jbl_aura_play_together.Web.Request.{is_head_byte}

pub head_true : (a b : Bool) → (a && b) ≡ true → a ≡ true
head_true a b h = ground arith

pub tail_true : (a b : Bool) → (a && b) ≡ true → b ≡ true
tail_true a b h = ground arith

pub starts_with-length :
    (prefix text : List ℕ)
    → starts_with prefix text ≡ true
    → length text ≡ length prefix + length (drop (length prefix) text)
starts_with-length [] text h = omega arith
starts_with-length (p ∷ prefix) [] h = absurd (ground arith)
starts_with-length (p ∷ prefix) (b ∷ text) h =
    omega (arith, starts_with-length prefix text (ground arith))

pub find_head_end-length :
    (raw head body : List ℕ)
    → find_head_end raw ≡ some (head, body)
    → length raw ≡ length head + 4 + length body
unfolding find_head_end
find_head_end-length [] head body h = absurd (ground arith)
find_head_end-length (b ∷ bytes) head body h =
    elim (Bool-cases (starts_with (13 ∷ 10 ∷ 13 ∷ 10 ∷ []) (b ∷ bytes))) [
      | inl y ↦
          let e = starts_with-length (13 ∷ 10 ∷ 13 ∷ 10 ∷ []) (b ∷ bytes) y in ground (arith, e)
      | inr n ↦ elim (Option-cases (find_head_end bytes)) [
        | inl e ↦ absurd (ground arith)
        | inr (r, e) ↦ let rest = find_head_end-length bytes r.0 r.1 e in ground (arith, rest)
      ]
    ]

pub head_byte_bound : (b : ℕ) → is_head_byte b ≡ true → b ≤ 127
head_byte_bound b h = ground arith

pub lead_ascii : (b : ℕ) → b ≤ 127 → lead b ≡ some (0, 128, 191)
lead_ascii b h = ground arith

pub ascii_utf8 :
    (bytes : List ℕ) → all_bytes is_head_byte bytes ≡ true → is_utf8_from 0 128 191 bytes ≡ true
unfolding is_utf8_from
ascii_utf8 [] h = refl
ascii_utf8 (b ∷ bytes) h =
    rw
      (
        is_utf8_from,
        lead_ascii b
            (head_byte_bound b (head_true (is_head_byte b) (all_bytes is_head_byte bytes) h)),
      )
      (ascii_utf8 bytes (tail_true (is_head_byte b) (all_bytes is_head_byte bytes) h))
