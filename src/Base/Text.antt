-- ===== src/Base/Text.antt =====
-- What the source uses of `str`: its UTF-8 bytes and `trim`. A text is the list of its code points.
use Prim.Native.Nat.{ℕ, ◌+◌, ◌/◌, ◌%◌}
use mathlib.Core.Path.{◌≡◌, refl}
use mathlib.Core.Bool.{Bool, true, ◌&&◌, ◌||◌}
use mathlib.Core.List.{List, [], ◌∷◌, ◌++◌}
use native.Mathlib.Omega.{arith}
use jbl_aura_play_together.Base.Tests.{ltb, leb, ◌==◌, if◌then◌else◌}
use jbl_aura_play_together.Base.Lists.{All}

abbrev pub utf8_char : ℕ → List ℕ
utf8_char c =
    if ltb c 128
    then c ∷ []
    else if ltb c 2048
    then (192 + c / 64) ∷ (128 + c % 64) ∷ []
    else if ltb c 65536
    then (224 + c / 4096) ∷ (128 + c / 64 % 64) ∷ (128 + c % 64) ∷ []
    else (240 + c / 262144) ∷ (128 + c / 4096 % 64) ∷ (128 + c / 64 % 64) ∷ (128 + c % 64) ∷ []

-- `str::as_bytes`.
unfoldable pub utf8 : List ℕ → List ℕ
utf8 [] = []
utf8 (c ∷ cs) = utf8_char c ++ utf8 cs

-- `char::is_whitespace`, the characters with the property White_Space.
abbrev pub is_white_space : ℕ → Bool
is_white_space c =
    leb 9 c && leb c 13
    || c == 32
    || c == 133
    || c == 160
    || c == 5760
    || leb 8192 c && leb c 8202
    || c == 8232
    || c == 8233
    || c == 8239
    || c == 8287
    || c == 12288

unfoldable pub trim_start : List ℕ → List ℕ
trim_start [] = []
trim_start (c ∷ cs) = let rest = trim_start cs in if is_white_space c then rest else c ∷ cs

unfoldable pub trim_end : List ℕ → List ℕ
trim_end [] = []
trim_end (c ∷ cs) = elim (trim_end cs) [
  | [] ↦ if is_white_space c then [] else c ∷ []
  | x ∷ xs ↦ c ∷ x ∷ xs
]

-- `str::trim`.
unfoldable pub trim : List ℕ → List ℕ
unfolding trim_start trim_end
trim s = trim_end (trim_start s)

-- An ASCII character that is no white space.
abbrev pub is_plain : ℕ → Bool
is_plain c = ltb 32 c && ltb c 128

pub trim_end_plain : (s : List ℕ) → All (λ c. is_plain c ≡ true) s → trim_end s ≡ s
unfolding trim_end
trim_end_plain [] h = refl
trim_end_plain (c ∷ []) h = ground arith
trim_end_plain (c ∷ d ∷ s) h = ground (arith, trim_end_plain (d ∷ s) h.1)

pub trim_start_plain : (s : List ℕ) → All (λ c. is_plain c ≡ true) s → trim_start s ≡ s
unfolding trim_start
trim_start_plain [] h = refl
trim_start_plain (c ∷ s) h = ground arith

pub trim_plain : (s : List ℕ) → All (λ c. is_plain c ≡ true) s → trim s ≡ s
unfolding trim
trim_plain s h = rw (trim_start_plain s h) (trim_end_plain s h)

pub utf8_plain : (s : List ℕ) → All (λ c. is_plain c ≡ true) s → utf8 s ≡ s
unfolding utf8
utf8_plain [] h = refl
utf8_plain (c ∷ s) h = ground (arith, utf8_plain s h.1)

-- `to_ascii_lowercase` of one character.
abbrev pub to_ascii_lowercase : ℕ → ℕ
to_ascii_lowercase c = if leb b'A' c && leb c b'Z' then c + 32 else c
