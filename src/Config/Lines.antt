-- ===== src/Config/Lines.antt =====
-- rust/src/config.rs: the lines of a file of settings, as `parse_config_text` reads them.
use jbl_aura_play_together.Base.{
  ℕ, ◌≡◌, ◌≢◌, ◌∙◌, refl, sym, ap, arith, Bool, true, false, not, ◌&&◌, ◌||◌, ◌==◌, some, List, [],
  ◌∷◌, ◌++◌, ok, err, Result, All, All-append, codes, is_plain, is_white_space, trim, trim_start,
  trim_end, trim_plain, if◌then◌else◌,
}
use mathlib.Core.List.{append_assoc}
use jbl_aura_play_together.Error.{JblError}
use jbl_aura_play_together.Web.Text.{is_empty, starts_with, split_once, all_bytes}
use jbl_aura_play_together.Model.Group.{◌>>=◌}
use jbl_aura_play_together.Config.Text.{lines, unquote}
use jbl_aura_play_together.Config.Settings.{Values, insert_setting, parse_line, parse_lines}
use jbl_aura_play_together.Config.Payload.{setting_line, payload_text}

abbrev pub in_line : ℕ → Bool
in_line c = not (c == 10) && not (c == 13)

lines-line :
    (line text : List ℕ)
    → All (λ c. in_line c ≡ true) line
    → lines (line ++ 10 ∷ text) ≡ line ∷ lines text
unfolding lines
lines-line [] text h = refl
lines-line (c ∷ line) text h =
    let e : lines (line ++ 10 ∷ text) ≡ line ∷ lines text = lines-line line text h.1 in
    ground (arith, e, h.0)

-- A character of the keys.
abbrev pub is_key_char : ℕ → Bool
is_key_char c = is_plain c && not (c == b'=') && not (c == b'#')

split_once-key :
    (key value : List ℕ)
    → All (λ c. is_key_char c ≡ true) key
    → split_once b'=' (key ++ b'=' ∷ value) ≡ some (key, value)
unfolding split_once
split_once-key [] value h = refl
split_once-key (c ∷ key) value h = ground (arith, split_once-key key value h.1, h.0)

trim_end-append :
    (s value : List ℕ) → value ≢ [] → trim_end value ≡ value → trim_end (s ++ value) ≡ s ++ value
unfolding trim_end
trim_end-append [] value n h = h
trim_end-append (c ∷ []) [] n h = absurd (n refl)
trim_end-append (c ∷ []) (v ∷ value) n h = ground (arith, h)
trim_end-append (c ∷ d ∷ s) value n h = ground (arith, trim_end-append (d ∷ s) value n h)

-- The turn of `trim_end` at a character, once the rest is trimmed.
abbrev end_turn : ℕ → List ℕ → List ℕ
end_turn c [] = if is_white_space c then [] else c ∷ []
end_turn c (x ∷ xs) = c ∷ x ∷ xs

end_turn-trimmed : (c : ℕ) (t : List ℕ) → trim_end t ≡ t → trim_end (end_turn c t) ≡ end_turn c t
unfolding trim_end
end_turn-trimmed c [] h = ground arith
end_turn-trimmed c (x ∷ xs) h = ground (arith, h)

trim_end-turn : (c : ℕ) (s : List ℕ) → trim_end (c ∷ s) ≡ end_turn c (trim_end s)
unfolding trim_end
trim_end-turn c s = ground arith

trim_end_idempotent : (s : List ℕ) → trim_end (trim_end s) ≡ trim_end s
unfolding trim_end
trim_end_idempotent [] = refl
trim_end_idempotent (c ∷ cs) =
    rw (trim_end-turn c cs) (end_turn-trimmed c (trim_end cs) (trim_end_idempotent cs))

-- What `trim` returns unchanged, `trim_end` does.
trimmed_end : (s : List ℕ) → trim s ≡ s → trim_end s ≡ s
unfolding trim
trimmed_end s h = sym (ap trim_end h) ∙ trim_end_idempotent (trim_start s) ∙ h

-- A value that stands in the file as it is.
pub record IsWritable (v : List ℕ) : Type 0 where
  pub nonempty : v ≢ []
  pub trimmed : trim v ≡ v
  pub unquoted : unquote v ≡ v
  pub in_one_line : All (λ c. in_line c ≡ true) v

pub record IsKey (k : List ℕ) : Type 0 where
  pub nonempty : k ≢ []
  pub chars : All (λ c. is_key_char c ≡ true) k

line_trimmed :
    (key value : List ℕ)
    → IsKey key
    → IsWritable value
    → trim (key ++ b'=' ∷ value) ≡ key ++ b'=' ∷ value
unfolding trim trim_start
line_trimmed [] value k w = absurd (k.nonempty refl)
line_trimmed (c ∷ key) value k w =
    let plain : is_white_space c ≡ false = ground (arith, k.chars.0) in
    let tail : trim_end (b'=' ∷ value) ≡ b'=' ∷ value =
      trim_end-append (b'=' ∷ []) value w.nonempty (trimmed_end value w.trimmed) in
    ground (arith, plain, trim_end-append (c ∷ key) (b'=' ∷ value) (λ e. ground (arith, e)) tail)

keys_plain : (k : List ℕ) → All (λ c. is_key_char c ≡ true) k → All (λ c. is_plain c ≡ true) k
keys_plain [] h = tt
keys_plain (c ∷ k) h = (ground (arith, h.0), keys_plain k h.1)

keys_in_line : (k : List ℕ) → All (λ c. is_key_char c ≡ true) k → All (λ c. in_line c ≡ true) k
keys_in_line [] h = tt
keys_in_line (c ∷ k) h = (ground (arith, h.0), keys_in_line k h.1)

not_skipped :
    (key value : List ℕ)
    → IsKey key
    → (is_empty (key ++ b'=' ∷ value) || starts_with (codes "#") (key ++ b'=' ∷ value)) ≡ false
not_skipped [] value k = absurd (k.nonempty refl)
not_skipped (c ∷ key) value k = ground (arith, k.chars.0)

-- A line of the file as a turn of the parser.
parse_line-setting :
    (key value : List ℕ) (values : Values)
    → IsKey key
    → IsWritable value
    → parse_line (key ++ b'=' ∷ value) values ≡ insert_setting key value values
unfolding parse_line
parse_line-setting key value values k w =
    rw
      (
        line_trimmed key value k w,
        not_skipped key value k,
        split_once-key key value k.chars,
        trim_plain key (keys_plain key k.chars),
        w.trimmed,
        w.unquoted,
      )
      refl

-- Every setting of a list stored in turn.
abbrev pub store : Values → Values → Result Values JblError
store [] values = ok values
store (setting ∷ settings) values = insert_setting setting.0 setting.1 values >>= store settings

abbrev pub IsSetting : List ℕ × List ℕ → Type 0
IsSetting setting = IsKey setting.0 × IsWritable setting.1

bind_eq :
    {A C : Type 0} (r : Result A JblError) (f g : A → Result C JblError)
    → ((a : A) → f a ≡ g a)
    → (r >>= f) ≡ (r >>= g)
bind_eq (ok a) f g h = h a
bind_eq (err e) f g h = refl

lines-setting_line :
    (key value text : List ℕ)
    → IsKey key
    → IsWritable value
    → lines (setting_line (key, value) text) ≡ (key ++ b'=' ∷ value) ∷ lines text
lines-setting_line key value text k w = rw (sym (append_assoc key (b'=' ∷ value) (10 ∷ text))) (
    lines-line (key ++ b'=' ∷ value) text (
      All-append (λ c. in_line c ≡ true) key (b'=' ∷ value) (keys_in_line key k.chars)
        (refl, w.in_one_line)))

pub parse_lines-payload_text :
    (settings values : Values)
    → All IsSetting settings
    → parse_lines (lines (payload_text settings)) values ≡ store settings values
unfolding parse_lines payload_text lines
parse_lines-payload_text [] values h = refl
parse_lines-payload_text (setting ∷ settings) values h =
    rw (lines-setting_line setting.0 setting.1 (payload_text settings) h.0.0 h.0.1) (
      rw (parse_line-setting setting.0 setting.1 values h.0.0 h.0.1) (
        bind_eq (insert_setting setting.0 setting.1 values)
          (parse_lines (lines (payload_text settings))) (store settings)
          (λ next. parse_lines-payload_text settings next h.1)))

-- A key of the file.
abbrev pub key_test : List ℕ → Bool
key_test [] = false
key_test (c ∷ key) = all_bytes is_key_char (c ∷ key)

key_chars_of : (k : List ℕ) → all_bytes is_key_char k ≡ true → All (λ c. is_key_char c ≡ true) k
key_chars_of [] h = tt
key_chars_of (c ∷ k) h = (ground (arith, h), key_chars_of k (ground (arith, h)))

pub key_test-IsKey : (k : List ℕ) → key_test k ≡ true → IsKey k
key_test-IsKey [] h = absurd (ground arith)
key_test-IsKey (c ∷ k) h = record {
  nonempty = λ e. ground (arith, e);
  chars = key_chars_of (c ∷ k) h;
}
