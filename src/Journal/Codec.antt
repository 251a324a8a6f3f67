-- ===== src/Journal/Codec.antt =====
-- Laws of `encode_state` and `parse_state` in rust/src/journal.rs.
use jbl_aura_play_together.Base.{
  ℕ, ◌≡◌, ◌↔◌, refl, true, false, inl, inr, Bool-cases, Option-cases, some, List, [], ◌∷◌, ◌++◌,
  arith, same, codes, same_iff, ap, ◌∙◌,
}
use jbl_aura_play_together.Journal.{
  JournalAction, start, stop, shutdown, recover_stop, JournalState, clean, pending, label,
  parse_action, clean_text, pending_prefix, encode_state, strip_prefix, strip_suffix, parse_state,
}

strip_prefix_sound : (p s r : List ℕ) → strip_prefix p s ≡ some r → s ≡ p ++ r
unfolding strip_prefix
strip_prefix_sound [] s r h = ground arith
strip_prefix_sound (p ∷ ps) [] r h = absurd (ground arith)
strip_prefix_sound (p ∷ ps) (x ∷ xs) r h = ground (arith, strip_prefix_sound ps xs r)

strip_suffix_sound : (c : ℕ) (s r : List ℕ) → strip_suffix c s ≡ some r → s ≡ r ++ c ∷ []
unfolding strip_suffix
strip_suffix_sound c [] r h = absurd (ground arith)
strip_suffix_sound c (x ∷ []) r h = ground arith
strip_suffix_sound c (x ∷ y ∷ s) r h = elim (Option-cases (strip_suffix c (y ∷ s))) [
  | inl e ↦ absurd (ground arith)
  | inr (t, e) ↦ ground (arith, strip_suffix_sound c (y ∷ s) t e)
]

parse_action_sound : (v : List ℕ) (a : JournalAction) → parse_action v ≡ some a → v ≡ label a
unfolding parse_action label
parse_action_sound v a h = ground (
  arith,
  same_iff v (codes "start"),
  same_iff v (codes "stop"),
  same_iff v (codes "shutdown"),
  same_iff v (codes "recover-stop"),
)

pub parse_state-encode_state : (s : JournalState) → parse_state (encode_state s) ≡ some s
unfolding parse_state encode_state
parse_state-encode_state clean = refl
parse_state-encode_state (pending start) = refl
parse_state-encode_state (pending stop) = refl
parse_state-encode_state (pending shutdown) = refl
parse_state-encode_state (pending recover_stop) = refl

-- The part of `parse_state` behind the clean text.
pending_part :
    (p : List ℕ) (s : JournalState)
    → same p clean_text ≡ false
    → parse_state p ≡ some s
    → (r v : List ℕ) × (a : JournalAction) × (strip_prefix pending_prefix p ≡ some r)
      × (strip_suffix b'\n' r ≡ some v)
      × (parse_action v ≡ some a)
      × (s ≡ pending a)
unfolding parse_state
pending_part p s dirty h = elim (Option-cases (strip_prefix pending_prefix p)) [
  | inl e ↦ absurd (ground arith)
  | inr (r, e) ↦ elim (Option-cases (strip_suffix b'\n' r)) [
    | inl f ↦ absurd (ground arith)
    | inr (v, f) ↦ elim (Option-cases (parse_action v)) [
      | inl g ↦ absurd (ground arith)
      | inr (a, g) ↦ (r, v, a, e, f, g, ground arith)
    ]
  ]
]

clean_part :
    (p : List ℕ) (s : JournalState) → same p clean_text ≡ true → parse_state p ≡ some s → s ≡ clean
unfolding parse_state
clean_part p s e h = ground arith

pub parse_state_sound :
    (p : List ℕ) (s : JournalState) → parse_state p ≡ some s → p ≡ encode_state s
unfolding encode_state
parse_state_sound p s h = elim (Bool-cases (same p clean_text)) [
  | inl e ↦ rw (clean_part p s e h) ((same_iff p clean_text).0 e)
  | inr e ↦
      let (r, v, a, pre, suf, act, eq) = pending_part p s e h in
      rw eq (
        strip_prefix_sound pending_prefix p r pre
        ∙ ap (◌++◌ pending_prefix) (
            strip_suffix_sound b'\n' r v suf
            ∙ ap (λ t. t ++ b'\n' ∷ []) (parse_action_sound v a act)))
]

-- A text is read as a state exactly if it is the text of that state: every state is read back from
-- its own text, and no other text is accepted for it.
pub parse_state_iff :
    (p : List ℕ) (s : JournalState) → (parse_state p ≡ some s) ↔ (p ≡ encode_state s)
parse_state_iff p s = (parse_state_sound p s, λ e. rw e (parse_state-encode_state s))
