-- ===== src/Journal.antt =====
-- rust/src/journal.rs: the states of the uncertainty journal, its text form, and the trait
-- `UncertaintyJournal` as a record of operations. Texts are lists of code points; all are ASCII.
pub mod Codec
pub mod File
use jbl_aura_play_together.Base.{
  ℕ, ◌≡◌, ◌==◌, Bool, true, false, Option, none, some, List, [], ◌∷◌, ◌++◌, codes, same, Result,
  is_ok, if◌then◌else◌, ◌>>=◌,
}
use mathlib.Core.Option

pub data JournalAction : Type 0 where
  start stop shutdown recover_stop : JournalAction

pub data JournalState : Type 0 where
  clean : JournalState
  pending : JournalAction → JournalState

pub data JournalError : Type 0 where
  state_directory_unavailable state_directory_untrusted : JournalError
  journal_untrusted journal_invalid journal_write_failed : JournalError

abbrev pub is_pending_state : JournalState → Bool
is_pending_state clean = false
is_pending_state (pending a) = true

pub label : JournalAction → List ℕ
label start = codes "start"
label stop = codes "stop"
label shutdown = codes "shutdown"
label recover_stop = codes "recover-stop"

-- `JournalAction::parse`.
pub parse_action : List ℕ → Option JournalAction
parse_action value =
    if same value (codes "start")
    then some start
    else if same value (codes "stop")
    then some stop
    else if same value (codes "shutdown")
    then some shutdown
    else if same value (codes "recover-stop")
    then some recover_stop
    else none

abbrev pub clean_text : List ℕ
clean_text = codes "version=1\nstate=clean\n"

abbrev pub pending_prefix : List ℕ
pending_prefix = codes "version=1\nstate=pending\naction="

unfoldable pub encode_state : JournalState → List ℕ
unfolding label
encode_state clean = clean_text
encode_state (pending action) = pending_prefix ++ (label action ++ b'\n' ∷ [])

-- `str::strip_prefix` with a text, and `str::strip_suffix` with one character.
pub strip_prefix : List ℕ → List ℕ → Option (List ℕ)
strip_prefix [] s = some s
strip_prefix (p ∷ ps) [] = none
strip_prefix (p ∷ ps) (x ∷ xs) = let rest = strip_prefix ps xs in if p == x then rest else none

pub strip_suffix : ℕ → List ℕ → Option (List ℕ)
strip_suffix c [] = none
strip_suffix c (x ∷ []) = if x == c then some [] else none
strip_suffix c (x ∷ y ∷ r) = Option.map (λ s. x ∷ s) (strip_suffix c (y ∷ r))

-- `parse_state`.
unfoldable pub parse_state : List ℕ → Option JournalState
unfolding parse_action strip_prefix strip_suffix
parse_state payload = if same payload clean_text then some clean else do
  rest ← strip_prefix pending_prefix payload
  action ← strip_suffix b'\n' rest
  kind ← parse_action action
  some (pending kind)

-- The trait `UncertaintyJournal`.
pub record UncertaintyJournal (J : Type 0) : Type 0 where
  pub is_pending : J → Bool
  pub mark_pending : JournalAction → J → Result (Unit {0}) JournalError × J
  pub clear : J → Result (Unit {0}) JournalError × J

-- What a controller relies on: a committed mark is pending, a committed clear is not, and a
-- failure never loses a mark that was there.
pub record JournalLaws {J : Type 0} (ops : UncertaintyJournal J) : Type 0 where
  pub marked :
      (a : JournalAction) (j : J)
      → is_ok (ops.mark_pending a j).0 ≡ true
      → ops.is_pending (ops.mark_pending a j).1 ≡ true
  pub mark_failed :
      (a : JournalAction) (j : J)
      → is_ok (ops.mark_pending a j).0 ≡ false
      → ops.is_pending j ≡ true
      → ops.is_pending (ops.mark_pending a j).1 ≡ true
  pub cleared : (j : J) → is_ok (ops.clear j).0 ≡ true → ops.is_pending (ops.clear j).1 ≡ false
  pub clear_failed :
      (j : J) → is_ok (ops.clear j).0 ≡ false → ops.is_pending (ops.clear j).1 ≡ ops.is_pending j
