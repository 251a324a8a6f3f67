-- ===== src/Backend/Transaction/Pinning.antt =====
-- Laws of `PairBackendTransaction` in rust/src/backend.rs.
use jbl_aura_play_together.Base.{◌≡◌, ◌⊎◌, refl, Bool, true, false, none, some, arith}
use jbl_aura_play_together.Backend.{
  PairBackend, PairBackendKind, PairActionFailure, PairActionReceipt, PairActionResult, accepted,
  rejected_before_send, outcome_unknown, result_backend,
}
use jbl_aura_play_together.Backend.Transaction.{PairBackendTransaction, begin, checked_action}

-- The backend that a latched failure names, or the pinned one where nothing is latched.
abbrev pub latched_kind : {B : Type 0} → PairBackendTransaction B → PairBackendKind
latched_kind t = elim t.unresolved_action [ none ↦ t.expected_kind | some f ↦ f.backend ]

-- A latched failure names the pinned backend.
abbrev pub LatchIsPinned : {B : Type 0} → PairBackendTransaction B → Type 0
LatchIsPinned t = latched_kind t ≡ t.expected_kind

abbrev pub sends_nothing : PairActionResult → Bool
sends_nothing (rejected_before_send f) = true
sends_nothing _ = false

module _ {B : Type 0} (ops : PairBackend B) where
  pub begin-LatchIsPinned : (b : B) → LatchIsPinned (begin ops b)
  unfolding begin
  begin-LatchIsPinned b = refl

  abbrev pub AcceptedAsPinned :
      PairBackendTransaction B → (B → PairActionResult × B) → PairActionReceipt → Type 0
  AcceptedAsPinned t call r =
      (t.unresolved_action ≡ none)
      × (ops.kind t.backend ≡ t.expected_kind)
      × (call t.backend ≡ (accepted r, (checked_action ops t call).1.backend))
      × (ops.kind (checked_action ops t call).1.backend ≡ t.expected_kind)
      × (r.backend ≡ t.expected_kind)

  -- An accepted receipt is the backend's own: the transaction was not latched, the call was made
  -- and returned this receipt, and the backend's kind before the call, its kind after it and the
  -- kind that the receipt claims are all the pinned one.
  pub checked_action-accepted :
      (t : PairBackendTransaction B) (call : B → PairActionResult × B) (r : PairActionReceipt)
      → (checked_action ops t call).0 ≡ accepted r
      → AcceptedAsPinned t call r
  unfolding checked_action
  checked_action-accepted t call r h = ground arith

  -- A latched transaction is finished: a further action makes no call, whatever the call is,
  -- reports the same uncertainty and changes nothing.
  pub checked_action-latched :
      (t : PairBackendTransaction B) (call next : B → PairActionResult × B) (f : PairActionFailure)
      → (checked_action ops t call).0 ≡ outcome_unknown f
      → checked_action ops (checked_action ops t call).1 next
        ≡ (outcome_unknown f, (checked_action ops t call).1)
  unfolding checked_action
  checked_action-latched t call next f h = ground arith

  -- Every result names the pinned backend, and so does a latched failure afterwards.
  pub checked_action-names :
      (t : PairBackendTransaction B) (call : B → PairActionResult × B)
      → LatchIsPinned t
      → (result_backend (checked_action ops t call).0 ≡ t.expected_kind)
        × LatchIsPinned (checked_action ops t call).1
  unfolding checked_action
  checked_action-names t call h = ground arith

  -- A rejection is never reported for a call that may have written: then no call was made and the
  -- backend is untouched, or the call itself reported that it sent nothing.
  checked_action-rejected :
      (t : PairBackendTransaction B) (call : B → PairActionResult × B) (f : PairActionFailure)
      → (checked_action ops t call).0 ≡ rejected_before_send f
      → ((checked_action ops t call).1.backend ≡ t.backend)
        ⊎ (sends_nothing (call t.backend).0 ≡ true)
  unfolding checked_action
  checked_action-rejected t call f h = ground arith
