-- ===== src/Pair/Trace.antt =====
-- What a successful action of rust/src/controller.rs over rust/src/backend_native.rs has done to the
-- speakers.
use jbl_aura_play_together.Base.{ℕ, ◌≡◌, ◌⊎◌, refl, ap, ◌∙◌, inl, inr, Bool, true, arith, List}
use jbl_aura_play_together.Backend.{
  PairBackend, PairLifecycle, PairActionReceipt, PairActionResult, accepted,
}
use jbl_aura_play_together.Backend.Transaction
use jbl_aura_play_together.Journal.{UncertaintyJournal}
use jbl_aura_play_together.Controller.Types.{ControllerAction, PairConfigurationProbe}
use jbl_aura_play_together.Controller.State.{PairController}
use jbl_aura_play_together.Controller.Reduce.{read_pair_configuration}
use jbl_aura_play_together.Controller.{mutate, is_idempotent, attempt, acted, execute}
use jbl_aura_play_together.Controller.Evidence.{succeeded, mutate-execute, mutate-Confirmed, handed}
use jbl_aura_play_together.Controller.Quiet.{method, attempt-method, reduce_backend_result_backend}
use jbl_aura_play_together.Backend.Transaction.Pinning.{checked_action-accepted}
use jbl_aura_play_together.Native.Types.{JblRoleControl, AuraRoleControl, BroadcastResultObserver}
use jbl_aura_play_together.Native.{NativePairCore, Call, health}
use jbl_aura_play_together.Native.Actions.{native_backend}
use jbl_aura_play_together.Native.Order.{started, stopped, AcceptedOver, start_order}
use jbl_aura_play_together.Native.Order.Stop.{stop_order}

-- The call behind an accepted receipt of a fresh transaction.
pinned_call :
    {B : Type 0} (ops : PairBackend B) (b : B) (call : B → PairActionResult × B)
    (r : PairActionReceipt)
    → (Transaction.checked_action ops (Transaction.begin ops b) call).0 ≡ accepted r
    → call b
      ≡ (accepted r, (Transaction.checked_action ops (Transaction.begin ops b) call).1.backend)
unfolding Transaction.begin
pinned_call ops b call r h =
    let (_, _, e, _, _) = checked_action-accepted ops (Transaction.begin ops b) call r h in e

module _ {B P S : Type 0} (ops : PairBackend B) (probe_ops : PairConfigurationProbe P)
    (journal_ops : UncertaintyJournal S) where
  execute_backend :
      (c : PairController B P S) (a : ControllerAction) (p : Bool) (now : ℕ)
      → (execute ops probe_ops journal_ops c a p now).1.backend ≡ (method ops a c.backend).1
  unfolding execute acted
  execute_backend c a p now =
      reduce_backend_result_backend probe_ops journal_ops (acted ops c a) a
        (attempt ops a c.backend).0 p now
      ∙ attempt-method ops a c.backend

  attempt-accepted :
      (a : ControllerAction) (b : B) (r : PairActionReceipt)
      → (attempt ops a b).0 ≡ accepted r
      → (method ops a b).0 ≡ accepted r
  unfolding attempt Transaction.begin Transaction.start Transaction.stop Transaction.shutdown
      Transaction.recover_stop
  attempt-accepted ControllerAction.start b r h = ap (λ x. x.0) (pinned_call ops b ops.start r h)
  attempt-accepted ControllerAction.stop b r h = ap (λ x. x.0) (pinned_call ops b ops.stop r h)
  attempt-accepted ControllerAction.shutdown b r h =
      ap (λ x. x.0) (pinned_call ops b ops.shutdown r h)
  attempt-accepted ControllerAction.recover_stop b r h =
      ap (λ x. x.0) (pinned_call ops b ops.recover_stop r h)

  -- What a successful action has called, and the backend that it leaves.
  succeeded_called :
      (c : PairController B P S) (a : ControllerAction) (now : ℕ)
      → succeeded (mutate ops probe_ops journal_ops c a now).0.outcome ≡ true
      → let b = (handed probe_ops journal_ops ops c a).backend in
        (r : PairActionReceipt) × ((method ops a b).0 ≡ accepted r)
        × ((mutate ops probe_ops journal_ops c a now).1.backend ≡ (method ops a b).1)
  succeeded_called c a now h =
      let (r, conf, _) = mutate-Confirmed probe_ops journal_ops ops c a now h in
      let (_, _, e) = mutate-execute probe_ops journal_ops ops c a now h in
      let b = (handed probe_ops journal_ops ops c a).backend in
      (
        r,
        attempt-accepted a b r conf.attempted,
        ap (λ x. x.1.backend) e
            ∙ execute_backend (handed probe_ops journal_ops ops c a) a c.unresolved_action now,
      )

  handed_backend :
      (c : PairController B P S) (a : ControllerAction)
      → let b = (handed probe_ops journal_ops ops c a).backend in
        (b ≡ c.backend) ⊎ (b ≡ (ops.health c.backend).1)
  unfolding is_idempotent read_pair_configuration
  handed_backend c a = ground arith

-- The calls of an action: none, or the given ones on top of those before.
abbrev pub Called :
    {J A O : Type 0}
    → PairLifecycle
    → List Call
    → NativePairCore J A O
    → NativePairCore J A O
    → Type 0
Called l t c d = (d.lifecycle ≡ l) × ((d.trace ≡ c.trace) ⊎ (d.trace ≡ t))

module _ {J A O P S : Type 0} (jbl_ops : JblRoleControl J) (aura_ops : AuraRoleControl A)
    (observer_ops : BroadcastResultObserver O) (probe_ops : PairConfigurationProbe P)
    (journal_ops : UncertaintyJournal S) where
  abbrev native : PairBackend (NativePairCore J A O)
  native = native_backend jbl_ops aura_ops observer_ops

  -- The backend that an action is handed has made no call since the controller `c`.
  handed_core :
      (c : PairController (NativePairCore J A O) P S) (a : ControllerAction)
      → let b = (handed probe_ops journal_ops native c a).backend in
        (b.trace ≡ c.backend.trace) × (b.join_delay ≡ c.backend.join_delay)
  unfolding native_backend health
  handed_core c a = elim (handed_backend native probe_ops journal_ops c a) [
    | inl e ↦ (ap (λ b. b.trace) e, ap (λ b. b.join_delay) e)
    | inr e ↦ (ap (λ b. b.trace) e, ap (λ b. b.join_delay) e)
  ]

  accepted-Called :
      (l : PairLifecycle) (t u : List Call) (r : PairActionReceipt) (b e c d : NativePairCore J A O)
      → AcceptedOver l u r b e
      → b.trace ≡ c.trace
      → u ≡ t
      → d ≡ e
      → Called l t c d
  accepted-Called l t u r b e c d (inl (_, _, p, q, _)) f g h =
      (ap (λ x. x.lifecycle) h ∙ p, inl (ap (λ x. x.trace) h ∙ q ∙ f))
  accepted-Called l t u r b e c d (inr (_, _, p, q)) f g h =
      (ap (λ x. x.lifecycle) h ∙ p, inr (ap (λ x. x.trace) h ∙ q ∙ g))

  -- A start that the controller reports as accepted, confirmed or not, over the native backend: the
  -- backend is linked, and since the start it has made either none of the calls on the speakers, or
  -- exactly the calls of a start in their order.
  pub succeeded-start :
      (c : PairController (NativePairCore J A O) P S) (now : ℕ)
      → succeeded (mutate native probe_ops journal_ops c ControllerAction.start now).0.outcome
        ≡ true
      → Called PairLifecycle.linked
          (started c.backend.join_delay c.backend.trace)
          c.backend
          (mutate native probe_ops journal_ops c ControllerAction.start now).1.backend
  unfolding native_backend
  succeeded-start c now h =
      let (r, e, s) =
        succeeded_called native probe_ops journal_ops c ControllerAction.start now h in
      let b = (handed probe_ops journal_ops native c ControllerAction.start).backend in
      let (t, d) = handed_core c ControllerAction.start in
      accepted-Called PairLifecycle.linked (started c.backend.join_delay c.backend.trace)
        (started b.join_delay b.trace) r b _ c.backend _
        (start_order jbl_ops aura_ops observer_ops b r e) t (rw (t, d) refl) s

  -- A stop that the controller reports as accepted, confirmed or not, over the native backend: the
  -- backend is ready, and since the stop it has made either none of the calls on the speakers, or
  -- exactly the calls of a stop in their order.
  pub succeeded-stop :
      (c : PairController (NativePairCore J A O) P S) (now : ℕ)
      → succeeded (mutate native probe_ops journal_ops c ControllerAction.stop now).0.outcome ≡ true
      → Called PairLifecycle.ready
          (stopped c.backend.trace)
          c.backend
          (mutate native probe_ops journal_ops c ControllerAction.stop now).1.backend
  unfolding native_backend
  succeeded-stop c now h =
      let (r, e, s) = succeeded_called native probe_ops journal_ops c ControllerAction.stop now h in
      let b = (handed probe_ops journal_ops native c ControllerAction.stop).backend in
      let (t, d) = handed_core c ControllerAction.stop in
      accepted-Called PairLifecycle.ready (stopped c.backend.trace) (stopped b.trace) r b _
        c.backend _ (stop_order jbl_ops aura_ops observer_ops b r e) t (ap stopped t) s
