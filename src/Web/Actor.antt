-- ===== src/Web/Actor.antt =====
-- rust/src/service_runtime.rs: the controller as the actor of rust/src/web.rs. The time at which a
-- call ends is an argument.
use jbl_aura_play_together.Base.{
  ℕ, ◌<◌, ◌≤◌, ◌≡◌, ◌∙◌, sym, ◌⊎◌, inl, inr, arith, ap, not, ◌==◌, ==_iff, Bool-cases, some, List,
  [], ◌∷◌, Result, ok, err, u64_max, if◌then◌else◌,
}
use mathlib.Core.Path.{subst}
use jbl_aura_play_together.Backend.{PairBackend}
use jbl_aura_play_together.Journal.{UncertaintyJournal}
use jbl_aura_play_together.Controller.Types.{
  ControllerAction, ControllerActionResult, PairConfigurationProbe,
}
use jbl_aura_play_together.Controller.State.{PairController}
use jbl_aura_play_together.Controller.{mutate, status}
use jbl_aura_play_together.Controller.Endings.{mutate-Recorded}
use jbl_aura_play_together.Controller.Session.{
  Request, serve, Advances, mutate-Advances, status-Advances, serve-Advances,
}
use jbl_aura_play_together.Web.Handle.{
  WebMutation, start, stop, recover_stop, WebActor, Json, WebSecurity, expected_revision,
  apply_mutation, handle,
}
use jbl_aura_play_together.Web.Handle.Guards.{Admitted, handle-Outcome}

ok-injective : {A E : Type 0} {a b : A} → ◌≡◌ {A = Result A E} (ok a) (ok b) → a ≡ b
ok-injective e = cc

some-injective : {A : Type 0} {a b : A} → some a ≡ some b → a ≡ b
some-injective e = cc

abbrev pub action_of : WebMutation → ControllerAction
action_of start = ControllerAction.start
action_of stop = ControllerAction.stop
action_of recover_stop = ControllerAction.recover_stop

pub data Arrival : Type 0 where
  received : List ℕ → ℕ → Arrival
  requested : Request → Arrival

module _ {B P J : Type 0} (ops : PairBackend B) (probe_ops : PairConfigurationProbe P)
    (journal_ops : UncertaintyJournal J) where
  unfoldable pub mutate_if_revision :
      ℕ
      → ℕ
      → WebMutation
      → PairController B P J
      → Result ControllerActionResult (Unit {0}) × PairController B P J
  mutate_if_revision now expected mutation c =
      let (result, c1) = mutate ops probe_ops journal_ops c (action_of mutation) now in
      if not (c.revision == expected) then (err tt, c) else (ok result, c1)

  -- `impl WebActor for ControllerWebActor`.
  unfoldable pub controller_web_actor : ℕ → WebActor (PairController B P J)
  unfolding mutate_if_revision
  controller_web_actor now = record {
    status = λ c. status ops probe_ops c now;
    mutate_if_revision = mutate_if_revision now;
  }

  module _ {V O : Type 0} (json : Json V O) (security : WebSecurity) where
    -- What a request may do to the controller.
    abbrev pub Served : ℕ → List ℕ → PairController B P J → PairController B P J → Type 0
    Served now raw c d =
        (d ≡ c)
        ⊎ (d ≡ (status ops probe_ops c now).1)
        ⊎ ((mutation : WebMutation) × Admitted json security raw mutation c.revision
            × (d ≡ (mutate ops probe_ops journal_ops c (action_of mutation) now).1))

    apply_mutation-Served :
        (now : ℕ) (raw : List ℕ) (c : PairController B P J) (mutation : WebMutation) (revision : ℕ)
        → Admitted json security raw mutation revision
        → Served now raw c
            (apply_mutation (controller_web_actor now) json security mutation revision c).1
    unfolding apply_mutation controller_web_actor mutate_if_revision
    apply_mutation-Served now raw c mutation revision admitted =
        elim (Bool-cases (c.revision == revision)) [
          | inr stale ↦ inl (ground (arith, stale))
          | inl current ↦ inr (
              inr (
                mutation,
                subst (λ n. Admitted json security raw mutation n)
                    (sym ((==_iff c.revision revision).0 current)) admitted,
                ground (arith, current),
              ))
        ]

    -- Whatever bytes arrive, the controller is left as it is, or read for its status, or given the
    -- action of an admitted request that states the revision at which the controller then is.
    pub handle-Served :
        (now : ℕ) (raw : List ℕ) (c : PairController B P J)
        → Served now raw c (handle (controller_web_actor now) json security raw c).1
    unfolding controller_web_actor
    handle-Served now raw c = elim (handle-Outcome (controller_web_actor now) json security raw c) [
      | inl kept ↦ inl kept
      | inr (inl read) ↦ inr (inl read)
      | inr (inr (mutation, revision, admitted, e)) ↦
          subst (λ d. Served now raw c d) (sym (ap (λ x. x.1) e))
            (apply_mutation-Served now raw c mutation revision admitted)
    ]

    Admitted-once :
        (raw : List ℕ) (m n : WebMutation) (r s : ℕ)
        → Admitted json security raw m r
        → Admitted json security raw n s
        → r ≡ s
    Admitted-once raw m n r s a b = some-injective (
        sym a.expected ∙ ap expected_revision (ok-injective (sym a.parsed ∙ b.parsed)) ∙ b.expected)

    -- Bytes that reach the web service, or a request that the process makes of the controller itself.
    abbrev serve_arrival : PairController B P J → Arrival → PairController B P J
    serve_arrival c (received raw now) = (handle (controller_web_actor now) json security raw c).1
    serve_arrival c (requested request) = serve ops probe_ops journal_ops c request

    abbrev pub serve_arrivals : PairController B P J → List Arrival → PairController B P J
    serve_arrivals c [] = c
    serve_arrivals c (arrival ∷ arrivals) = serve_arrivals (serve_arrival c arrival) arrivals

    handle-Advances :
        (c : PairController B P J) (raw : List ℕ) (now : ℕ)
        → c.revision ≤ u64_max
        → Advances c (handle (controller_web_actor now) json security raw c).1
    handle-Advances c raw now b = elim (handle-Served now raw c) [
      | inl kept ↦ rw kept (omega arith, b)
      | inr (inl read) ↦ rw read (status-Advances ops probe_ops journal_ops c now b)
      | inr (inr (mutation, _, acted)) ↦
          rw acted (mutate-Advances ops probe_ops journal_ops c (action_of mutation) now b)
    ]

    serve_arrival-Advances :
        (c : PairController B P J) (arrival : Arrival)
        → c.revision ≤ u64_max
        → Advances c (serve_arrival c arrival)
    serve_arrival-Advances c (received raw now) b = handle-Advances c raw now b
    serve_arrival-Advances c (requested request) b =
        serve-Advances ops probe_ops journal_ops c request b

    serve_arrivals-Advances :
        (c : PairController B P J) (arrivals : List Arrival)
        → c.revision ≤ u64_max
        → Advances c (serve_arrivals c arrivals)
    serve_arrivals-Advances c [] b = (omega arith, b)
    serve_arrivals-Advances c (arrival ∷ arrivals) b =
        let (first, bounded) = serve_arrival-Advances c arrival b in
        let (rest, end) = serve_arrivals-Advances (serve_arrival c arrival) arrivals bounded in
        (omega (arith, first, rest), end)

    -- A request whose action the controller has taken is spent: whatever reaches the web service or
    -- is asked of the controller after it, in any number and order, the same bytes again take no
    -- second action. They leave the controller as it is then, or read its status.
    pub replay_takes_no_action :
        (now later : ℕ) (raw : List ℕ) (c : PairController B P J) (mutation : WebMutation)
        (arrivals : List Arrival)
        → c.revision < u64_max
        → Admitted json security raw mutation c.revision
        → let d =
            serve_arrivals
              (mutate ops probe_ops journal_ops c (action_of mutation) now).1
              arrivals in
          let e = (handle (controller_web_actor later) json security raw d).1 in
          (e ≡ d) ⊎ (e ≡ (status ops probe_ops d later).1)
    replay_takes_no_action now later raw c mutation arrivals small admitted =
        let taken = (mutate ops probe_ops journal_ops c (action_of mutation) now).1 in
        let d = serve_arrivals taken arrivals in
        let recorded =
          mutate-Recorded journal_ops probe_ops ops c (action_of mutation) now (omega arith) in
        let (behind, bounded) = serve_arrivals-Advances taken arrivals recorded.bounded in
        elim (handle-Served later raw d) [
          | inl kept ↦ inl kept
          | inr (inl read) ↦ inr read
          | inr (inr (again, second, e)) ↦
              let same_revision =
                Admitted-once raw mutation again c.revision d.revision admitted second in
              absurd (omega (arith, small, recorded.later, behind, same_revision))
        ]
