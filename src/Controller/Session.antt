-- ===== src/Controller/Session.antt =====
-- rust/src/controller.rs over a whole session: any sequence of actions and status reads.
use jbl_aura_play_together.Base.{
  ℕ, ◌≡◌, ◌≢◌, ◌≤◌, u64_max, refl, ◌∙◌, true, arith, List, [], ◌∷◌, All,
}
use jbl_aura_play_together.Backend.{PairBackend}
use jbl_aura_play_together.Journal.{UncertaintyJournal, JournalLaws}
use jbl_aura_play_together.Controller.Types.{ControllerAction, recover_stop, PairConfigurationProbe}
use jbl_aura_play_together.Controller.State.{PairController, bump_revision}
use jbl_aura_play_together.Controller.Reduce.{read_pair_configuration}
use jbl_aura_play_together.Controller.{with_journal, mutate, status}
use jbl_aura_play_together.Controller.Latch.{IsLatched, mutate-IsLatched, status-IsLatched}
use jbl_aura_play_together.Controller.Endings.{mutate-Recorded}
use jbl_aura_play_together.Controller.Gate.{mutate_latched}

-- A request with the time at which it ends.
pub data Request : Type 0 where
  act : ControllerAction → ℕ → Request
  query : ℕ → Request

abbrev pub IsNoRecovery : Request → Type 0
IsNoRecovery (act a now) = a ≢ recover_stop
IsNoRecovery (query now) = Unit

-- The latch and the journal are as they were, and so is what `Q` tells of the backend.
abbrev pub StaysLatched :
    {B P J : Type 0} → (B → Type 0) → PairController B P J → PairController B P J → Type 0
StaysLatched Q c d = Q d.backend × (d.journal ≡ c.journal) × (d.unresolved_action ≡ true)

module _ {B P J : Type 0} (ops : PairBackend B) (probe_ops : PairConfigurationProbe P)
    (journal_ops : UncertaintyJournal J) where
  unfoldable pub serve : PairController B P J → Request → PairController B P J
  serve c (act a now) = (mutate ops probe_ops journal_ops c a now).1
  serve c (query now) = (status ops probe_ops c now).1

  unfoldable pub run : PairController B P J → List Request → PairController B P J
  unfolding serve
  run c [] = c
  run c (r ∷ rs) = run (serve c r) rs

  serve-IsLatched :
      JournalLaws journal_ops
      → (c : PairController B P J) (r : Request) → IsLatched journal_ops c
      → IsLatched journal_ops (serve c r)
  unfolding serve
  serve-IsLatched laws c (act a now) h = mutate-IsLatched journal_ops laws probe_ops ops c a now h
  serve-IsLatched laws c (query now) h = status-IsLatched journal_ops laws probe_ops ops c now h

  run_keeps-IsLatched :
      JournalLaws journal_ops
      → (c : PairController B P J) (rs : List Request) → IsLatched journal_ops c
      → IsLatched journal_ops (run c rs)
  unfolding run
  run_keeps-IsLatched laws c [] h = h
  run_keeps-IsLatched laws c (r ∷ rs) h =
      run_keeps-IsLatched laws (serve c r) rs (serve-IsLatched laws c r h)

  -- Over a journal that keeps its laws, a controller made from any backend, probe and journal has
  -- its latch set after any requests exactly if its journal is pending then.
  pub run-IsLatched :
      JournalLaws journal_ops
      → (b : B) (p : P) (j : J) (rs : List Request)
      → IsLatched journal_ops (run (with_journal journal_ops b p j) rs)
  unfolding with_journal
  run-IsLatched laws b p j rs = run_keeps-IsLatched laws (with_journal journal_ops b p j) rs refl

  status_keeps_latch :
      (c : PairController B P J) (now : ℕ)
      → ((status ops probe_ops c now).1.unresolved_action ≡ c.unresolved_action)
        × ((status ops probe_ops c now).1.journal ≡ c.journal)
        × ((status ops probe_ops c now).1.backend ≡ (ops.health c.backend).1)
  unfolding status read_pair_configuration
  status_keeps_latch c now = ground arith

  module _ (Q : B → Type 0) (health_keeps : (b : B) → Q b → Q (ops.health b).1) where
    serve_latched :
        (c : PairController B P J) (r : Request)
        → c.unresolved_action ≡ true
        → IsNoRecovery r
        → Q c.backend
        → StaysLatched Q c (serve c r)
    unfolding serve
    serve_latched c (act a now) u n q =
        let (_, t) = mutate_latched ops probe_ops journal_ops c a now u n in
        (rw t.backend q, t.journal, t.unresolved_action ∙ u)
    serve_latched c (query now) u n q =
        let (l, j, b) = status_keeps_latch c now in (rw b (health_keeps c.backend q), j, l ∙ u)

    -- Once an action is unresolved, no sequence of requests without a recovery calls an action of
    -- the backend or writes the journal: what health reads keep of the backend is kept, the journal
    -- is the same, and the latch stays set.
    pub run_latched :
        (c : PairController B P J) (rs : List Request)
        → c.unresolved_action ≡ true
        → All IsNoRecovery rs
        → Q c.backend
        → StaysLatched Q c (run c rs)
    unfolding run
    run_latched c [] u n q = (q, refl, u)
    run_latched c (r ∷ rs) u n q =
        let (q', j, u') = serve_latched c r u n.0 q in
        let (q'', j', u'') = run_latched (serve c r) rs u' n.1 q' in (q'', j' ∙ j, u'')

-- The revision has not gone back, and is a u64.
abbrev pub Advances : {B P J : Type 0} → PairController B P J → PairController B P J → Type 0
Advances c d = (c.revision ≤ d.revision) × (d.revision ≤ u64_max)

module _ {B P J : Type 0} (ops : PairBackend B) (probe_ops : PairConfigurationProbe P)
    (journal_ops : UncertaintyJournal J) where
  pub mutate-Advances :
      (c : PairController B P J) (a : ControllerAction) (now : ℕ)
      → c.revision ≤ u64_max
      → Advances c (mutate ops probe_ops journal_ops c a now).1
  mutate-Advances c a now b =
      let recorded = mutate-Recorded journal_ops probe_ops ops c a now b in
      (omega (arith, b, recorded.later, recorded.bounded), recorded.bounded)

  pub status-Advances :
      (c : PairController B P J) (now : ℕ)
      → c.revision ≤ u64_max
      → Advances c (status ops probe_ops c now).1
  unfolding status read_pair_configuration bump_revision
  status-Advances c now b = ground (arith, b)

  pub serve-Advances :
      (c : PairController B P J) (r : Request)
      → c.revision ≤ u64_max
      → Advances c (serve ops probe_ops journal_ops c r)
  unfolding serve
  serve-Advances c (act a now) b = mutate-Advances c a now b
  serve-Advances c (query now) b = status-Advances c now b
