-- ===== src/Tests/ControllerTests.antt =====
-- Tests of rust/src/controller.rs over the native backend and the file journal.
use jbl_aura_play_together.Base.{◌≡◌, ◌⊎◌, refl, true, arith, [], ◌∷◌}
use jbl_aura_play_together.Backend.{PairBackend, PairLifecycle, PairActionReceipt}
use jbl_aura_play_together.Backend.Transaction
use jbl_aura_play_together.Journal.{UncertaintyJournal}
use jbl_aura_play_together.Journal.File.{mark_pending, clear, commit}
use jbl_aura_play_together.Journal.File.Open.{Scheduled, file_journal}
use jbl_aura_play_together.Journal.File.Reopen.{file_journal-JournalLaws}
use jbl_aura_play_together.Native.{
  health, settled_in, shut_aura, connect_aura, start_aura, acquire_fresh_aura_bearer, enter_jbl,
  arm_observer, execute_observer, latch_unknown, stop_aura, exit_jbl,
}
use jbl_aura_play_together.Native.Actions.{
  start, start_fresh, start_arm, start_enter, start_broadcast, start_join, native_backend,
}
use jbl_aura_play_together.Native.WriteSafety.{writes, native-KeepsContract}
use jbl_aura_play_together.Controller.Types.{
  ControllerAction, ControllerActionOutcome, ManagedLiveState,
}
use jbl_aura_play_together.Controller.State.{PairController}
use jbl_aura_play_together.Controller.Reduce.{
  read_pair_configuration, settle, reduce_accepted, reduce_backend_result,
}
use jbl_aura_play_together.Controller.{
  with_journal, is_idempotent, attempt, acted, execute, journalled, admitted, preflight, mutate,
}
use jbl_aura_play_together.Controller.Latch.{IsLatched}
use jbl_aura_play_together.Controller.Evidence.{Confirmed, Settled, mutate-Confirmed}
use jbl_aura_play_together.Controller.Gate.{mutate_unmarked}
use jbl_aura_play_together.Controller.Session.{
  act, query, run, run-IsLatched, run_latched, StaysLatched,
}
use jbl_aura_play_together.Controller.Quiet.{mutate-Quiet, Quiet}
use jbl_aura_play_together.Journal.File.{crash, read_state}
use jbl_aura_play_together.Journal.File.Durable.{IsSound}
use jbl_aura_play_together.Journal.File.Crash.{OpensPending}
use jbl_aura_play_together.Native.Order.{started, stopped}
use jbl_aura_play_together.Native.Actions
use jbl_aura_play_together.Pair.{uncertain_survives}
use jbl_aura_play_together.Pair.Trace.{Called, succeeded-start, succeeded-stop}
use jbl_aura_play_together.Tests.Fixtures.{
  good_commit, empty_directory, Peer, Core, jbl, aura, silent_aura, observer, core, euid, good_io,
  failing_io, clean_journal, probe,
}

abbrev Controller : Type 0
Controller = PairController Core Peer Scheduled

abbrev good : PairBackend Core
good = native_backend jbl aura observer

abbrev silent : PairBackend Core
silent = native_backend jbl silent_aura observer

abbrev file_ops : UncertaintyJournal Scheduled
file_ops = file_journal euid good_io

abbrev full_ops : UncertaintyJournal Scheduled
full_ops = file_journal euid failing_io

controller : Controller
unfolding with_journal core file_journal
controller = with_journal file_ops core tt clean_journal

-- A controller with an unresolved action over a pending journal, and one that is linked.
latched : Controller
unfolding controller
latched = record controller { unresolved_action = true }

linked : Controller
unfolding controller
linked = record controller {
  managed_state = ManagedLiveState.linked;
  backend = record core { lifecycle = PairLifecycle.linked };
}

-- What a run of the controller passes through.
run_start : PairBackend Core → Controller → ControllerActionOutcome
unfolding mutate preflight admitted is_idempotent journalled execute acted attempt
    reduce_backend_result reduce_accepted settle read_pair_configuration file_journal mark_pending
    clear commit native_backend start start_fresh start_arm start_enter start_broadcast start_join
    settled_in shut_aura connect_aura start_aura acquire_fresh_aura_bearer enter_jbl arm_observer
    execute_observer latch_unknown Transaction.begin Transaction.start Transaction.checked_action
run_start ops c = (mutate ops probe file_ops c ControllerAction.start 7).0.outcome

-- A start over speakers that answer is accepted; over an Aura that stays silent it is uncertain.
start_accepted : run_start good controller ≡ ControllerActionOutcome.accepted
unfolding run_start controller
start_accepted = refl

start_uncertain : run_start silent controller ≡ ControllerActionOutcome.outcome_unknown
unfolding run_start controller
start_uncertain = refl

run-IsLatched_example : IsLatched file_ops (
    run silent probe file_ops
      (with_journal file_ops core tt clean_journal)
      (act ControllerAction.start 5 ∷ query 6 ∷ act ControllerAction.stop 9 ∷ []))
run-IsLatched_example =
    run-IsLatched silent probe file_ops (file_journal-JournalLaws euid good_io) core tt
      clean_journal (act ControllerAction.start 5 ∷ query 6 ∷ act ControllerAction.stop 9 ∷ [])

mutate-Confirmed_example :
    (r : PairActionReceipt) × Confirmed probe file_ops good controller ControllerAction.start r
    × Settled ControllerAction.start r
        (mutate good probe file_ops controller ControllerAction.start 7)
mutate-Confirmed_example =
    mutate-Confirmed probe file_ops good controller ControllerAction.start 7
      (unfold run_start controller in refl)

-- The same start is refused by a latched controller, and a recovery by one that is not.
mutate_unmarked_example :
    (((mutate good probe full_ops controller ControllerAction.start 7).1.backend
        ≡ controller.backend)
      ⊎ ((mutate good probe full_ops controller ControllerAction.start 7).1.backend
          ≡ (good.health controller.backend).1))
    × (((mutate good probe full_ops controller ControllerAction.start 7).0.outcome
          ≡ ControllerActionOutcome.idempotent)
        ⊎ ((mutate good probe full_ops controller ControllerAction.start 7).0.outcome
            ≡ ControllerActionOutcome.rejected_before_send))
mutate_unmarked_example =
    mutate_unmarked good probe full_ops controller ControllerAction.start 7
      (unfold controller file_journal mark_pending commit in refl)

run_latched_example :
    StaysLatched
      (λ c. c.trace ≡ [])
      latched
      (run good probe file_ops latched (act ControllerAction.stop 5 ∷ query 6 ∷ []))
unfolding health native_backend
run_latched_example =
    run_latched good probe file_ops (λ c. c.trace ≡ []) (λ c h. h) latched
      (act ControllerAction.stop 5 ∷ query 6 ∷ []) (unfold latched in refl) (λ e. cc, (tt, tt))
      (unfold latched in refl)

mutate-Quiet_example :
    Quiet
      (λ c. writes c.trace)
      controller
      (mutate good probe full_ops controller ControllerAction.start 7).1
mutate-Quiet_example =
    mutate-Quiet good (λ c. writes c.trace) (native-KeepsContract jbl aura observer) probe full_ops
      controller ControllerAction.start 7 (unfold run_start controller in refl)

empty_directory-IsSound : IsSound euid empty_directory
unfolding read_state
empty_directory-IsSound = record {
  marker = refl;
  marker_candidates = (refl, tt);
  snapshot = refl;
  snapshot_candidates = (refl, tt);
}

uncertain_survives_example : OpensPending euid good_commit (
    crash 2 1
      (run silent probe file_ops
        (mutate silent probe file_ops controller ControllerAction.start 7).1
        (act ControllerAction.stop 8 ∷ [])).journal.journal.directory)
uncertain_survives_example =
    uncertain_survives silent probe euid good_io controller ControllerAction.start 7
      (act ControllerAction.stop 8 ∷ []) 2 1 good_commit
      (unfold controller in empty_directory-IsSound) (unfold controller in omega arith)
      (unfold run_start controller in refl) (λ e. cc, tt)

succeeded-start_example :
    Called PairLifecycle.linked
      (started controller.backend.join_delay controller.backend.trace)
      controller.backend
      (mutate good probe file_ops controller ControllerAction.start 7).1.backend
succeeded-start_example =
    succeeded-start jbl aura observer probe file_ops controller 7
      (unfold run_start controller in refl)

run_stop : Controller → ControllerActionOutcome
unfolding mutate preflight admitted is_idempotent journalled execute acted attempt
    reduce_backend_result reduce_accepted settle read_pair_configuration file_journal mark_pending
    clear commit native_backend health Actions.stop Actions.stop_fresh Actions.stop_arm
    Actions.stop_receiver Actions.stop_broadcast Actions.stop_exit settled_in shut_aura connect_aura
    stop_aura acquire_fresh_aura_bearer exit_jbl arm_observer execute_observer latch_unknown
    Transaction.begin Transaction.stop Transaction.checked_action
run_stop c = (mutate good probe file_ops c ControllerAction.stop 7).0.outcome

succeeded-stop_example :
    Called PairLifecycle.ready
      (stopped linked.backend.trace)
      linked.backend
      (mutate good probe file_ops linked ControllerAction.stop 7).1.backend
succeeded-stop_example =
    succeeded-stop jbl aura observer probe file_ops linked 7 (unfold run_stop linked in refl)
