-- ===== src/Control/Dispatch.antt =====
-- ControlClient._start_reserved over the in-memory store.
use claudeagentsdk_cloudrun.Prelude.{
  String, ◌≡◌, refl, ap, ◌∙◌, Option, none, some, nat_eq, string_eq, if◌then◌else◌,
}
use claudeagentsdk_cloudrun.Errors.{class_name}
use claudeagentsdk_cloudrun.Exec.{Result, ok, err}
use claudeagentsdk_cloudrun.Dict.{get}
use claudeagentsdk_cloudrun.Models.RunStates.{RunState, state_eq}
use claudeagentsdk_cloudrun.Models.Records.{Time, Run, Session, ExecutionReference}
use claudeagentsdk_cloudrun.Ports.{ExecutionBackend}
use claudeagentsdk_cloudrun.InMemory.State.{Store}
use claudeagentsdk_cloudrun.InMemory.Port.{in_memory}
use claudeagentsdk_cloudrun.InMemory.Runs.{save_execution}
use claudeagentsdk_cloudrun.InMemory.Runs.Ends.{freed, fail_dispatch_lem, home_unique}
use claudeagentsdk_cloudrun.InMemory.Runs.Ends.Written.{written}
use claudeagentsdk_cloudrun.InMemory.Invariant.{IsWf}
use claudeagentsdk_cloudrun.InMemory.Runs.Reservation.{reserve_known, earlier, IsOwned}
use claudeagentsdk_cloudrun.Control.{
  reserve_and_start, user_event, start_reserved, start_if_new, dispatched,
}

-- The run once its execution is known.
abbrev pub started : Run → ExecutionReference → Run
started run execution = record run {
  execution = some execution;
  state = if state_eq.beq run.state RunState.requested then RunState.pending else run.state;
}

module _ (run : Run) (x : Session) (s : Store) where
  -- What is written and said when the backend was asked.
  abbrev pub after_start : Result ExecutionReference → Result Run × Store
  after_start (ok execution) =
      let run' = started run execution in
      (ok run', written s run.id run' run.session_id (record x { updated_at = s.clock }))
  after_start (err e) =
      let run' = record run {
        state = RunState.dispatch_failed;
        error_code = some (class_name e.kind);
      } in
      (err e, written s run.id run' run.session_id (freed x RunState.dispatch_failed s.clock))

  -- What _start_reserved gives for a run that has an execution, and for one that has none.
  abbrev pub IsStarted : {B : Type 0} → ExecutionBackend B → B → Option ExecutionReference → Type 0
  IsStarted backend b (some execution) =
      start_reserved in_memory backend run (s, b) ≡ (ok run, (s, b))
  IsStarted backend b none =
      let (answer, b') = backend.start run.id b in
      start_reserved in_memory backend run (s, b)
      ≡ ((after_start answer).0, ((after_start answer).1, b'))

module _ {B : Type 0} (backend : ExecutionBackend B) (run : Run) (x : Session) (s : Store)
    (inv : IsWf s) (found : get s.runs run.id ≡ some run)
    (lives : get s.sessions run.session_id ≡ some x) where
  save_execution_lem :
      (execution : ExecutionReference)
      → save_execution run.id execution s ≡ after_start run x s (ok execution)
  unfolding save_execution
  save_execution_lem execution = rw (found, lives, inv.session_key run.session_id x lives) refl

  dispatched_lem :
      (answer : Result ExecutionReference) (b : B)
      → dispatched in_memory backend run.id answer (s, b)
        ≡ ((after_start run x s answer).0, ((after_start run x s answer).1, b))
  unfolding dispatched
  dispatched_lem (ok execution) b = rw (save_execution_lem execution) refl
  dispatched_lem (err e) b =
      rw
        (
          fail_dispatch_lem run.id run s inv found (class_name e.kind),
          home_unique run.id run s inv found x lives,
        )
        refl

  start_by_execution :
      (b : B) (o : Option ExecutionReference) → run.execution ≡ o → IsStarted run x s backend b o
  unfolding start_reserved start_if_new
  start_by_execution b (some execution) has =
      ap (λ o. start_if_new in_memory backend run o (s, b)) has
  start_by_execution b none has =
      ap (λ o. start_if_new in_memory backend run o (s, b)) has
      ∙ dispatched_lem (backend.start run.id b).0 (backend.start run.id b).1

  -- Over a well-formed in-memory store, for a run that is stored under its id: one that has an
  -- execution is given back as it is, and no job is started for it. For any other the backend is
  -- asked once: where it answers, the execution is stored and a requested run waits; where it
  -- fails, the run has failed to dispatch, its session's slot is free, and the backend's error
  -- goes through.
  pub start_reserved_lem : (b : B) → IsStarted run x s backend b run.execution
  start_reserved_lem b = start_by_execution b run.execution refl

-- A request that was made before, by the session's user and with the same idempotency key, and
-- whose run has its execution: reserve_and_start gives that run back, whatever the new message and
-- the new run's id, asks the backend for nothing and leaves the store as it was.
pub reserve_and_start_again :
    {B : Type 0} (backend : ExecutionBackend B) (run a : Run) (execution : ExecutionReference)
    (message : String) (now : Time) (s : Store) (b : B)
    → IsOwned run.user_id (get s.sessions run.session_id)
    → earlier run s ≡ some a
    → a.execution ≡ some execution
    → reserve_and_start in_memory backend run message now (s, b) ≡ (ok a, (s, b))
unfolding reserve_and_start start_reserved start_if_new
reserve_and_start_again backend run a execution message now s b owned again has =
    rw (reserve_known run a (user_event run.id now message) s owned again)
      (ap (λ o. start_if_new in_memory backend a o (s, b)) has)
