-- ===== src/Witnesses/Services.antt =====
-- The control plane, the job runner, the lifecycle and the retry.
use claudeagentsdk_cloudrun.Prelude.{
  List, ℕ, ◌+◌, String, ◌≡◌, ◌≢◌, refl, true, false, none, some, [], ◌∷◌, ◌++◌, Option,
  if◌then◌else◌, nat_eq, string_eq,
}
use claudeagentsdk_cloudrun.Errors.{Error, error, agent_error, workspace_too_large, class_name}
use claudeagentsdk_cloudrun.Exec.{Exec, ok, err}
use claudeagentsdk_cloudrun.Dict.{Dict, get, put}
use claudeagentsdk_cloudrun.Text.{is_blank, decimal, digits, strip, lstrip, rstrip, is_space}
use claudeagentsdk_cloudrun.Models.RunStates.{RunState, ExecutionState, value}
use claudeagentsdk_cloudrun.Models.Records.{Uuid, ChatEvent, Run, Session, ExecutionReference}
use claudeagentsdk_cloudrun.InMemory.State.{Store, or_nil}
use claudeagentsdk_cloudrun.InMemory.Port.{in_memory}
use claudeagentsdk_cloudrun.InMemory.Sessions.{create_session, put_session}
use claudeagentsdk_cloudrun.InMemory.Runs.{save_execution}
use claudeagentsdk_cloudrun.InMemory.Runs.Reserve.{reserve_run, reserve_in}
use claudeagentsdk_cloudrun.InMemory.Leases.{blocks}
use claudeagentsdk_cloudrun.InMemory.Steps.{Step, next}
use claudeagentsdk_cloudrun.InMemory.Invariant.{IsWf}
use claudeagentsdk_cloudrun.InMemory.Invariant.Reachable.{Reach-IsWf}
use claudeagentsdk_cloudrun.Control.{start_reserved, reconcile}
use claudeagentsdk_cloudrun.Prelude.Sorting.{sort, insort}
use claudeagentsdk_cloudrun.Models.Questions.{contains}
use claudeagentsdk_cloudrun.InMemory.Events.{list_events, event_lt}
use claudeagentsdk_cloudrun.Control.Feed.{
  each, deliver, callback_failed, subscribe_from_cursor, subscribe_with,
}
use claudeagentsdk_cloudrun.Control.Feed.Catchup.{subscribe_from_cursor_lem}
use claudeagentsdk_cloudrun.InMemory.Runs.Reservation.{earlier}
use claudeagentsdk_cloudrun.Control.{reserve_and_start}
use claudeagentsdk_cloudrun.Control.Dispatch.{
  reserve_and_start_again, start_reserved_lem, after_start,
}
use claudeagentsdk_cloudrun.Control.Reconcile.{reconcile_lem, outcome}
use claudeagentsdk_cloudrun.JobRunner.{JobInvocation, Runner, claim}
use claudeagentsdk_cloudrun.JobRunner.Claims.{claim_lem}
use claudeagentsdk_cloudrun.JobRunner.Loop.{ExecutionLimits, Round, Waited, loop}
use claudeagentsdk_cloudrun.JobRunner.Loop.Ends.{IsLettingGo, loop_ends}
use claudeagentsdk_cloudrun.Lifecycle.{run, SnapshotReference, text_field}
use claudeagentsdk_cloudrun.Lifecycle.Events.{run_lem, recorded, event_of}
use claudeagentsdk_cloudrun.Retry.{Outcome, raised, Attribute, Trace, retry_safe}
use claudeagentsdk_cloudrun.Retry.Attempts.{retry_safe_lem, IsRetried}
use claudeagentsdk_cloudrun.Fakes.Executions.{
  Executions, in_memory_backend, new_reference, start, state_of,
}
use claudeagentsdk_cloudrun.Witnesses.Data.{
  run_of, event_named, run_7, running_7, with_run, with_owner, with_run-IsWf, run_reached,
}

abbrev no_executions : Executions
no_executions = record { references_by_run = []; states = [] }

abbrev execution : ExecutionReference
execution = new_reference 7 0

abbrev home : Session
home = record {
  id = "s";
  user_id = "u";
  workspace_id = "w";
  title = "hello";
  created_at = 1000;
  updated_at = 1000;
  active_run_id = some 7;
  latest_run_state = some "requested";
  claude_session_id = none;
  snapshot = none;
}

with_run-found : (get with_run.runs 7 ≡ some run_7) × (get with_run.sessions "s" ≡ some home)
unfolding reserve_run reserve_in create_session put_session get put value
with_run-found = (refl, refl)

-- The backend starts its first execution for the run.
start_reserved_lem_example :
    start_reserved in_memory in_memory_backend run_7 (with_run, no_executions) ≡ (
      let (answer, b) = start 7 no_executions in
      ((after_start run_7 home with_run answer).0, ((after_start run_7 home with_run answer).1, b)))
start_reserved_lem_example =
    start_reserved_lem in_memory_backend run_7 home with_run with_run-IsWf with_run-found.0
      with_run-found.1 no_executions

abbrev dispatched_store : Store
dispatched_store = (save_execution 7 execution with_run).1

dispatched-IsWf : IsWf dispatched_store
dispatched-IsWf = Reach-IsWf (next run_reached (Step.save_execution 7 execution refl))

abbrev dispatched_run : Run
dispatched_run = record run_7 { execution = some execution; state = RunState.pending }

-- The provider says that the execution failed.
abbrev failed_executions : Executions
failed_executions = record {
  references_by_run = (7, execution) ∷ [];
  states = (execution.name, ExecutionState.failed) ∷ [];
}

abbrev log_7 : Dict String ChatEvent
log_7 = ("e", event_named "e") ∷ []

dispatched-found :
    (get dispatched_store.runs 7 ≡ some dispatched_run)
    × (get dispatched_store.sessions "s" ≡ some home)
    × (get dispatched_store.events 7 ≡ some log_7)
    × (blocks (get dispatched_store.leases 7) "h" dispatched_store.clock ≡ false)
unfolding save_execution reserve_run reserve_in create_session put_session get put value
dispatched-found = (refl, refl, refl, refl)

has_failed : state_of execution failed_executions ≡ (ok ExecutionState.failed, failed_executions)
unfolding state_of get decimal digits
has_failed = refl

reconcile_lem_example :
    reconcile in_memory in_memory_backend 7 "h" (dispatched_store, failed_executions)
    ≡ outcome 7 dispatched_run "h" dispatched_store home failed_executions
        (ok ExecutionState.failed)
        (some (RunState.failed, "cloud_run_execution_failed"))
reconcile_lem_example =
    reconcile_lem in_memory_backend 7 dispatched_run execution "h" dispatched_store dispatched-IsWf
      dispatched-found.0 home dispatched-found.1 refl log_7 failed_executions failed_executions
      (ok ExecutionState.failed) dispatched-found.2 refl dispatched-found.3 has_failed

abbrev job_1 : JobInvocation
job_1 = record { run_id = 7; execution_identity = "job-1" }

claim_lem_example : claim in_memory job_1 with_run ≡ (
  ok (some running_7),
  record with_run { owners = put with_run.owners 7 "job-1"; runs = put with_run.runs 7 running_7 },
)
unfolding reserve_run reserve_in create_session put_session get put
claim_lem_example = claim_lem job_1 run_7 with_run with_run-found.0

-- A stream that never says anything; the second round begins after the run's time.
abbrev silent : ℕ → Round Store
silent elapsed = record {
  shutdown = false;
  elapsed = elapsed;
  others = λ s. s;
  arrival = record { answer = none; when_cancelled = some Waited.timed_out };
  closing = some (ok tt);
  now = 1000;
}

silent-IsLettingGo : (elapsed : ℕ) → IsLettingGo (silent elapsed)
silent-IsLettingGo elapsed = record { closes = λ h. cc; cancels = λ h. cc }

abbrev one_second : ExecutionLimits
one_second = record { max_runtime = 1_000_000; idle_timeout = 600_000 }

abbrev new_runner : Runner
new_runner = record { shutdown_requested = false; claude_session_id = none }

loop_ends_example :
    loop in_memory job_1
      (some one_second)
      (silent 0 ∷ silent 1_000_000 ∷ [])
      (with_owner, new_runner)
    ≢ none
loop_ends_example =
    loop_ends in_memory job_1 one_second (silent 0 ∷ silent 1_000_000 ∷ []) (with_owner, new_runner)
      (silent-IsLettingGo 0, (silent-IsLettingGo 1_000_000, tt)) refl

-- An agent that says "hi" and a snapshot store that is full.
abbrev greeting : Exec ℕ (Option String)
greeting n = (ok (some "hi"), n + 1)

abbrev full : Uuid → Exec ℕ SnapshotReference
full r n = (err (error workspace_too_large "full"), n + 1)

hello_said : is_blank "hello" ≡ false
unfolding strip lstrip rstrip is_space
hello_said = refl

run_lem_example :
    let (result, ((after, log), n)) = run (recorded greeting (some full)) 7 "hello" (0, []) in
    (result ≡ err (error workspace_too_large "full"))
    × (log
        ≡ event_of 7 0 "run_started" (text_field "message" "hello")
          ∷ event_of 7 1 "agent_message" (text_field "text" "hi")
          ∷ event_of 7 2 "persistence_failed"
              (text_field "error_type" (class_name workspace_too_large))
          ∷ [])
run_lem_example = run_lem 7 "hello" 0 hello_said greeting (some full)

-- An operation that the network always breaks.
abbrev broken : ℕ → Outcome ℕ × ℕ
broken n = (
  raised (record { is_os_error = true; status_code = Attribute.absent; code = Attribute.absent }),
  n + 1,
)

abbrev untried : Trace ℕ
untried = record { world = 0; calls = 0; sleeps = []; random = λ n. 500 }

retry_safe_lem_example :
    IsRetried broken 2 0 untried (retry_safe broken untried).1 (retry_safe broken untried).0
retry_safe_lem_example = retry_safe_lem broken untried

-- A client that keeps the ids of the events it is called with, and wants none of "x".
abbrev noting : ChatEvent → Exec (List String) (Unit {0})
noting e heard =
    (if string_eq.beq e.id "x" then err (error agent_error "x") else ok tt, e.id ∷ heard)

caught_up : list_events 7 none with_run ≡ (ok (event_named "e" ∷ []), with_run)
unfolding list_events sort insort reserve_run reserve_in create_session put_session get put value
caught_up = refl

subscribe_from_cursor_lem_example :
    let called = each noting (sort event_lt (event_named "e" ∷ [])) [] in
    let after =
      subscribe_from_cursor noting in_memory
        (subscribe_with 3)
        7
        none
        (with_run, ("old" ∷ [], [])) in
    (after.1.1.1 ≡ called.1)
    × (called.0 ≡ ok tt
        → (after.0 ≡ ok tt)
          × (after.1.0 ≡ record with_run {
            subscriptions =
                put with_run.subscriptions 7 (or_nil (get with_run.subscriptions 7) ++ 3 ∷ []);
          })
          × ((e : ChatEvent)
              → contains ("e" ∷ []) e.id ≡ true
              → deliver noting e after.1.1 ≡ (ok tt, after.1.1)))
    × ((e : Error) → called.0 ≡ err e → (after.0 ≡ err callback_failed) × (after.1.0 ≡ with_run))
subscribe_from_cursor_lem_example =
    subscribe_from_cursor_lem noting 3 7 none (event_named "e" ∷ []) with_run ("old" ∷ []) []
      caught_up refl

dispatched_known : earlier (run_of 8 "k" RunState.requested) dispatched_store ≡ some dispatched_run
unfolding save_execution reserve_run reserve_in create_session put_session get put value
dispatched_known = refl

-- The request of run 7 once more, with an id of its own.
reserve_and_start_again_example :
    reserve_and_start in_memory in_memory_backend
      (run_of 8 "k" RunState.requested)
      "hi"
      2000
      (dispatched_store, failed_executions)
    ≡ (ok dispatched_run, (dispatched_store, failed_executions))
unfolding save_execution reserve_run reserve_in create_session put_session get put value
reserve_and_start_again_example =
    reserve_and_start_again in_memory_backend (run_of 8 "k" RunState.requested) dispatched_run
      execution "hi" 2000 dispatched_store failed_executions refl dispatched_known refl
