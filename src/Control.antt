-- ===== src/Control.antt =====
-- cas_hosting_adapter/control_client.py: ControlClient, over any store and any backend. The state
-- is the pair of theirs.
pub mod Reconcile
pub mod Calls
pub mod Feed
pub mod Dispatch
use Prim.Native.String.{◌++◌ as str_append}
use claudeagentsdk_cloudrun.Prelude.{
  ℕ, String, Bool, true, false, not, ◌&&◌, ◌||◌, List, [], ◌∷◌, Option, none, some, Eq, string_eq,
  any, if◌then◌else◌,
}
use claudeagentsdk_cloudrun.Errors.{
  ErrorClass, Error, error, value_error, class_name, execution_not_found, execution_temporary,
}
use claudeagentsdk_cloudrun.Exec.{
  Exec, Result, ok, err, pure, raise, lift, gets, guard, attempt, on_left, on_right, ◌>>=◌, ◌>>◌,
}
use claudeagentsdk_cloudrun.Text.{is_blank}
use claudeagentsdk_cloudrun.Models.RunStates
use claudeagentsdk_cloudrun.Models.RunStates.{RunState, ExecutionState, active, state_eq, requested}
use claudeagentsdk_cloudrun.Models.Json
use claudeagentsdk_cloudrun.Models.Json.{Fields}
use claudeagentsdk_cloudrun.Models.Records.{
  Uuid, Time, ChatEvent, Session, Run, InitialSessionResult, ExecutionReference,
  ReconciliationLease,
}
use claudeagentsdk_cloudrun.Models.Ids.{str, derive_session_id, derive_workspace_id, derive_run_id}
use claudeagentsdk_cloudrun.Models.Titles.{normalize_session_title}
use claudeagentsdk_cloudrun.Ports.{ChatStore, ExecutionBackend}

-- The user's message as the first event of a run.
abbrev pub user_event : Uuid → Time → String → ChatEvent
user_event run_id now content = record {
  id = str_append "user:" (str run_id);
  run_id = run_id;
  sequence = 0;
  type = "user";
  occurred_at = now;
  payload = Json.field "content" (Json.str content) Json.end;
}

abbrev pub new_session : String → String → String → String → Time → Session
new_session id user_id workspace_id title now = record {
  id = id;
  user_id = user_id;
  workspace_id = workspace_id;
  title = title;
  created_at = now;
  updated_at = now;
  active_run_id = none;
  latest_run_state = none;
  claude_session_id = none;
  snapshot = none;
}

abbrev pub new_run : Uuid → Session → String → Time → Run
new_run id session idempotency_key now = record {
  id = id;
  user_id = session.user_id;
  session_id = session.id;
  workspace_id = session.workspace_id;
  idempotency_key = idempotency_key;
  state = requested;
  execution = none;
  claude_session_id = none;
  snapshot = none;
  event_cursor = none;
  created_at = now;
  started_at = none;
  finished_at = none;
  result = none;
  error_code = none;
}

-- The run state that a provider's answer calls for.
unfoldable pub provider_target : ExecutionState → Option RunState
provider_target ExecutionState.cancelled = some RunState.cancelled
provider_target ExecutionState.failed = some RunState.failed
provider_target _ = none

abbrev is_none {ℓ} : {A : Type ℓ} → Option A → Bool
is_none none = true
is_none (some a) = false

abbrev pub has_final : List ChatEvent → Bool
has_final = any (λ e. string_eq.beq e.type "final")

-- A run whose execution succeeded without its commit.
abbrev pub succeeded_target : Run → List ChatEvent → Option RunState
succeeded_target run events =
    if is_none run.snapshot || not (has_final events)
    then some RunState.persistence_failed
    else none

unfoldable pub reconciled_code : RunState → String
reconciled_code RunState.failed = "cloud_run_execution_failed"
reconciled_code RunState.cancelled = "cloud_run_execution_cancelled"
reconciled_code _ = "persistence_failed"

module _ {S B : Type 0} (store : ChatStore S) (backend : ExecutionBackend B) where
  -- except Exception as error: fail_dispatch(…); raise
  unfoldable pub dispatched : Uuid → Result ExecutionReference → Exec (S × B) Run
  dispatched run_id (ok execution) = on_left (store.save_execution run_id execution)
  dispatched run_id (err e) = do on_left (store.fail_dispatch run_id (class_name e.kind)); raise e

  unfoldable pub start_if_new : Run → Option ExecutionReference → Exec (S × B) Run
  unfolding dispatched
  start_if_new reserved (some execution) = pure reserved
  start_if_new reserved none = do
    started ← attempt (on_right (backend.start reserved.id))
    dispatched reserved.id started

  -- _start_reserved
  unfoldable pub start_reserved : Run → Exec (S × B) Run
  unfolding start_if_new
  start_reserved reserved = start_if_new reserved reserved.execution

  unfoldable pub start_session :
      (String → ℕ) → Time → String → String → String → Exec (S × B) InitialSessionResult
  unfolding start_reserved
  start_session sha256 now user_id prompt idempotency_key = do
    guard (not (is_blank prompt)) (error value_error "prompt must not be blank")
    id ← lift (derive_session_id sha256 user_id idempotency_key)
    workspace_id ← lift (derive_workspace_id sha256 user_id idempotency_key)
    title ← lift (normalize_session_title prompt 80)
    run_id ← lift (derive_run_id sha256 user_id idempotency_key)
    let session = new_session id user_id workspace_id title now
    let run = new_run run_id session idempotency_key now
    reserved ← on_left (store.reserve_initial_run session run (user_event run_id now prompt))
    started ← start_reserved reserved.run
    found ← on_left (store.get_session user_id session.id)
    pure (record { session = found; run = started })

  unfoldable pub reserve_and_start : Run → String → Time → Exec (S × B) Run
  unfolding start_reserved
  reserve_and_start run message now = do
    reserved ← on_left (store.reserve_run run (user_event run.id now message))
    start_reserved reserved

  -- What `cancel` does with the lease that it asked for.
  unfoldable pub settle_cancel :
      Uuid → Option String → Option ReconciliationLease → Exec (S × B) Run
  settle_cancel run_id error_code none = on_left (store.get_run_for_job run_id)
  settle_cancel run_id error_code (some lease) =
      on_left (store.reconcile_terminal run_id "control-cancel" RunState.cancelled error_code)

  unfoldable pub cancel_now : Uuid → Option String → Exec (S × B) Run
  unfolding settle_cancel
  cancel_now run_id error_code = do
    lease ← on_left (store.acquire_reconciliation_lease run_id "control-cancel")
    settle_cancel run_id error_code lease

  abbrev is_not_found : ErrorClass → Bool
  is_not_found execution_not_found = true
  is_not_found _ = false

  abbrev is_cancelled : ExecutionState → Bool
  is_cancelled ExecutionState.cancelled = true
  is_cancelled _ = false

  unfoldable pub after_provider : Uuid → Result ExecutionState → Exec (S × B) Run
  unfolding cancel_now
  after_provider run_id (err e) =
      if is_not_found e.kind
      then cancel_now run_id (some "execution_cancelled_after_deletion")
      else raise e
  after_provider run_id (ok state) =
      if is_cancelled state then cancel_now run_id none else on_left (store.get_run_for_job run_id)

  unfoldable pub cancel_execution : Uuid → Option ExecutionReference → Exec (S × B) Run
  unfolding after_provider
  cancel_execution run_id none = on_left (store.get_run_for_job run_id)
  cancel_execution run_id (some execution) = do
    answer ← attempt (on_right (backend.cancel execution))
    after_provider run_id answer

  unfoldable pub cancel : Uuid → Exec (S × B) Run
  unfolding cancel_execution
  cancel run_id = do
    run ← on_left (store.request_cancel run_id)
    cancel_execution run_id run.execution

  -- The end of `reconcile`, with the state to write.
  unfoldable pub settle : Uuid → Run → String → Option RunState → Exec (S × B) Run
  settle run_id run holder none = do
    on_left (store.release_reconciliation_lease run_id holder)
    pure run
  settle run_id run holder (some target) = do
    result ← on_left (store.reconcile_terminal run_id holder target (some (reconciled_code target)))
    on_left (store.release_reconciliation_lease run_id holder)
    pure result

  abbrev lost_state : Run → RunState
  lost_state run =
      if state_eq.beq run.state RunState.cancel_requested
      then RunState.cancelled
      else RunState.failed

  abbrev lost_code : Run → String
  lost_code run =
      if state_eq.beq run.state RunState.cancel_requested
      then "execution_cancelled_after_deletion"
      else str_append backend.backend_name "_execution_not_found"

  -- The `except` clauses of `reconcile`.
  unfoldable pub settle_error : Uuid → Run → String → Error → ErrorClass → Exec (S × B) Run
  settle_error run_id run holder e execution_temporary = do
    on_left (store.release_reconciliation_lease run_id holder)
    pure run
  settle_error run_id run holder e execution_not_found = do
    result ←
        on_left (store.reconcile_terminal run_id holder (lost_state run) (some (lost_code run)))
    on_left (store.release_reconciliation_lease run_id holder)
    pure result
  settle_error run_id run holder e _ = do
    on_left (store.release_reconciliation_lease run_id holder)
    raise e

  unfoldable pub settle_status : Uuid → Run → String → Result ExecutionState → Exec (S × B) Run
  unfolding settle settle_error provider_target
  settle_status run_id run holder (err e) = settle_error run_id run holder e e.kind
  settle_status run_id run holder (ok ExecutionState.succeeded) = do
    events ← on_left (store.list_events run_id none)
    settle run_id run holder (succeeded_target run events)
  settle_status run_id run holder (ok status) = settle run_id run holder (provider_target status)

  unfoldable pub reconcile_with :
      Uuid → Run → ExecutionReference → String → Option ReconciliationLease → Exec (S × B) Run
  unfolding settle_status
  reconcile_with run_id run execution holder none = pure run
  reconcile_with run_id run execution holder (some lease) = do
    status ← attempt (on_right (backend.get execution))
    settle_status run_id run holder status

  unfoldable pub reconcile_in : Uuid → Run → Option ExecutionReference → String → Exec (S × B) Run
  unfolding reconcile_with
  reconcile_in run_id run none holder = pure run
  reconcile_in run_id run (some execution) holder = if not (active run.state) then pure run else do
    lease ← on_left (store.acquire_reconciliation_lease run_id holder)
    reconcile_with run_id run execution holder lease

  unfoldable pub reconcile : Uuid → String → Exec (S × B) Run
  unfolding reconcile_in
  reconcile run_id holder = do
    run ← on_left (store.get_run_for_job run_id)
    reconcile_in run_id run run.execution holder
