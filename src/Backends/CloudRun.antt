-- ===== src/Backends/CloudRun.antt =====
-- cas_hosting_adapter/cloud_run_backend.py: CloudRunJobsBackend over the clients of Cloud Run's
-- jobs, operations and executions.
pub mod Executions
use Prim.Native.String.{◌++◌ as str_append}
use claudeagentsdk_cloudrun.Prelude.{
  ℕ, zero, suc, String, Bool, true, false, not, ◌&&◌, ◌||◌, List, [], ◌∷◌, Option, none, some, any,
  string_eq, option_eq, if◌then◌else◌,
}
use claudeagentsdk_cloudrun.Errors.{
  Error, ErrorClass, error, configuration, execution_not_found, execution_permission,
  execution_quota, execution_temporary, validation,
}
use claudeagentsdk_cloudrun.Exec.{Exec, Result, ok, err, pure, raise, guard, attempt, ◌>>=◌, ◌>>◌}
use claudeagentsdk_cloudrun.Dict.{Dict, get}
use claudeagentsdk_cloudrun.Text.{is_empty}
use claudeagentsdk_cloudrun.Text.Search.{has, begins, lower, after_last}
use claudeagentsdk_cloudrun.Models.Ids.{str}
use claudeagentsdk_cloudrun.Models.RunStates.{ExecutionState}
use claudeagentsdk_cloudrun.Models.Records.{Uuid, ExecutionReference}
use claudeagentsdk_cloudrun.Ports.{ExecutionBackend}
use claudeagentsdk_cloudrun.Fakes.Executions.{has_ended}
use claudeagentsdk_cloudrun.Backends.Provider.{
  Fault, fault_of, code_name, lower_text, Answer, returned, failed, Call,
}
use claudeagentsdk_cloudrun.Backends.CloudRun.Executions.{
  Operation, OperationState, Condition, Execution, Listing, Clients, new_backend,
  map_execution_error, last_of, normalize_execution_conditions, search_listing,
}

module _ {C : Type 0} (client : Clients C) (job : String) where
  -- A call whose exception is caught.
  abbrev caught : {A : Type 0} → Call C A → Exec C (Answer A)
  caught call c = let (answer, c') = call c in (ok answer, c')

  abbrev reference_to : String → Uuid → ExecutionReference
  reference_to name run_id = record {
    backend = "cloud-run-jobs";
    name = name;
    identity = some (str run_id);
  }

  abbrev searched : Exec C (Option String) → Answer (Option String) → Exec C (Option String)
  searched again (failed fault) =
      raise (map_execution_error fault "Cloud Run Execution list failed")
  searched again (returned (some name)) = pure (some name)
  searched again (returned none) = again

  -- The rounds of the loop of _find_execution_for_operation.
  unfoldable pub find_in_rounds :
      (String → C → Listing × C) → String → Uuid → ℕ → Exec C (Option String)
  unfolding search_listing map_execution_error
  find_in_rounds list_executions operation_id run_id zero = pure none
  find_in_rounds list_executions operation_id run_id (suc rounds) = do
    let again = find_in_rounds list_executions operation_id run_id rounds
    answer ← λ c.
        (let (listing, c') = list_executions job c in
          (ok (search_listing operation_id run_id listing), c'))
    searched again answer

  unfoldable pub find_execution : String → Uuid → Exec C (Option String)
  unfolding find_in_rounds after_last
  find_execution operation_name run_id = elim client.list_executions [
    | none ↦ pure none
    | some list_executions ↦
        find_in_rounds list_executions (after_last b'/' operation_name) run_id 10
  ]

  abbrev start_failed : Fault → Exec C ExecutionReference
  start_failed fault = raise (map_execution_error fault "Cloud Run Job start failed")

  -- The execution of the operation, or the operation itself where none was found.
  settle_found : Uuid → String → Result (Option String) → Exec C ExecutionReference
  unfolding map_execution_error fault_of
  settle_found run_id operation_name (err e) = start_failed (fault_of e)
  settle_found run_id operation_name (ok (some name)) = pure (reference_to name run_id)
  settle_found run_id operation_name (ok none) = pure (reference_to operation_name run_id)

  settle_result : Uuid → Answer String → Exec C ExecutionReference
  unfolding map_execution_error
  settle_result run_id (failed fault) = start_failed fault
  settle_result run_id (returned name) = pure (reference_to name run_id)

  -- What `start` makes of the answer of run_job.
  unfoldable pub resolve : Uuid → Answer Operation → Exec C ExecutionReference
  unfolding find_execution has settle_found settle_result map_execution_error
  resolve run_id (failed fault) = start_failed fault
  resolve run_id (returned operation) =
      if has operation.target "/executions/"
      then pure (reference_to operation.target run_id)
      else if has operation.operation_name "/operations/"
      then (do
        execution ← attempt (find_execution operation.operation_name run_id)
        settle_found run_id operation.operation_name execution)
      else (do execution ← caught (client.result operation); settle_result run_id execution)

  unfoldable pub start : Uuid → Exec C ExecutionReference
  unfolding resolve
  start run_id = do operation ← caught (client.run_job job (str run_id)); resolve run_id operation

  -- isinstance(error, ExecutionTemporaryError)
  abbrev is_temporary : ErrorClass → Bool
  is_temporary execution_temporary = true
  is_temporary _ = false

  -- The callback on a dispatch that may have left an execution behind; its exception wins.
  abbrev orphaned :
      Option (Uuid → Exec C (Unit {0}))
      → Uuid
      → Result ExecutionReference
      → Exec C ExecutionReference
  orphaned callback run_id (ok reference) = pure reference
  orphaned none run_id (err e) = raise e
  orphaned (some call) run_id (err e) =
      if is_temporary e.kind then (do call run_id; raise e) else raise e

  unfoldable pub dispatch_once :
      Uuid
      → Option ExecutionReference
      → Option (Uuid → Exec C (Unit {0}))
      → Exec C ExecutionReference
  unfolding start
  dispatch_once run_id (some existing) callback = pure existing
  dispatch_once run_id none callback = do
    started ← attempt (start run_id)
    orphaned callback run_id started

  unfoldable pub validate_reference : ExecutionReference → Exec C (Unit {0})
  validate_reference reference = guard (string_eq.beq reference.backend "cloud-run-jobs") (
      error validation "Cloud Run Jobs backend received an execution reference for another backend")

  abbrev operation_state : Answer OperationState → Exec C ExecutionState
  operation_state (failed fault) =
      raise (map_execution_error fault "Cloud Run Execution get failed")
  operation_state (returned operation) = pure (
      if not operation.done
      then ExecutionState.pending
      else if operation.has_error
      then ExecutionState.failed
      else ExecutionState.succeeded)

  abbrev execution_state : Answer (List Condition) → Exec C ExecutionState
  execution_state (failed fault) =
      raise (map_execution_error fault "Cloud Run Execution get failed")
  execution_state (returned conditions) = pure (normalize_execution_conditions conditions)

  unfoldable pub state_of : ExecutionReference → Exec C ExecutionState
  unfolding validate_reference has map_execution_error normalize_execution_conditions
  state_of reference = do
    validate_reference reference
    if has reference.name "/operations/"
        then (do
          operation ← caught (client.get_operation reference.name)
          operation_state operation)
        else (do
          conditions ← caught (client.get_execution reference.name)
          execution_state conditions)

  abbrev cancel_answer : String → Answer (Unit {0}) → Exec C ExecutionState
  cancel_answer message (failed fault) = raise (map_execution_error fault message)
  cancel_answer message (returned _) = pure ExecutionState.cancelled

  unfoldable pub cancel : ExecutionReference → Exec C ExecutionState
  unfolding validate_reference state_of has map_execution_error
  cancel reference = do
    validate_reference reference
    if has reference.name "/operations/"
        then (do
          answer ← caught (client.cancel_operation reference.name)
          cancel_answer "Cloud Run Job cancel failed" answer)
        else (do
          state ← state_of reference
          if has_ended state then pure state else (do
            answer ← caught (client.cancel_execution reference.name)
            cancel_answer "Cloud Run Execution cancel failed" answer))

  abbrev pub cloud_run_backend : ExecutionBackend C
  cloud_run_backend = record {
    backend_name = "cloud_run";
    start = start;
    get = state_of;
    cancel = cancel;
  }
