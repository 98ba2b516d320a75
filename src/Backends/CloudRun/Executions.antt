-- ===== src/Backends/CloudRun/Executions.antt =====
-- cloud_run_backend.py: what the code reads of operations and executions, the mapping of conditions
-- and of exceptions, and the search for an operation's execution.
use Prim.Native.String.{◌++◌ as str_append}
use claudeagentsdk_cloudrun.Prelude.{
  String, Bool, not, ◌&&◌, ◌||◌, List, [], ◌∷◌, Option, none, some, any, string_eq, option_eq,
  if◌then◌else◌,
}
use claudeagentsdk_cloudrun.Errors.{
  Error, error, configuration, execution_not_found, execution_permission, execution_quota,
  execution_temporary, validation,
}
use claudeagentsdk_cloudrun.Exec.{Result, ok, err}
use claudeagentsdk_cloudrun.Dict.{Dict, get}
use claudeagentsdk_cloudrun.Text.{is_empty}
use claudeagentsdk_cloudrun.Text.Search.{has, begins, lower}
use claudeagentsdk_cloudrun.Models.Ids.{str}
use claudeagentsdk_cloudrun.Models.RunStates.{ExecutionState}
use claudeagentsdk_cloudrun.Models.Records.{Uuid}
use claudeagentsdk_cloudrun.Backends.Provider.{
  Fault, code_name, lower_text, Answer, returned, failed, Call,
}

-- What run_job returns, by what `start` reads of it: metadata.target and operation.name, each "" where it is absent.
pub record Operation : Type 0 where
  pub target : String
  pub operation_name : String

-- operation.done, and whether operation.error.code is there and not 0
pub record OperationState : Type 0 where
  pub done : Bool
  pub has_error : Bool

-- condition.type_, condition.state.name, and the name or the text of condition.reason
pub record Condition : Type 0 where
  pub type : String
  pub state : String
  pub reason : String

-- An execution of a list: its annotations and the environments of its containers.
pub record Execution : Type 0 where
  pub name : String
  pub annotations : Dict String String
  pub containers : List (List (String × String))

-- A list of executions comes page by page, and may break off.
pub data Listing : Type 0 where
  finished : Listing
  broken : Fault → Listing
  item : Execution → Listing → Listing

pub record Clients (C : Type 0) : Type 0 where
  -- the job and the value of RUN_ID
  pub run_job : String → String → Call C Operation
  -- operation.result().name
  pub result : Operation → Call C String
  -- `none` where the client has no such method
  pub list_executions : Option (String → C → Listing × C)
  pub get_operation : String → Call C OperationState
  pub cancel_operation : String → Call C (Unit {0})
  pub get_execution : String → Call C (List Condition)
  pub cancel_execution : String → Call C (Unit {0})

-- __init__: the full name of the job
unfoldable pub new_backend : (project region job_name : String) → Result String
unfolding begins
new_backend project region job_name =
    if is_empty project || is_empty region || is_empty job_name
    then err (error configuration "project, region, and job_name are required")
    else (let expected =
          str_append "projects/"
            (str_append project (str_append "/locations/" (str_append region "/jobs/"))) in
        let job = if begins job_name "projects/" then job_name else str_append expected job_name in
        if not (begins job expected)
        then err (error configuration "job_name must match configured project and region")
        else ok job)

unfoldable pub map_execution_error : Fault → String → Error
unfolding has code_name lower_text
map_execution_error fault message =
    let name = code_name fault in
    let text = lower_text fault in
    if has name "NOT_FOUND" || has text "not found"
    then error execution_not_found message
    else if has name "PERMISSION_DENIED" || has text "permission"
    then error execution_permission message
    else if has name "RESOURCE_EXHAUSTED" || has text "quota"
    then error execution_quota message
    else if has name "INVALID_ARGUMENT" || has text "region" || has text "invalid"
    then error validation message
    else error execution_temporary message

-- {condition.type_: condition for condition in conditions}.get(type): the last one counts.
unfoldable pub last_of : String → List Condition → Option Condition
last_of type [] = none
last_of type (condition ∷ rest) = elim (last_of type rest) [
  | some later ↦ some later
  | none ↦ if string_eq.beq condition.type type then some condition else none
]

-- What is left to see where the condition "Completed" does not decide.
abbrev by_started : Option Condition → ExecutionState
by_started none = ExecutionState.pending
by_started (some started) =
    if string_eq.beq started.state "CONDITION_SUCCEEDED"
    then ExecutionState.running
    else ExecutionState.pending

abbrev by_completed : Option Condition → Option Condition → ExecutionState
by_completed none started = by_started started
by_completed (some completed) started =
    if string_eq.beq completed.state "CONDITION_SUCCEEDED"
    then ExecutionState.succeeded
    else if string_eq.beq completed.state "CONDITION_FAILED"
    then (if has (lower completed.reason) "cancel"
        then ExecutionState.cancelled
        else ExecutionState.failed)
    else by_started started

unfoldable pub normalize_execution_conditions : List Condition → ExecutionState
unfolding last_of has lower
normalize_execution_conditions conditions =
    by_completed (last_of "Completed" conditions) (last_of "Started" conditions)

unfoldable pub matches : String → Uuid → Execution → Bool
matches operation_id run_id execution =
    option_eq.beq (get execution.annotations "run.googleapis.com/operation-id") (some operation_id)
    || any (any (λ env. string_eq.beq env.0 "RUN_ID" && string_eq.beq env.1 (str run_id)))
        execution.containers

-- The first execution of a list that matches, or the exception that came before it.
unfoldable pub search_listing : String → Uuid → Listing → Answer (Option String)
unfolding matches
search_listing operation_id run_id finished = returned none
search_listing operation_id run_id (broken fault) = failed fault
search_listing operation_id run_id (item execution rest) =
    if matches operation_id run_id execution
    then returned (some execution.name)
    else search_listing operation_id run_id rest
