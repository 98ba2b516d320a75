-- ===== src/Backends/Batch/Jobs.antt =====
-- batch_backend.py: the specification of a job, the settings that CloudBatchBackend checks, and
-- the mapping of a job's state and of exceptions. A job is the name of its state.
use Prim.Native.String.{◌++◌}
use claudeagentsdk_cloudrun.Prelude.{
  ℕ, String, Bool, not, ◌&&◌, ◌||◌, [], ◌∷◌, Option, nat_eq, string_eq, ltb, leb, if◌then◌else◌,
}
use claudeagentsdk_cloudrun.Errors.{
  Error, error, configuration, execution_not_found, execution_permission, execution_quota,
  execution_temporary, validation,
}
use claudeagentsdk_cloudrun.Exec.{Result, ok, err}
use claudeagentsdk_cloudrun.Dict.{Dict}
use claudeagentsdk_cloudrun.Text.{is_empty, length}
use claudeagentsdk_cloudrun.Text.Search.{is_in, has, upper, after_last}
use claudeagentsdk_cloudrun.Models.RunStates.{ExecutionState}
use claudeagentsdk_cloudrun.Backends.Provider.{Fault, code_name, lower_text, Call}

pub record BatchJobSpec : Type 0 where
  pub image : String
  pub machine_type : String
  pub cpu_milli : ℕ
  pub memory_mib : ℕ
  pub timeout_seconds : ℕ
  pub environment : Dict String String
  pub service_account : Option String
  pub task_count : ℕ
  pub parallelism : ℕ
  pub max_retry_count : ℕ

-- A job is what `normalize_batch_job_state` reads of it: the name of its state.
pub record BatchClient (C : Type 0) : Type 0 where
  pub create_job : String → String → BatchJobSpec → Call C (Unit {0})
  pub get_job : String → Call C String
  pub delete_job : String → Call C (Unit {0})

-- The fields that __init__ sets and no method changes.
pub record Settings : Type 0 where
  pub project : String
  pub region : String
  pub job_id_prefix : String
  pub spec : BatchJobSpec

-- s.rstrip("-")
unfoldable pub rstrip_dashes : String → String
rstrip_dashes String.[] = ""
rstrip_dashes (String.◌∷◌ c s) =
    let rest = rstrip_dashes s in
    if string_eq.beq (String.◌∷◌ c "") "-" && is_empty rest then "" else String.◌∷◌ c rest

unfoldable pub new_backend :
    (project region job_id_prefix image machine_type : String)
    → (cpu_milli memory_mib task_timeout_seconds : ℕ) → Option String
    → Dict String String
    → Result Settings
unfolding rstrip_dashes
new_backend project region job_id_prefix image machine_type cpu_milli memory_mib timeout account
      env =
    if is_empty project || is_empty region || is_empty image
    then err (error configuration "project, region, and image are required for Cloud Batch")
    else if is_empty job_id_prefix || ltb 25 (length job_id_prefix)
    then err (error configuration "job_id_prefix must be at most 25 characters")
    else if ltb cpu_milli 1 || ltb memory_mib 1 || not (leb 1 timeout && leb timeout 86400)
    then err (error configuration "invalid Cloud Batch resource limits")
    else ok (record {
      project = project;
      region = region;
      job_id_prefix = rstrip_dashes job_id_prefix;
      spec = record {
        image = image;
        machine_type = machine_type;
        cpu_milli = cpu_milli;
        memory_mib = memory_mib;
        timeout_seconds = timeout;
        environment = env;
        service_account = account;
        task_count = 1;
        parallelism = 1;
        max_retry_count = 0;
      };
    })

unfoldable pub normalize_batch_job_state : String → Result ExecutionState
unfolding upper after_last
normalize_batch_job_state raw_state =
    let state = upper (after_last b'.' raw_state) in
    if is_in ("QUEUED" ∷ "SCHEDULED" ∷ "DELETION_IN_PROGRESS" ∷ "DELETING" ∷ []) state
    then ok ExecutionState.pending
    else if is_in ("RUNNING" ∷ "ASSIGNED" ∷ "STARTING" ∷ []) state
    then ok ExecutionState.running
    else if is_in ("SUCCEEDED" ∷ "SUCCESS" ∷ []) state
    then ok ExecutionState.succeeded
    else if is_in ("FAILED" ∷ "FAILURE" ∷ []) state
    then ok ExecutionState.failed
    else if is_in ("CANCELLED" ∷ "CANCELED" ∷ "DELETED" ∷ "CANCELLATION_IN_PROGRESS" ∷ []) state
    then ok ExecutionState.cancelled
    else err (
        error execution_temporary
          ("unknown Cloud Batch Job state: " ++ (if is_empty state then "<empty>" else state)))

unfoldable pub is_already_exists : Fault → Bool
unfolding has code_name lower_text
is_already_exists fault =
    has (code_name fault) "ALREADY_EXISTS" || has (lower_text fault) "already exists"

unfoldable pub is_not_found : Fault → Bool
unfolding has code_name lower_text
is_not_found fault = has (code_name fault) "NOT_FOUND" || has (lower_text fault) "not found"

unfoldable pub map_batch_error : Fault → String → Error
unfolding has code_name lower_text
map_batch_error fault message =
    let name = code_name fault in
    let text = lower_text fault in
    if has name "NOT_FOUND" || has text "not found" || fault.is_key_error
    then error execution_not_found message
    else if has name "PERMISSION_DENIED" || has text "permission"
    then error execution_permission message
    else if has name "RESOURCE_EXHAUSTED" || has text "quota"
    then error execution_quota message
    else if has name "INVALID_ARGUMENT" || has text "validation" || has text "invalid"
    then error validation message
    else error execution_temporary message
