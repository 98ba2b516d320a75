-- ===== src/Backends/Batch.antt =====
-- cas_hosting_adapter/batch_backend.py: CloudBatchBackend over any BatchClient, the states and the
-- exceptions of Cloud Batch. What GoogleCloudBatchClient makes of a BatchJobSpec is the provider's.
pub mod Jobs
pub mod Restarts
pub mod Names
use Prim.Native.String.{◌++◌}
use claudeagentsdk_cloudrun.Prelude.{
  ℕ, ◌+◌, String, Bool, true, false, not, ◌&&◌, ◌||◌, List, [], ◌∷◌, Option, none, some, nat_eq,
  string_eq, ltb, leb, if◌then◌else◌,
}
use claudeagentsdk_cloudrun.Errors.{
  Error, error, configuration, execution_not_found, execution_permission, execution_quota,
  execution_temporary, validation,
}
use claudeagentsdk_cloudrun.Exec.{
  Exec, Result, ok, err, pure, raise, lift, gets, guard, ◌>>=◌, ◌>>◌,
}
use claudeagentsdk_cloudrun.Dict.{Dict, get, put}
use claudeagentsdk_cloudrun.Text.{is_empty, length, take}
use claudeagentsdk_cloudrun.Text.Search.{is_in, has, upper, after_last}
use claudeagentsdk_cloudrun.Models.Ids.{str, hex}
use claudeagentsdk_cloudrun.Models.RunStates.{ExecutionState}
use claudeagentsdk_cloudrun.Models.Records.{Uuid, ExecutionReference}
use claudeagentsdk_cloudrun.Fakes.Executions.{has_ended}
use claudeagentsdk_cloudrun.Ports.{ExecutionBackend}
use claudeagentsdk_cloudrun.Backends.Provider.{
  Fault, fault_of, code_name, lower_text, Answer, returned, failed, Call, Memory, ask, remember,
  mark_cancelled,
}
use claudeagentsdk_cloudrun.Backends.Batch.Jobs.{
  BatchJobSpec, BatchClient, Settings, rstrip_dashes, new_backend, normalize_batch_job_state,
  is_already_exists, is_not_found, map_batch_error,
}

module _ {C : Type 0} (client : BatchClient C) (self : Settings) where
  abbrev pub parent : String
  parent = "projects/" ++ (self.project ++ ("/locations/" ++ self.region))

  unfoldable pub job_id_for_run : Uuid → String
  unfolding hex
  job_id_for_run run_id = take 63 (self.job_id_prefix ++ ("-" ++ hex 32 run_id))

  unfoldable pub job_name_for_run : Uuid → String
  unfolding job_id_for_run
  job_name_for_run run_id = parent ++ ("/jobs/" ++ job_id_for_run run_id)

  abbrev pub spec_for_run : Uuid → BatchJobSpec
  spec_for_run run_id = record self.spec {
    environment =
        put (put self.spec.environment "RUN_ID" (str run_id)) "CLOUD_RUN_EXECUTION"
          (job_name_for_run run_id);
  }

  abbrev pub reference_for_run : Uuid → ExecutionReference
  reference_for_run run_id = record {
    backend = "cloud-batch";
    name = job_name_for_run run_id;
    identity = some (str run_id);
  }

  -- The job that is there is looked up; it may not be readable.
  unfoldable pub looked_up : Answer String → Exec (Memory × C) (Unit {0})
  unfolding map_batch_error
  looked_up (returned state) = pure tt
  looked_up (failed fault) = raise (map_batch_error fault "Cloud Batch existing Job lookup failed")

  -- What `start` does about the answer of create_job.
  unfoldable pub created : Uuid → Answer (Unit {0}) → Exec (Memory × C) (Unit {0})
  unfolding looked_up map_batch_error is_already_exists job_name_for_run
  created run_id (returned _) = pure tt
  created run_id (failed fault) =
      if not (is_already_exists fault)
      then raise (map_batch_error fault "Cloud Batch Job start failed")
      else do found ← ask (client.get_job (job_name_for_run run_id)); looked_up found

  unfoldable pub use_or_create :
      Uuid → Option ExecutionReference → Exec (Memory × C) ExecutionReference
  unfolding created job_id_for_run
  use_or_create run_id (some existing) = pure existing
  use_or_create run_id none = do
    answer ← ask (client.create_job parent (job_id_for_run run_id) (spec_for_run run_id))
    created run_id answer
    remember run_id (reference_for_run run_id)
    pure (reference_for_run run_id)

  unfoldable pub start : Uuid → Exec (Memory × C) ExecutionReference
  unfolding use_or_create
  start run_id = do
    existing ← gets (λ p. get p.0.references_by_run run_id)
    use_or_create run_id existing

  unfoldable pub validate_reference : ExecutionReference → Exec (Memory × C) (Unit {0})
  validate_reference reference =
      guard (string_eq.beq reference.backend "cloud-batch")
        (error validation "Cloud Batch backend received an execution reference for another backend")

  -- `get` catches what get_job raises and what the state's mapping raises.
  unfoldable pub read_state : Result ExecutionState → Exec (Memory × C) ExecutionState
  unfolding map_batch_error fault_of
  read_state (ok state) = pure state
  read_state (err e) = raise (map_batch_error (fault_of e) "Cloud Batch Job get failed")

  unfoldable pub observed : Answer String → Exec (Memory × C) ExecutionState
  unfolding map_batch_error normalize_batch_job_state read_state
  observed (returned raw_state) = read_state (normalize_batch_job_state raw_state)
  observed (failed fault) = raise (map_batch_error fault "Cloud Batch Job get failed")

  unfoldable pub state_of : ExecutionReference → Exec (Memory × C) ExecutionState
  unfolding validate_reference observed
  state_of reference = do
    validate_reference reference
    over ← gets (λ p. is_in p.0.cancelled reference.name)
    if over
        then pure ExecutionState.cancelled
        else do answer ← ask (client.get_job reference.name); observed answer

  unfoldable pub deleted : ExecutionReference → Answer (Unit {0}) → Exec (Memory × C) ExecutionState
  unfolding map_batch_error is_not_found
  deleted reference (returned _) = do mark_cancelled reference.name; pure ExecutionState.cancelled
  deleted reference (failed fault) =
      if not (is_not_found fault)
      then raise (map_batch_error fault "Cloud Batch Job cancel failed")
      else do mark_cancelled reference.name; pure ExecutionState.cancelled

  unfoldable pub cancel : ExecutionReference → Exec (Memory × C) ExecutionState
  unfolding validate_reference state_of deleted
  cancel reference = do
    validate_reference reference
    state ← state_of reference
    if has_ended state
        then pure state
        else do answer ← ask (client.delete_job reference.name); deleted reference answer

  abbrev pub cloud_batch_backend : ExecutionBackend (Memory × C)
  cloud_batch_backend = record {
    backend_name = "cloud_batch";
    start = start;
    get = state_of;
    cancel = cancel;
  }
