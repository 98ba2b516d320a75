-- ===== src/Backends/Gke.antt =====
-- cas_hosting_adapter/gke_backend.py: GKEJobsBackend over any KubernetesBatchClient. Manifests
-- holds the settings and the Job manifest, States the mapping of a Job's state and of exceptions.
pub mod Manifests
pub mod States
pub mod Cancels
use Prim.Native.String.{◌++◌ as str_append}
use claudeagentsdk_cloudrun.Prelude.{
  ℕ, zero, suc, String, Bool, true, false, not, Option, none, some, nat_eq, string_eq, option_eq,
  if◌then◌else◌,
}
use claudeagentsdk_cloudrun.Errors.{
  Error, ErrorClass, error, execution_conflict, execution_not_found, execution_temporary,
  validation,
}
use claudeagentsdk_cloudrun.Exec.{
  Exec, Result, ok, err, pure, raise, lift, gets, guard, attempt, ◌>>=◌, ◌>>◌,
}
use claudeagentsdk_cloudrun.Dict.{get}
use claudeagentsdk_cloudrun.Text.Search.{is_in}
use claudeagentsdk_cloudrun.Models.Ids.{str}
use claudeagentsdk_cloudrun.Models.Json.{Json}
use claudeagentsdk_cloudrun.Models.RunStates.{ExecutionState}
use claudeagentsdk_cloudrun.Models.Records.{Uuid, ExecutionReference}
use claudeagentsdk_cloudrun.Ports.{ExecutionBackend}
use claudeagentsdk_cloudrun.Fakes.Executions.{has_ended}
use claudeagentsdk_cloudrun.Backends.Provider.{
  Fault, fault_of, Answer, returned, failed, Call, Memory, ask, remember, mark_cancelled,
}
use claudeagentsdk_cloudrun.Backends.Gke.Manifests.{
  Settings, job_name_for_run, job_reference_for_run, build_job_manifest,
}
use claudeagentsdk_cloudrun.Backends.Gke.States.{
  Job, normalize_gke_job_state, is_not_found, is_conflict, map_kubernetes_error, split_reference,
}

pub record KubernetesBatchClient (C : Type 0) : Type 0 where
  pub create_job : String → Json → Call C (Unit {0})
  pub get_job : String → String → Call C Job
  -- propagation_policy is always "Foreground"
  pub delete_job : String → String → Call C (Unit {0})

-- isinstance(error, ExecutionNotFoundError)
abbrev pub is_execution_not_found : ErrorClass → Bool
is_execution_not_found execution_not_found = true
is_execution_not_found _ = false

module _ {C : Type 0} (client : KubernetesBatchClient C) (self : Settings) where
  abbrev pub create : Uuid → Result Json → Exec (Memory × C) (Answer (Unit {0}))
  create run_id (err e) = pure (failed (fault_of e))
  create run_id (ok body) = ask (client.create_job self.namespace body)

  -- The Job that has the name already has to be this run's.
  unfoldable pub owned : Uuid → Answer Job → Exec (Memory × C) (Unit {0})
  unfolding map_kubernetes_error
  owned run_id (failed fault) = raise (map_kubernetes_error fault "GKE existing Job lookup failed")
  owned run_id (returned job) =
      guard (option_eq.beq (get job.labels "run-id") (some (str run_id)))
        (error execution_conflict "GKE Job name is occupied by another run")

  -- What `start` does about the answer of create_job.
  unfoldable pub created : Uuid → Answer (Unit {0}) → Exec (Memory × C) (Unit {0})
  unfolding owned map_kubernetes_error is_conflict job_name_for_run
  created run_id (returned _) = pure tt
  created run_id (failed fault) =
      if not (is_conflict fault)
      then raise (map_kubernetes_error fault "GKE Job start failed")
      else do
        found ← ask (client.get_job self.namespace (job_name_for_run run_id))
        owned run_id found

  unfoldable pub use_or_create :
      Uuid → Option ExecutionReference → Exec (Memory × C) ExecutionReference
  unfolding created build_job_manifest job_reference_for_run
  use_or_create run_id (some existing) = pure existing
  use_or_create run_id none = do
    answer ← create run_id (build_job_manifest self run_id)
    created run_id answer
    remember run_id (job_reference_for_run self run_id)
    pure (job_reference_for_run self run_id)

  unfoldable pub start : Uuid → Exec (Memory × C) ExecutionReference
  unfolding use_or_create
  start run_id = do
    existing ← gets (λ p. get p.0.references_by_run run_id)
    use_or_create run_id existing

  unfoldable pub validate_reference : ExecutionReference → Exec (Memory × C) (Unit {0})
  validate_reference reference =
      guard (string_eq.beq reference.backend "gke")
        (error validation "GKE backend received an execution reference for another backend")

  get_failed : Fault → Option String → Exec (Memory × C) ExecutionState
  unfolding map_kubernetes_error
  get_failed fault (some message) = raise (error execution_temporary message)
  get_failed fault none = raise (map_kubernetes_error fault "GKE Job get failed")

  unfoldable pub observed : Answer Job → Exec (Memory × C) ExecutionState
  unfolding get_failed normalize_gke_job_state
  observed (returned job) = pure (normalize_gke_job_state job)
  observed (failed fault) = get_failed fault fault.temporary

  unfoldable pub state_of : ExecutionReference → Exec (Memory × C) ExecutionState
  unfolding validate_reference observed split_reference
  state_of reference = do
    validate_reference reference
    over ← gets (λ p. is_in p.0.cancelled reference.name)
    if over then pure ExecutionState.cancelled else do
      parts ← lift (split_reference reference)
      answer ← ask (client.get_job parts.0 parts.1)
      observed answer

  unfoldable pub confirm : ExecutionReference → Exec (Memory × C) ExecutionState
  confirm reference = do mark_cancelled reference.name; pure ExecutionState.cancelled

  -- One round of the polling loop, by what `get` gave.
  unfoldable pub polled :
      ExecutionReference
      → Exec (Memory × C) ExecutionState
      → Result ExecutionState
      → Exec (Memory × C) ExecutionState
  unfolding confirm
  polled reference again (err e) =
      if is_execution_not_found e.kind then confirm reference else raise e
  polled reference again (ok ExecutionState.succeeded) = pure ExecutionState.succeeded
  polled reference again (ok ExecutionState.failed) = pure ExecutionState.failed
  polled reference again (ok current) = again

  unfoldable pub poll : ExecutionReference → ℕ → Exec (Memory × C) ExecutionState
  unfolding state_of polled
  poll reference zero = raise (error execution_temporary "GKE Job deletion was not confirmed")
  poll reference (suc attempts) = do
    current ← attempt (state_of reference)
    polled reference (poll reference attempts) current

  unfoldable pub deleted : ExecutionReference → Answer (Unit {0}) → Exec (Memory × C) ExecutionState
  unfolding map_kubernetes_error is_not_found confirm poll
  deleted reference (returned _) = poll reference self.cancel_poll_attempts
  deleted reference (failed fault) =
      if not (is_not_found fault)
      then raise (map_kubernetes_error fault "GKE Job cancel failed")
      else confirm reference

  unfoldable pub cancel : ExecutionReference → Exec (Memory × C) ExecutionState
  unfolding validate_reference
  cancel reference = do
    validate_reference reference
    over ← gets (λ p. is_in p.0.cancelled reference.name)
    if over then pure ExecutionState.cancelled else do
      state ← state_of reference
      if has_ended state then pure state else do
        parts ← lift (split_reference reference)
        answer ← ask (client.delete_job parts.0 parts.1)
        deleted reference answer

  abbrev pub gke_backend : ExecutionBackend (Memory × C)
  gke_backend = record { backend_name = "gke"; start = start; get = state_of; cancel = cancel }
