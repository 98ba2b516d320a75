-- ===== src/Backends/Gke/States.antt =====
-- gke_backend.py: normalize_gke_job_state, _map_kubernetes_error and their helpers. A Job is what
-- the code reads of it, whether it comes as a dictionary or as an object.
use Prim.Native.String.{◌++◌ as str_append}
use claudeagentsdk_cloudrun.Prelude.{
  ◌≡◌, Bool-cases, inl, inr, ℕ, String, Bool, false, not, ◌&&◌, ◌||◌, List, [], ◌∷◌, Option, none,
  some, nat_beq, string_eq, leb, ltb, if◌then◌else◌,
}
use claudeagentsdk_cloudrun.Errors.{
  Error, error, execution_not_found, execution_permission, execution_conflict, execution_quota,
  execution_temporary, validation,
}
use claudeagentsdk_cloudrun.Exec.{Result, ok, err}
use claudeagentsdk_cloudrun.Dict.{Dict}
use claudeagentsdk_cloudrun.Text.{is_empty}
use claudeagentsdk_cloudrun.Text.Search.{has, lower, split_once}
use claudeagentsdk_cloudrun.Models.RunStates.{ExecutionState}
use claudeagentsdk_cloudrun.Models.Records.{ExecutionReference}
use claudeagentsdk_cloudrun.Backends.Provider.{Fault}

pub record Condition : Type 0 where
  pub type : String
  pub status : String

pub record Job : Type 0 where
  -- whether status or metadata has a deletion_timestamp
  pub status_deleted : Bool
  pub metadata_deleted : Bool
  pub conditions : List Condition
  -- the counters of the status, 0 where they are absent
  pub failed : ℕ
  pub succeeded : ℕ
  pub active : ℕ
  -- the labels of the metadata
  pub labels : Dict String String

-- The counters, where no condition has said how the Job ended.
abbrev by_counters : Job → ExecutionState
by_counters job =
    if ltb 0 job.failed
    then ExecutionState.failed
    else if leb 1 job.succeeded
    then ExecutionState.succeeded
    else if leb 1 job.active
    then ExecutionState.running
    else ExecutionState.pending

unfoldable pub by_conditions : List Condition → Job → ExecutionState
unfolding lower
by_conditions [] job = by_counters job
by_conditions (condition ∷ rest) job =
    let later = by_conditions rest job in
    if not (string_eq.beq (lower condition.status) "true")
    then later
    else if string_eq.beq (lower condition.type) "complete"
    then ExecutionState.succeeded
    else if string_eq.beq (lower condition.type) "failed"
    then ExecutionState.failed
    else later

unfoldable pub normalize_gke_job_state : Job → ExecutionState
unfolding by_conditions
normalize_gke_job_state job =
    if job.status_deleted || job.metadata_deleted
    then ExecutionState.cancelled
    else by_conditions job.conditions job

checked_parts : Option (String × String) → Result (String × String)
checked_parts none = err (error validation "GKE execution reference must be namespace/job-name")
checked_parts (some (namespace, name)) =
    if is_empty namespace || is_empty name
    then err (error validation "GKE execution reference must be namespace/job-name")
    else ok (namespace, name)

unfoldable pub split_reference : ExecutionReference → Result (String × String)
unfolding checked_parts split_once
split_reference reference = checked_parts (split_once b'/' reference.name)

checked_parts_fails :
    (parts : Option (String × String)) (e : Error)
    → checked_parts parts ≡ err e
    → e ≡ error validation "GKE execution reference must be namespace/job-name"
unfolding checked_parts
checked_parts_fails none e h = cc
checked_parts_fails (some (namespace, name)) e h =
    elim (Bool-cases (is_empty namespace || is_empty name)) [
      | inl blank ↦ cc (rw blank at h)
      | inr full ↦ cc (rw full at h)
    ]

-- A reference that cannot be split is refused in one way.
pub split_reference_fails :
    (reference : ExecutionReference) (e : Error)
    → split_reference reference ≡ err e
    → e ≡ error validation "GKE execution reference must be namespace/job-name"
unfolding split_reference
split_reference_fails reference e h = checked_parts_fails (split_once b'/' reference.name) e h

-- _error_text
unfoldable pub error_text : Fault → String
unfolding lower
error_text fault = lower (str_append fault.reason (str_append " " fault.text))

abbrev pub has_status : Option ℕ → ℕ → Bool
has_status none n = false
has_status (some status) n = nat_beq status n

-- status is not None and 400 <= status < 500
abbrev pub is_client_error : Option ℕ → Bool
is_client_error none = false
is_client_error (some status) = leb 400 status && ltb status 500

unfoldable pub is_not_found : Fault → Bool
unfolding has error_text
is_not_found fault = has_status fault.status 404 || has (error_text fault) "not found"

unfoldable pub is_conflict : Fault → Bool
unfolding has error_text
is_conflict fault =
    has_status fault.status 409
    || has (error_text fault) "conflict"
    || has (error_text fault) "already exists"

unfoldable pub map_kubernetes_error : Fault → String → Error
unfolding has error_text
map_kubernetes_error fault message =
    let status = fault.status in
    let text = error_text fault in
    if has_status status 404 || has text "not found"
    then error execution_not_found message
    else if has_status status 401
        || has_status status 403
        || has text "unauthorized"
        || has text "permission"
        || has text "forbidden"
    then error execution_permission message
    else if has_status status 409 || has text "conflict" || has text "already exists"
    then error execution_conflict message
    else if has_status status 429 || has text "quota" || has text "too many requests"
    then error execution_quota message
    else if is_client_error status
    then error validation message
    else error execution_temporary message
