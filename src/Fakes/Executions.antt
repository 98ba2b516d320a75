-- ===== src/Fakes/Executions.antt =====
-- InMemoryExecutionBackend. Its lock makes each method one step.
use Prim.Native.String.{◌++◌ as str_append}
use claudeagentsdk_cloudrun.Prelude.{
  ℕ, ◌+◌, String, Bool, true, false, Option, none, some, nat_eq, string_eq, length, if◌then◌else◌,
}
use claudeagentsdk_cloudrun.Errors.{error, execution_not_found}
use claudeagentsdk_cloudrun.Exec.{Exec, pure, gets, modify, require, ◌>>=◌, ◌>>◌}
use claudeagentsdk_cloudrun.Dict.{Dict, get, put}
use claudeagentsdk_cloudrun.Text.{decimal}
use claudeagentsdk_cloudrun.Models.RunStates.{ExecutionState}
use claudeagentsdk_cloudrun.Models.Ids.{str}
use claudeagentsdk_cloudrun.Models.Records.{Uuid, ExecutionReference}
use claudeagentsdk_cloudrun.Ports.{ExecutionBackend}

pub record Executions : Type 0 where
  pub references_by_run : Dict Uuid ExecutionReference
  pub states : Dict String ExecutionState

-- state in {SUCCEEDED, FAILED, CANCELLED}
abbrev pub has_ended : ExecutionState → Bool
has_ended ExecutionState.pending = false
has_ended ExecutionState.running = false
has_ended _ = true

abbrev pub new_reference : Uuid → ℕ → ExecutionReference
new_reference run_id count = record {
  backend = "in-memory";
  name = str_append "executions/" (decimal (count + 1));
  identity = some (str run_id);
}

unfoldable pub use_or_start : Uuid → Option ExecutionReference → Exec Executions ExecutionReference
use_or_start run_id (some existing) = pure existing
use_or_start run_id none = do
  reference ← gets (λ s. new_reference run_id (length s.states))
  modify (λ s. record s {
    references_by_run = put s.references_by_run run_id reference;
    states = put s.states reference.name ExecutionState.pending;
  })
  pure reference

unfoldable pub start : Uuid → Exec Executions ExecutionReference
unfolding use_or_start
start run_id = do
  existing ← gets (λ s. get s.references_by_run run_id)
  use_or_start run_id existing

unfoldable pub state_of : ExecutionReference → Exec Executions ExecutionState
state_of reference = do
  found ← gets (λ s. get s.states reference.name)
  require found (error execution_not_found reference.name)

unfoldable pub cancel : ExecutionReference → Exec Executions ExecutionState
unfolding state_of
cancel reference = do
  state ← state_of reference
  if has_ended state then pure state else do
    modify (λ s. record s { states = put s.states reference.name ExecutionState.cancelled })
    pure ExecutionState.cancelled

unfoldable pub set_state : ExecutionReference → ExecutionState → Exec Executions (Unit {0})
unfolding state_of
set_state reference state = do
  state_of reference
  modify (λ s. record s { states = put s.states reference.name state })

abbrev pub in_memory_backend : ExecutionBackend Executions
in_memory_backend = record {
  backend_name = "cloud_run";
  start = start;
  get = state_of;
  cancel = cancel;
}
