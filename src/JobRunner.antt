-- ===== src/JobRunner.antt =====
-- cas_hosting_adapter/job_runner.py: JobRunner, over any store. The state is the store's beside
-- the runner's own.
pub mod Loop
pub mod Claims
use Prim.Native.String.{◌++◌ as str_append}
use claudeagentsdk_cloudrun.Prelude.{
  ℕ, String, Bool, true, false, not, ◌&&◌, ◌||◌, List, [], ◌∷◌, reverse, Option, none, some, Eq,
  string_eq, option_eq, first, if◌then◌else◌,
}
use claudeagentsdk_cloudrun.Errors.{error, value_error, agent_error}
use claudeagentsdk_cloudrun.Exec.{
  Exec, Result, ok, err, pure, raise, gets, guard, require, on_left, ◌>>=◌, ◌>>◌,
}
use claudeagentsdk_cloudrun.Models.RunStates
use claudeagentsdk_cloudrun.Models.RunStates.{RunState, terminal, state_eq}
use claudeagentsdk_cloudrun.Models.Json
use claudeagentsdk_cloudrun.Models.Json.{Fields, text_of}
use claudeagentsdk_cloudrun.Models.Ids.{str}
use claudeagentsdk_cloudrun.Models.Records.{
  Uuid, Time, ChatEvent, EventCursor, Run, WorkspaceReference,
}
use claudeagentsdk_cloudrun.Ports.{ChatStore}

pub record JobInvocation : Type 0 where
  pub run_id : Uuid
  pub execution_identity : String

-- JobRunner's own fields.
pub record Runner : Type 0 where
  pub shutdown_requested : Bool
  pub claude_session_id : Option String

abbrev pub or_else {ℓ} : {A : Type ℓ} → Option A → Option A → Option A
or_else none b = b
or_else (some a) b = some a

module _ {S : Type 0} (store : ChatStore S) where
  unfoldable pub claim : JobInvocation → Exec S (Option Run)
  claim invocation = do
    run ← store.get_run_for_job invocation.run_id
    if state_eq.beq run.state RunState.cancel_requested || terminal run.state
        then pure none
        else (do
          won ← store.claim_run invocation.run_id invocation.execution_identity
          if not won
              then pure none
              else do claimed ← store.get_run_for_job invocation.run_id; pure (some claimed))

  -- event.type == "user" and isinstance(content, str)
  abbrev pub user_content : ChatEvent → Option String
  user_content e =
      if string_eq.beq e.type "user" then text_of (Json.get e.payload "content") else none

  abbrev pub first_content : List ChatEvent → Option String
  first_content [] = none
  first_content (e ∷ es) = or_else (user_content e) (first_content es)

  unfoldable pub prompt_for_run : Uuid → Exec S String
  prompt_for_run run_id = do
    events ← store.list_events run_id none
    require (first_content events) (error agent_error "run has no persisted user prompt")

  abbrev pub final_output : ChatEvent → Option String
  final_output e =
      if string_eq.beq e.type "final" then text_of (Json.get e.payload "output") else none

  abbrev pub first_output : List ChatEvent → Option String
  first_output [] = none
  first_output (e ∷ es) = or_else (final_output e) (first_output es)

  unfoldable pub result_for_run : Uuid → Exec S String
  result_for_run run_id = do
    events ← store.list_events run_id none
    require (first_output (reverse events))
        (error agent_error "Claude Agent SDK ended without a successful final event")

  abbrev pub unsuccessful : RunState → Bool
  unsuccessful RunState.failed = true
  unsuccessful RunState.cancelled = true
  unsuccessful RunState.timed_out = true
  unsuccessful _ = false

  unfoldable pub commit_unsuccessful :
      Time
      → JobInvocation
      → RunState
      → Option String
      → Option WorkspaceReference
      → Option String
      → Exec S Run
  commit_unsuccessful now invocation state error_code snapshot claude_session_id = do
    guard (unsuccessful state) (error value_error "unsuccessful terminal state is required")
    current ← store.get_run_for_job invocation.run_id
    store.commit_terminal
        (record current {
          state = state;
          error_code = error_code;
          finished_at = some now;
          snapshot = or_else snapshot current.snapshot;
          claude_session_id = or_else claude_session_id current.claude_session_id;
        })
        invocation.execution_identity

  -- event.type == "final" and event.payload.get("output") == result
  abbrev pub is_final_of : String → ChatEvent → Bool
  is_final_of result e =
      string_eq.beq e.type "final"
      && option_eq.beq (text_of (Json.get e.payload "output")) (some result)

  abbrev final_event : Uuid → Time → String → ChatEvent
  final_event run_id now result = record {
    id = str_append "final:" (str run_id);
    run_id = run_id;
    sequence = 0;
    type = "final";
    occurred_at = now;
    payload = Json.field "output" (Json.str result) Json.end;
  }

  unfoldable pub use_or_append : Uuid → Time → String → Option ChatEvent → Exec S ChatEvent
  use_or_append run_id now result (some existing) = pure existing
  use_or_append run_id now result none = store.append_event (final_event run_id now result)

  unfoldable pub commit_success :
      Time → JobInvocation → String → WorkspaceReference → Option String → Exec S Run
  unfolding use_or_append
  commit_success now invocation result snapshot claude_session_id = do
    current ← store.get_run_for_job invocation.run_id
    events ← store.list_events invocation.run_id none
    final ← use_or_append invocation.run_id now result (first (is_final_of result) (reverse events))
    store.commit_terminal
        (record current {
          state = RunState.completed;
          snapshot = some snapshot;
          claude_session_id = claude_session_id;
          event_cursor = some (record { sequence = final.sequence; event_id = final.id });
          result = some result;
          finished_at = some now;
        })
        invocation.execution_identity
