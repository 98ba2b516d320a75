-- ===== src/Lifecycle.antt =====
-- cas_hosting_adapter/lifecycle.py: RunLifecycle.run. The agent, the event sink and the snapshot
-- store are parameters; the state is theirs, beside the next sequence number.
pub mod Events
use claudeagentsdk_cloudrun.Prelude.{
  ℕ, ◌+◌, String, ◌≡◌, Bool, true, false, not, List, [], ◌∷◌, Option, none, some, if◌then◌else◌,
}
use claudeagentsdk_cloudrun.Errors.{
  ErrorClass, Error, error, agent_error, workspace_error, class_name, is_agent_error,
  is_workspace_error,
}
use claudeagentsdk_cloudrun.Exec.{
  Exec, Result, ok, err, pure, raise, gets, modify, guard, attempt, on_left, ◌>>=◌, ◌>>◌,
}
use claudeagentsdk_cloudrun.Text.{is_blank}
use claudeagentsdk_cloudrun.Models.Json
use claudeagentsdk_cloudrun.Models.Json.{Json, Fields}
use claudeagentsdk_cloudrun.Models.Records.{Uuid}

pub record SessionEvent : Type 0 where
  pub run_id : Uuid
  pub sequence : ℕ
  pub event_type : String
  pub payload : Fields

pub record SnapshotReference : Type 0 where
  pub object_path : String
  pub generation : ℕ
  pub sha256 : String

-- What RunLifecycle was built from. `commit_snapshot` is the archive, its manifest and the
-- conditional upload; `none` where no snapshot store is configured.
pub record Parts (W : Type 0) : Type 0 where
  pub append_event : SessionEvent → Exec W (Unit {0})
  -- the agent's `output`, where it is a text
  pub execute_agent : Exec W (Option String)
  pub commit_snapshot : Option (Uuid → Exec W SnapshotReference)

abbrev pub text_field : String → String → Fields
text_field key value = Json.field key (Json.str value) Json.end

abbrev pub reference_fields : SnapshotReference → Fields
reference_fields reference = Json.field "object_path" (Json.str reference.object_path) (
    Json.field "generation" (Json.num reference.generation)
      (Json.field "sha256" (Json.str reference.sha256) Json.end))

module _ {W : Type 0} (parts : Parts W) (run_id : Uuid) where
  unfoldable pub emit : String → Fields → Exec (W × ℕ) (Unit {0})
  emit event_type payload = do
    sequence ← gets (λ p. p.1)
    on_left (
        parts.append_event (record {
          run_id = run_id;
          sequence = sequence;
          event_type = event_type;
          payload = payload;
        }))
    modify (λ p. (p.0, p.1 + 1))

  abbrev text_output : Option String → Exec (W × ℕ) String
  text_output (some output) = pure output
  text_output none = raise (error agent_error "agent did not return text output")

  -- The body of the first `try`.
  unfoldable pub execute : Exec (W × ℕ) String
  unfolding emit
  execute = do
    result ← on_left parts.execute_agent
    output ← text_output result
    emit "agent_message" (text_field "text" output)
    pure output

  unfoldable pub executed : Result String → Exec (W × ℕ) String
  unfolding emit
  executed (ok output) = pure output
  executed (err e) = do
    emit "failed" (text_field "error_type" (class_name e.kind))
    raise (if is_agent_error e.kind then e else error agent_error "agent execution failed")

  unfoldable pub committed : Result SnapshotReference → Exec (W × ℕ) SnapshotReference
  unfolding emit
  committed (ok reference) = pure reference
  committed (err e) = do
    emit "persistence_failed" (text_field "error_type" (class_name e.kind))
    raise (if is_workspace_error e.kind then e else error workspace_error "snapshot commit failed")

  unfoldable pub commit : Option (Uuid → Exec W SnapshotReference) → Exec (W × ℕ) (Unit {0})
  unfolding committed
  commit none = pure tt
  commit (some commit_snapshot) = do
    saved ← attempt (on_left (commit_snapshot run_id))
    reference ← committed saved
    emit "snapshot_committed" (reference_fields reference)

  unfoldable pub run_from_start : String → Exec (W × ℕ) String
  unfolding execute executed commit
  run_from_start message = do
    guard (not (is_blank message)) (error agent_error "message must not be blank")
    emit "run_started" (text_field "message" message)
    outcome ← attempt execute
    output ← executed outcome
    commit parts.commit_snapshot
    emit "completed" (text_field "output" output)
    pure output

  unfoldable pub run : String → W → Result String × (W × ℕ)
  unfolding run_from_start
  run message w = run_from_start message (w, 0)
