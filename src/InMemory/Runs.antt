-- ===== src/InMemory/Runs.antt =====
-- InMemoryChatStore: the methods on runs.
pub mod Reserve
pub mod Pages
pub mod Reservation
pub mod Ownership
pub mod Ends
use claudeagentsdk_cloudrun.Prelude.{
  ℕ, String, ◌≡◌, Bool, true, false, ◌&&◌, ◌||◌, not, List, [], ◌∷◌, Option, none, some, Eq, nat_eq,
  string_eq, first, if◌then◌else◌, option_eq,
}
use claudeagentsdk_cloudrun.Errors.{error, value_error, session_not_found, session_ownership}
use claudeagentsdk_cloudrun.Exec.{
  Exec, Result, ok, err, pure, raise, gets, modify, guard, require, ◌>>=◌, ◌>>◌,
}
use claudeagentsdk_cloudrun.Dict.{get, put}
use claudeagentsdk_cloudrun.Models.RunStates
use claudeagentsdk_cloudrun.Models.RunStates.{RunState, value, terminal, state_eq, requested}
use claudeagentsdk_cloudrun.Models.Ids.{str}
use claudeagentsdk_cloudrun.Models.Records.{Uuid, Session, Run, ExecutionReference}
use claudeagentsdk_cloudrun.InMemory.State.{Store, missing}

-- self.runs[run_id] and self.sessions[session_id]
abbrev pub run_at : Uuid → Exec Store Run
run_at run_id = do found ← gets (λ s. get s.runs run_id); require found missing

abbrev pub session_at : String → Exec Store Session
session_at session_id = do found ← gets (λ s. get s.sessions session_id); require found missing

abbrev pub write_run : Uuid → Run → Exec Store (Unit {0})
write_run run_id run = modify (λ s. record s { runs = put s.runs run_id run })

abbrev pub write_session : Session → Exec Store (Unit {0})
write_session session = modify (λ s. record s { sessions = put s.sessions session.id session })

-- session.model_copy(update={"updated_at": now})
abbrev pub touch_session : String → Exec Store (Unit {0})
touch_session session_id = do
  session ← session_at session_id
  now ← gets (λ s. s.clock)
  write_session (record session { updated_at = now })

-- The session's slot is freed and shows the run's last state.
abbrev pub close_session : String → RunState → Exec Store (Unit {0})
close_session session_id state = do
  session ← session_at session_id
  now ← gets (λ s. s.clock)
  write_session (record session {
    active_run_id = none;
    latest_run_state = some (value state);
    updated_at = now;
  })

unfoldable pub save_execution : Uuid → ExecutionReference → Exec Store Run
save_execution run_id execution = do
  run ← run_at run_id
  let state = if state_eq.beq run.state requested then RunState.pending else run.state
  let updated = record run { execution = some execution; state = state }
  write_run run_id updated
  touch_session run.session_id
  pure updated

unfoldable pub fail_dispatch : Uuid → String → Exec Store Run
fail_dispatch run_id error_code = do
  found ← run_at run_id
  let run = record found { state = RunState.dispatch_failed; error_code = some error_code }
  write_run run_id run
  close_session run.session_id run.state
  pure run

-- owner is not None and owner != execution_identity
abbrev pub other_owner : Option String → String → Bool
other_owner none execution_identity = false
other_owner (some owner) execution_identity = not (string_eq.beq owner execution_identity)

unfoldable pub claim_run : Uuid → String → Exec Store Bool
claim_run run_id execution_identity = do
  run ← run_at run_id
  owner ← gets (λ s. get s.owners run_id)
  if other_owner owner execution_identity then pure false else do
    modify (λ s. record s { owners = put s.owners run_id execution_identity })
    write_run run_id (record run { state = RunState.running })
    pure true

-- self._owners.get(run_id) == execution_identity
abbrev pub owned_by : Option String → String → Bool
owned_by none execution_identity = false
owned_by (some owner) execution_identity = string_eq.beq owner execution_identity

unfoldable pub heartbeat_run : Uuid → String → Exec Store Bool
heartbeat_run run_id execution_identity =
    gets (λ s. owned_by (get s.owners run_id) execution_identity)

abbrev pub same_owner : Run → String → String → Bool
same_owner run user_id session_id =
    string_eq.beq run.user_id user_id && string_eq.beq run.session_id session_id

unfoldable pub get_run : String → String → Uuid → Exec Store Run
get_run user_id session_id run_id = do
  found ← gets (λ s. get s.runs run_id)
  run ← require found (error session_not_found (str run_id))
  guard (same_owner run user_id session_id) (error session_ownership (str run_id))
  pure run

unfoldable pub get_run_for_job : Uuid → Exec Store Run
get_run_for_job run_id = do
  found ← gets (λ s. get s.runs run_id)
  require found (error session_not_found (str run_id))

unfoldable pub request_cancel : Uuid → Exec Store Run
request_cancel run_id = do
  run ← run_at run_id
  let updated = record run { state = RunState.cancel_requested }
  if terminal run.state
      then pure run
      else do write_run run_id updated; touch_session run.session_id; pure updated

abbrev pub is_some {ℓ} : {A : Type ℓ} → Option A → Bool
is_some none = false
is_some (some a) = true

-- Only a run that ended with both replaces the session's transcript and snapshot.
abbrev pub replaces_snapshot : Run → Bool
replaces_snapshot run =
    (state_eq.beq run.state RunState.completed || state_eq.beq run.state RunState.timed_out)
    && is_some run.claude_session_id
    && is_some run.snapshot

unfoldable pub commit_terminal : Run → String → Exec Store Run
commit_terminal run execution_identity = do
  guard (terminal run.state) (error value_error "terminal state is required")
  current ← run_at run.id
  owner ← gets (λ s. get s.owners run.id)
  guard (owned_by owner execution_identity) (error session_ownership (str run.id))
  guard (same_owner current run.user_id run.session_id) (error session_ownership (str run.id))
  write_run run.id run
  session ← session_at run.session_id
  now ← gets (λ s. s.clock)
  let closed = record session {
    active_run_id = none;
    latest_run_state = some (value run.state);
    updated_at = now;
  }
  write_session (
      if replaces_snapshot run
      then record closed { claude_session_id = run.claude_session_id; snapshot = run.snapshot }
      else closed)
  pure run
