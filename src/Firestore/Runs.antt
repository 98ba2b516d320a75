-- ===== src/Firestore/Runs.antt =====
-- FirestoreChatStore: the methods on runs.
pub mod Reserve
pub mod Claims
use claudeagentsdk_cloudrun.Prelude.{
  ℕ, String, Bool, true, false, ◌&&◌, ◌||◌, not, List, [], ◌∷◌, Option, none, some, string_eq,
  option_eq, ltb, length, take, keep, last?, map, if◌then◌else◌,
}
use claudeagentsdk_cloudrun.Errors.{error, value_error, session_not_found, session_ownership}
use claudeagentsdk_cloudrun.Exec.{
  Exec, Result, ok, err, pure, lift, gets, guard, require, ◌>>=◌, ◌>>◌,
}
use claudeagentsdk_cloudrun.Codec.{user_key, encode_run, is_expired}
use claudeagentsdk_cloudrun.Models.RunStates.{RunState, value, terminal, state_eq, requested}
use claudeagentsdk_cloudrun.Models.Ids.{str}
use claudeagentsdk_cloudrun.Models.Records.{
  Uuid, Time, Session, Run, RunCursor, position, malformed, RunPage, ExecutionReference,
}
use claudeagentsdk_cloudrun.InMemory.Runs.{replaces_snapshot, other_owner, owned_by, same_owner}
use claudeagentsdk_cloudrun.InMemory.Runs.Pages.{decode_run_cursor}
use claudeagentsdk_cloudrun.Firestore.Documents.{
  SessionPath, RunPath, SessionDoc, RunDoc, Database, Cloud, look, write, now_of, run_reference,
  run_snapshot, session_snapshot, kept_until, session_path, run_path,
}
use claudeagentsdk_cloudrun.Firestore.Sessions.{get_session}

abbrev cursor_of : Option Run → Option RunCursor
cursor_of none = none
cursor_of (some last) = some (position last.created_at last.id)

-- The page of the runs that are not expired.
unfoldable pub run_page : Time → ℕ → List RunDoc → RunPage
unfolding is_expired
run_page now limit docs =
    let visible = keep (λ doc. not (is_expired doc.expires_at now)) docs in
    let page = map (λ doc. doc.run) (take limit visible) in
    record {
      runs = page;
      next_cursor = if ltb limit (length visible) then cursor_of (last? page) else none;
    }

abbrev start_after : Option RunCursor → Result (Option (Time × String))
start_after none = ok none
start_after (some cursor) = elim (decode_run_cursor cursor) [
  | err e ↦ err e
  | ok key ↦ ok (some (key.0, str key.1))
]

-- The states that request_cancel leaves alone.
unfoldable pub has_settled : RunState → Bool
has_settled RunState.completed = true
has_settled RunState.failed = true
has_settled RunState.cancelled = true
has_settled RunState.timed_out = true
has_settled RunState.dispatch_failed = true
has_settled _ = false

-- The session's slot is freed and shows the run's last state.
abbrev pub closed : ℕ → Time → RunState → SessionDoc → SessionDoc
closed retention_days now state doc = record {
  session = record doc.session {
    active_run_id = none;
    latest_run_state = some (value state);
    updated_at = now;
  };
  expires_at = kept_until retention_days now;
}

-- The transcript and the snapshot that a committed run leaves to its session.
abbrev pub with_snapshot : Run → SessionDoc → SessionDoc
with_snapshot run doc =
    if replaces_snapshot run
    then record doc {
      session = record doc.session {
        claude_session_id = run.claude_session_id;
        snapshot = run.snapshot;
      };
    }
    else doc

module _ {D : Type 0} (db : Database D) (hex_digest : String → String) (retention_days : ℕ) where
  unfoldable pub list_runs : String → String → Option RunCursor → ℕ → Exec (Cloud D) RunPage
  unfolding get_session decode_run_cursor run_page user_key
  list_runs user_id session_id cursor limit = do
    guard (not (ltb limit 1)) (error value_error "limit must be positive")
    session ← get_session db hex_digest retention_days user_id session_id
    path ← lift (session_path hex_digest user_id session.id)
    key ← lift (start_after cursor)
    docs ← look (db.oldest_runs path key)
    now ← now_of
    pure (run_page now limit docs)

  unfoldable pub get_run : String → String → Uuid → Exec (Cloud D) Run
  unfolding get_session user_key is_expired
  get_run user_id session_id run_id = do
    session ← get_session db hex_digest retention_days user_id session_id
    path ← lift (session_path hex_digest session.user_id session.id)
    found ← look (db.run (run_path path run_id))
    doc ← require found (error session_not_found "run was not found")
    now ← now_of
    guard (not (is_expired doc.expires_at now)) (error session_not_found "run has expired")
    guard (same_owner doc.run user_id session_id)
        (error session_ownership "run belongs to another user")
    pure doc.run

  unfoldable pub save_execution : Uuid → ExecutionReference → Exec (Cloud D) Run
  save_execution run_id execution = do
    path ← run_reference db run_id
    doc ← run_snapshot db path
    now ← now_of
    let state = if state_eq.beq doc.run.state requested then RunState.pending else doc.run.state
    let updated = record doc.run { execution = some execution; state = state }
    write (
        db.write_run path
          (record doc { run = updated; expires_at = kept_until retention_days now }))
    pure updated

  unfoldable pub get_run_for_job : Uuid → Exec (Cloud D) Run
  unfolding is_expired
  get_run_for_job run_id = do
    path ← run_reference db run_id
    doc ← run_snapshot db path
    now ← now_of
    guard (not (is_expired doc.expires_at now)) (error session_not_found "run has expired")
    pure doc.run

  -- Two updates, not a transaction: the run is written also where the session is gone.
  unfoldable pub fail_dispatch : Uuid → String → Exec (Cloud D) Run
  unfolding get_run_for_job
  fail_dispatch run_id error_code = do
    current ← get_run_for_job run_id
    let run = record current { state = RunState.dispatch_failed; error_code = some error_code }
    path ← run_reference db run_id
    now ← now_of
    doc ← run_snapshot db path
    write (
        db.write_run path (record doc {
          run = record doc.run { state = run.state; error_code = some error_code };
          expires_at = kept_until retention_days now;
        }))
    session ← session_snapshot db path.parent
    write (db.write_session path.parent (closed retention_days now run.state session))
    pure run

  unfoldable pub claim_run : Uuid → String → Exec (Cloud D) Bool
  claim_run run_id execution_identity = do
    path ← run_reference db run_id
    doc ← run_snapshot db path
    now ← now_of
    let claimed = record doc {
      run = record doc.run { state = RunState.running };
      execution_owner = some execution_identity;
      heartbeat_at = some now;
      expires_at = kept_until retention_days now;
    }
    if other_owner doc.execution_owner execution_identity
        then pure false
        else do write (db.write_run path claimed); pure true

  unfoldable pub heartbeat_run : Uuid → String → Exec (Cloud D) Bool
  heartbeat_run run_id execution_identity = do
    path ← run_reference db run_id
    doc ← run_snapshot db path
    now ← now_of
    let beaten = record doc { heartbeat_at = some now; expires_at = kept_until retention_days now }
    if not (owned_by doc.execution_owner execution_identity)
        then pure false
        else do write (db.write_run path beaten); pure true

  unfoldable pub request_cancel : Uuid → Exec (Cloud D) Run
  unfolding has_settled
  request_cancel run_id = do
    path ← run_reference db run_id
    doc ← run_snapshot db path
    now ← now_of
    let requested_doc = record doc {
      run = record doc.run { state = RunState.cancel_requested };
      cancel_requested_at = some now;
      expires_at = kept_until retention_days now;
    }
    write (λ d. if has_settled doc.run.state then d else db.write_run path requested_doc d)
    get_run_for_job run_id

  unfoldable pub commit_terminal : Run → String → Exec (Cloud D) Run
  unfolding encode_run
  commit_terminal run execution_identity = do
    guard (terminal run.state) (error value_error "terminal state is required")
    path ← run_reference db run.id
    doc ← run_snapshot db path
    guard (owned_by doc.execution_owner execution_identity)
        (error session_ownership "run belongs to another execution")
    now ← now_of
    document ← lift (encode_run run retention_days (some now))
    session ← session_snapshot db path.parent
    write (
        db.write_run path
          (record doc { run = document.payload; expires_at = some document.expires_at }))
    write (
        db.write_session path.parent
          (with_snapshot run (closed retention_days now run.state session)))
    pure run
