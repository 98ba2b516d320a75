-- ===== src/Firestore/Runs/Reserve.antt =====
-- FirestoreChatStore: reserve_initial_run and reserve_run.
use claudeagentsdk_cloudrun.Prelude.{ℕ, String, not, Option, none, some, string_eq}
use claudeagentsdk_cloudrun.Errors.{
  error, value_error, session_not_found, session_ownership, active_run_conflict,
}
use claudeagentsdk_cloudrun.Exec.{Exec, pure, raise, lift, guard, require, ◌>>=◌, ◌>>◌}
use claudeagentsdk_cloudrun.Codec.{user_key, encode_session, encode_run, encode_event, is_expired}
use claudeagentsdk_cloudrun.Models.RunStates.{RunState, value}
use claudeagentsdk_cloudrun.Models.Ids.{str}
use claudeagentsdk_cloudrun.Models.Records.{
  Uuid, Time, Session, Run, ChatEvent, InitialSessionResult,
}
use claudeagentsdk_cloudrun.InMemory.Runs.Reserve.{references_match}
use claudeagentsdk_cloudrun.Firestore.Documents.{
  SessionPath, RunPath, SessionDoc, RunDoc, Database, Cloud, look, write, now_of, guard_new_run,
  guard_new_event, kept_until, session_path, run_path,
}

module _ {D : Type 0} (db : Database D) (hex_digest : String → String) (retention_days : ℕ) where
  -- transaction.create of the run and of its first event
  abbrev create_run : RunPath → Run → ChatEvent → Time → Exec (Cloud D) (Unit {0})
  create_run path run event now = do
    document ← lift (encode_run run retention_days (some now))
    first ← lift (encode_event event retention_days)
    guard_new_run db path
    guard_new_event db path event.id
    write (
        db.write_run path (record {
          run = document.payload;
          expires_at = some document.expires_at;
          next_sequence = some 1;
          execution_owner = none;
          heartbeat_at = none;
          cancel_requested_at = none;
        }))
    write (
        db.write_event path event.id
          (record { event = first.payload; expires_at = some first.expires_at }))

  -- The slot of the session is the run's.
  abbrev pub occupied : Run → String → Time → Session → Session
  occupied run state now session = record session {
    active_run_id = some run.id;
    latest_run_state = some state;
    updated_at = now;
  }

  -- The writes of reserve_initial_run; `stored` is the session's document, where it exists.
  unfoldable pub reserve_new :
      SessionPath
      → Session
      → Run
      → ChatEvent
      → Option SessionDoc
      → Exec (Cloud D) InitialSessionResult
  unfolding encode_session encode_run encode_event
  reserve_new path session run event stored = do
    now ← now_of
    let reserved = occupied run (value run.state) now session
    document ← lift (encode_session reserved retention_days (some now))
    create_run (run_path path run.id) run event now
    write (
        db.write_session path (elim stored [
          | none ↦ record { session = document.payload; expires_at = some document.expires_at }
          | some doc ↦ record {
            session = occupied run (value run.state) now doc.session;
            expires_at = kept_until retention_days now;
          }
        ]))
    pure (record { session = reserved; run = run })

  unfoldable pub reserve_existing :
      SessionPath
      → Session
      → Run
      → ChatEvent
      → SessionDoc
      → Option RunDoc
      → Option Uuid
      → Exec (Cloud D) InitialSessionResult
  unfolding reserve_new
  reserve_existing path session run event doc (some before) active =
      pure (record { session = doc.session; run = before.run })
  reserve_existing path session run event doc none (some active) =
      raise (error active_run_conflict (str active))
  reserve_existing path session run event doc none none =
      reserve_new path session run event (some doc)

  unfoldable pub reserve_initial_in :
      SessionPath
      → Session
      → Run
      → ChatEvent
      → Option SessionDoc
      → Exec (Cloud D) InitialSessionResult
  unfolding reserve_existing reserve_new is_expired
  reserve_initial_in path session run event none = reserve_new path session run event none
  reserve_initial_in path session run event (some doc) = do
    now ← now_of
    guard (not (is_expired doc.expires_at now)) (error session_not_found "session has expired")
    guard (string_eq.beq doc.session.user_id session.user_id)
        (error session_ownership "session belongs to another user")
    before ← look (db.run (run_path path run.id))
    reserve_existing path session run event doc before doc.session.active_run_id

  unfoldable pub reserve_initial_run :
      Session → Run → ChatEvent → Exec (Cloud D) InitialSessionResult
  unfolding reserve_initial_in user_key
  reserve_initial_run session run event = do
    guard (references_match session run event)
        (error value_error "initial session, run, and event references do not match")
    path ← lift (session_path hex_digest session.user_id session.id)
    found ← look (db.session path)
    reserve_initial_in path session run event found

  unfoldable pub reserve_in :
      SessionPath → Run → ChatEvent → SessionDoc → Option RunDoc → Option Uuid → Exec (Cloud D) Run
  unfolding encode_run encode_event
  reserve_in path run event doc (some existing) active = pure existing.run
  reserve_in path run event doc none (some active) = raise (error active_run_conflict (str active))
  reserve_in path run event doc none none = do
    now ← now_of
    create_run (run_path path run.id) run event now
    write (
        db.write_session path (record {
          session = occupied run (value RunState.requested) now doc.session;
          expires_at = kept_until retention_days now;
        }))
    pure run

  unfoldable pub reserve_run : Run → ChatEvent → Exec (Cloud D) Run
  unfolding reserve_in user_key
  reserve_run run event = do
    path ← lift (session_path hex_digest run.user_id run.session_id)
    found ← look (db.session path)
    doc ← require found (error session_not_found "session was not found")
    existing ← look (db.find_request path run.idempotency_key)
    reserve_in path run event doc existing doc.session.active_run_id
