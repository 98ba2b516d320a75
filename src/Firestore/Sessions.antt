-- ===== src/Firestore/Sessions.antt =====
-- FirestoreChatStore: create_session, get_session, list_sessions, update_session_summary.
use claudeagentsdk_cloudrun.Prelude.{
  ℕ, String, not, List, Option, none, some, string_eq, ltb, length, take, keep, last?, map,
  if◌then◌else◌,
}
use claudeagentsdk_cloudrun.Errors.{error, value_error, session_not_found, session_ownership}
use claudeagentsdk_cloudrun.Exec.{Exec, Result, ok, err, pure, lift, guard, require, ◌>>=◌, ◌>>◌}
use claudeagentsdk_cloudrun.Codec.{user_key, encode_session, is_expired}
use claudeagentsdk_cloudrun.Models.Records.{Uuid, Time, Session}
use claudeagentsdk_cloudrun.Fakes.Objects.{absent}
use claudeagentsdk_cloudrun.Firestore.Documents.{
  SessionDoc, Database, Cloud, already_exists, look, write, now_of, session_snapshot, kept_until,
  session_path,
}

unfoldable pub new_store : ℕ → Result ℕ
new_store retention_days =
    if ltb retention_days 1
    then err (error value_error "retention_days must be positive")
    else ok retention_days

-- A cursor of a page of sessions, by what base64 and JSON make of its text.
pub data SessionCursor : Type 0 where
  after : Time → String → SessionCursor
  malformed : SessionCursor

unfoldable pub decode_cursor : SessionCursor → Result (Time × String)
decode_cursor (after updated_at session_id) = ok (updated_at, session_id)
decode_cursor malformed = err (error value_error "invalid session cursor")

pub record SessionPage : Type 0 where
  pub sessions : List Session
  pub next_cursor : Option SessionCursor

abbrev cursor_of : Option Session → Option SessionCursor
cursor_of none = none
cursor_of (some last) = some (after last.updated_at last.id)

-- The page of the sessions that are not expired.
unfoldable pub session_page : Time → ℕ → List SessionDoc → SessionPage
unfolding is_expired
session_page now limit docs =
    let visible = keep (λ doc. not (is_expired doc.expires_at now)) docs in
    let page = map (λ doc. doc.session) (take limit visible) in
    record {
      sessions = page;
      next_cursor = if ltb limit (length visible) then cursor_of (last? page) else none;
    }

module _ {D : Type 0} (db : Database D) (hex_digest : String → String) (retention_days : ℕ) where
  -- The two texts are those of the calls of uuid4.
  unfoldable pub create_session : String → String → String → String → Exec (Cloud D) Session
  unfolding encode_session user_key
  create_session id workspace_id user_id title = do
    now ← now_of
    let session : Session = record {
      id = id;
      user_id = user_id;
      workspace_id = workspace_id;
      title = title;
      created_at = now;
      updated_at = now;
      active_run_id = none;
      latest_run_state = none;
      claude_session_id = none;
      snapshot = none;
    }
    path ← lift (session_path hex_digest user_id id)
    document ← lift (encode_session session retention_days (some now))
    found ← look (db.session path)
    guard (absent found) already_exists
    write (
        db.write_session path
          (record { session = document.payload; expires_at = some document.expires_at }))
    pure session

  unfoldable pub get_session : String → String → Exec (Cloud D) Session
  unfolding user_key is_expired
  get_session user_id session_id = do
    path ← lift (session_path hex_digest user_id session_id)
    found ← look (db.session path)
    snapshot ← require found (error session_not_found "session was not found")
    now ← now_of
    guard (not (is_expired snapshot.expires_at now)) (error session_not_found "session has expired")
    guard (string_eq.beq snapshot.session.user_id user_id)
        (error session_ownership "session belongs to another user")
    pure snapshot.session

  abbrev start_after : Option SessionCursor → Result (Option (Time × String))
  start_after none = ok none
  start_after (some cursor) = elim (decode_cursor cursor) [ err e ↦ err e | ok key ↦ ok (some key) ]

  unfoldable pub list_sessions : String → Option SessionCursor → ℕ → Exec (Cloud D) SessionPage
  unfolding user_key decode_cursor session_page
  list_sessions user_id cursor limit = do
    guard (not (ltb limit 1)) (error value_error "limit must be positive")
    user ← lift (user_key hex_digest user_id)
    key ← lift (start_after cursor)
    docs ← look (db.newest_sessions user key)
    now ← now_of
    pure (session_page now limit docs)

  abbrev or_kept : {A : Type 0} → Option A → A → A
  or_kept none old = old
  or_kept (some new) old = new

  abbrev or_else : {A : Type 0} → Option A → Option A → Option A
  or_else none old = old
  or_else (some new) old = some new

  unfoldable pub update_session_summary :
      String → String → Option String → Option String → Option Uuid → Exec (Cloud D) (Unit {0})
  unfolding get_session user_key
  update_session_summary user_id session_id title latest_run_state active_run_id = do
    get_session user_id session_id
    now ← now_of
    path ← lift (session_path hex_digest user_id session_id)
    snapshot ← session_snapshot db path
    let old = snapshot.session
    write (
        db.write_session path (record {
          session = record old {
            title = or_kept title old.title;
            latest_run_state = or_else latest_run_state old.latest_run_state;
            active_run_id = or_else active_run_id old.active_run_id;
            updated_at = now;
          };
          expires_at = kept_until retention_days now;
        }))
