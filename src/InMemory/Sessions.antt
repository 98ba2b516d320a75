-- ===== src/InMemory/Sessions.antt =====
-- InMemoryChatStore: create_session, put_session, get_session, list_sessions.
use text.Mathlib.Text.{is_lt}
use claudeagentsdk_cloudrun.Prelude.{
  ℕ, String, Bool, ◌&&◌, ◌||◌, not, List, Option, none, some, string_eq, ltb, nat_beq, length, take,
  keep, last?, if◌then◌else◌,
}
use Prim.Native.String.{compare}
use claudeagentsdk_cloudrun.Prelude.Sorting.{sort}
use claudeagentsdk_cloudrun.Errors.{error, value_error, session_not_found}
use claudeagentsdk_cloudrun.Exec.{Exec, pure, gets, modify, guard, require, ◌>>=◌, ◌>>◌}
use claudeagentsdk_cloudrun.Dict.{get, put, values}
use claudeagentsdk_cloudrun.Models.Records.{Session, SessionPage}
use claudeagentsdk_cloudrun.InMemory.State.{Store}

abbrev pub str_lt : String → String → Bool
str_lt s t = is_lt (compare s t)

unfoldable pub put_session : Session → Exec Store Session
put_session session = do
  modify (λ s. record s { sessions = put s.sessions session.id session })
  pure session

-- The two arguments are the texts of two calls of uuid4.
unfoldable pub create_session : String → String → String → String → Exec Store Session
unfolding put_session
create_session id workspace_id user_id title = do
  now ← gets (λ s. s.clock)
  put_session (record {
    id = id;
    user_id = user_id;
    workspace_id = workspace_id;
    title = title;
    created_at = now;
    updated_at = now;
    active_run_id = none;
    latest_run_state = none;
    claude_session_id = none;
    snapshot = none;
  })

-- session is not None and session.user_id == user_id
abbrev pub owned_session : String → Option Session → Option Session
owned_session user_id none = none
owned_session user_id (some session) =
    if string_eq.beq session.user_id user_id then some session else none

unfoldable pub get_session : String → String → Exec Store Session
get_session user_id session_id = do
  found ← gets (λ s. get s.sessions session_id)
  require (owned_session user_id found) (error session_not_found session_id)

-- key=lambda session: (session.updated_at, session.id), reverse=True
abbrev pub newest_first : Session → Session → Bool
newest_first a b =
    ltb b.updated_at a.updated_at || (nat_beq b.updated_at a.updated_at && str_lt b.id a.id)

abbrev before_cursor : Option String → List Session → List Session
before_cursor none sessions = sessions
before_cursor (some cursor) sessions = keep (λ s. str_lt s.id cursor) sessions

abbrev session_id_of : Option Session → Option String
session_id_of none = none
session_id_of (some session) = some session.id

abbrev session_page : ℕ → List Session → SessionPage
session_page limit sessions = record {
  sessions = take limit sessions;
  next_cursor =
      if ltb limit (length sessions) then session_id_of (last? (take limit sessions)) else none;
}

unfoldable pub list_sessions : String → Option String → ℕ → Exec Store SessionPage
unfolding sort
list_sessions user_id cursor limit = do
  guard (not (ltb limit 1)) (error value_error "limit must be positive")
  sessions ← gets (λ s.
      sort newest_first
        (keep (λ session. string_eq.beq session.user_id user_id) (values s.sessions)))
  pure (session_page limit (before_cursor cursor sessions))
