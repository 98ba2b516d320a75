-- ===== src/Models/Records.antt =====
-- models.py: the frozen records of sessions, runs and events. A UUID is its 128-bit integer, a
-- `datetime` a number of microseconds in UTC. `schema_version` is always "1" and has no field.
use claudeagentsdk_cloudrun.Prelude.{ℕ, String, Option, List}
use claudeagentsdk_cloudrun.Models.RunStates.{RunState}
use claudeagentsdk_cloudrun.Models.Json.{Fields}

abbrev pub Uuid : Type 0
Uuid = ℕ

abbrev pub Time : Type 0
Time = ℕ

pub record EventCursor : Type 0 where
  pub sequence : ℕ
  pub event_id : String

pub record ExecutionReference : Type 0 where
  pub backend : String
  pub name : String
  pub identity : Option String

pub record WorkspaceReference : Type 0 where
  pub object_key : String
  pub version : String
  pub sha256 : String
  pub size : ℕ

pub record SnapshotManifest : Type 0 where
  pub schema_version : String
  pub claude_sdk_version : String
  pub run_id : Uuid
  pub created_at : Time
  pub uncompressed_bytes : ℕ
  pub compressed_bytes : ℕ
  pub sha256 : String

pub record ChatEvent : Type 0 where
  pub id : String
  pub run_id : Uuid
  pub sequence : ℕ
  pub type : String
  pub occurred_at : Time
  pub payload : Fields

pub record Session : Type 0 where
  pub id : String
  pub user_id : String
  pub workspace_id : String
  pub title : String
  pub created_at : Time
  pub updated_at : Time
  pub active_run_id : Option Uuid
  pub latest_run_state : Option String
  pub claude_session_id : Option String
  pub snapshot : Option WorkspaceReference

pub record Run : Type 0 where
  pub id : Uuid
  pub user_id : String
  pub session_id : String
  pub workspace_id : String
  pub idempotency_key : String
  pub state : RunState
  pub execution : Option ExecutionReference
  pub claude_session_id : Option String
  pub snapshot : Option WorkspaceReference
  pub event_cursor : Option EventCursor
  pub created_at : Time
  pub started_at : Option Time
  pub finished_at : Option Time
  pub result : Option String
  pub error_code : Option String

pub record SessionPage : Type 0 where
  pub sessions : List Session
  pub next_cursor : Option String

-- A cursor of a page of runs, by what base64 and JSON make of its text: a creation time and a run's id, or nothing.
pub data RunCursor : Type 0 where
  position : Time → Uuid → RunCursor
  malformed : RunCursor

pub record RunPage : Type 0 where
  pub runs : List Run
  pub next_cursor : Option RunCursor

pub record InitialSessionResult : Type 0 where
  pub session : Session
  pub run : Run

pub record ReconciliationLease : Type 0 where
  pub run_id : Uuid
  pub holder : String
  pub expires_at : Time
