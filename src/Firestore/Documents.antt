-- ===== src/Firestore/Documents.antt =====
-- firestore_chat_store.py: the documents, and what the store asks of Firestore. Firestore is not part
-- of the repository: `Database D` is any state D with reads, writes and queries of documents, which
-- are typed here by what the codec reads of them. A transaction is one step, since Firestore makes it
-- again until nothing that it read has changed; what it would write is checked before the first
-- write, since a transaction that fails writes nothing. `_now` gives one time within a method.
use claudeagentsdk_cloudrun.Prelude.{ℕ, ◌+◌, ◌*◌, String, List, Option, some}
use claudeagentsdk_cloudrun.Errors.{Error, error, session_not_found, other}
use claudeagentsdk_cloudrun.Exec.{Exec, Result, ok, err, gets, modify, guard, require, ◌>>=◌}
use claudeagentsdk_cloudrun.Codec.{user_key, day}
use claudeagentsdk_cloudrun.Models.Ids.{str}
use claudeagentsdk_cloudrun.Models.Records.{Uuid, Time, Session, Run, ChatEvent}
use claudeagentsdk_cloudrun.Models.Questions.{QuestionRequest}
use claudeagentsdk_cloudrun.Fakes.Objects.{absent}

-- users/{user}/sessions/{session}, and …/runs/{run}
pub record SessionPath : Type 0 where
  pub user : String
  pub session : String

pub record RunPath : Type 0 where
  pub parent : SessionPath
  pub run : String

pub record SessionDoc : Type 0 where
  pub session : Session
  pub expires_at : Option Time

pub record RunDoc : Type 0 where
  pub run : Run
  pub expires_at : Option Time
  pub next_sequence : Option ℕ
  pub execution_owner : Option String
  pub heartbeat_at : Option Time
  pub cancel_requested_at : Option Time

pub record EventDoc : Type 0 where
  pub event : ChatEvent
  pub expires_at : Option Time

pub record LeaseDoc : Type 0 where
  pub holder : String
  pub expires_at : Time

-- The document of a question has one field `expires_at`, which the codec sets; so it is the
-- question itself.
pub record Database (D : Type 0) : Type 0 where
  pub session : SessionPath → D → Option SessionDoc
  pub run : RunPath → D → Option RunDoc
  pub event : RunPath → String → D → Option EventDoc
  pub question : RunPath → String → D → Option QuestionRequest
  pub lease : RunPath → D → Option LeaseDoc
  pub write_session : SessionPath → SessionDoc → D → D
  pub write_run : RunPath → RunDoc → D → D
  pub write_event : RunPath → String → EventDoc → D → D
  pub write_question : RunPath → String → QuestionRequest → D → D
  pub write_lease : RunPath → LeaseDoc → D → D
  pub delete_lease : RunPath → D → D
  -- collection_group("runs").where("id", "==", …).limit(1)
  pub find_run : String → D → Option RunPath
  -- the runs of a session: where("idempotency_key", "==", …).limit(1)
  pub find_request : SessionPath → String → D → Option RunDoc
  -- the ordered queries of the lists, from their start or after a cursor
  pub newest_sessions : String → Option (Time × String) → D → List SessionDoc
  pub oldest_runs : SessionPath → Option (Time × String) → D → List RunDoc
  pub events_in_order : RunPath → D → List EventDoc
  pub newest_event : RunPath → D → Option EventDoc
  pub questions_in_order : RunPath → D → List QuestionRequest

pub record Cloud (D : Type 0) : Type 0 where
  pub documents : D
  pub clock : Time

-- What Firestore raises where a created document exists, or an updated one does not.
abbrev pub already_exists : Error
already_exists = error other "ALREADY_EXISTS"

abbrev pub not_found : Error
not_found = error other "NOT_FOUND"

module _ {D : Type 0} where
  abbrev pub look : {A : Type 0} → (D → A) → Exec (Cloud D) A
  look query = gets (λ c. query c.documents)

  abbrev pub write : (D → D) → Exec (Cloud D) (Unit {0})
  write change = modify (λ c. record c { documents = change c.documents })

  -- self._now()
  abbrev pub now_of : Exec (Cloud D) Time
  now_of = gets (λ c. c.clock)

  module _ (db : Database D) where
    -- The run's document, whichever session it belongs to.
    abbrev pub run_reference : Uuid → Exec (Cloud D) RunPath
    run_reference run_id = do
      found ← look (db.find_run (str run_id))
      require found (error session_not_found "run was not found")

    -- The document that a query gave, which may be gone by now.
    abbrev pub run_snapshot : RunPath → Exec (Cloud D) RunDoc
    run_snapshot path = do found ← look (db.run path); require found not_found

    abbrev pub session_snapshot : SessionPath → Exec (Cloud D) SessionDoc
    session_snapshot path = do found ← look (db.session path); require found not_found

    abbrev pub guard_new_run : RunPath → Exec (Cloud D) (Unit {0})
    guard_new_run path = do found ← look (db.run path); guard (absent found) already_exists

    abbrev pub guard_new_event : RunPath → String → Exec (Cloud D) (Unit {0})
    guard_new_event path id = do
      found ← look (db.event path id)
      guard (absent found) already_exists

-- now + timedelta(days=self._retention_days)
abbrev pub kept_until : ℕ → Time → Option Time
kept_until retention_days now = some (now + retention_days * day)

-- self._sessions(user_id).document(session_id)
abbrev pub session_path : (String → String) → String → String → Result SessionPath
session_path hex_digest user_id session_id = elim (user_key hex_digest user_id) [
  | err e ↦ err e
  | ok key ↦ ok (record { user = key; session = session_id })
]

abbrev pub run_path : SessionPath → Uuid → RunPath
run_path parent run_id = record { parent = parent; run = str run_id }
