-- ===== src/Control/Calls.antt =====
-- ControlClient: the calls that it passes on to the store.
use claudeagentsdk_cloudrun.Prelude.{ℕ, String, List, Option}
use claudeagentsdk_cloudrun.Exec.{Exec}
use claudeagentsdk_cloudrun.Models.Records.{
  Uuid, ChatEvent, Session, SessionPage, Run, RunCursor, RunPage, InitialSessionResult, Time,
}
use claudeagentsdk_cloudrun.Models.Questions.{QuestionRequest}
use claudeagentsdk_cloudrun.Models.Questions.Answers.{Answers}
use claudeagentsdk_cloudrun.Ports.{ChatStore, ExecutionBackend}
use claudeagentsdk_cloudrun.Control.{start_session}

module _ {S B : Type 0} (store : ChatStore S) (backend : ExecutionBackend B) where
  abbrev pub start_initial_session :
      (String → ℕ) → Time → String → String → String → Exec (S × B) InitialSessionResult
  start_initial_session = start_session store backend

module _ {S : Type 0} (store : ChatStore S) where
  -- the two ids are those of the calls of uuid4
  abbrev pub create_session : String → String → String → String → Exec S Session
  create_session = store.create_session

  abbrev pub get_session : String → String → Exec S Session
  get_session = store.get_session

  abbrev pub list_sessions : String → Option String → ℕ → Exec S SessionPage
  list_sessions = store.list_sessions

  abbrev pub list_runs : String → String → Option RunCursor → ℕ → Exec S RunPage
  list_runs = store.list_runs

  abbrev pub list_run_history : String → String → Option RunCursor → ℕ → Exec S RunPage
  list_run_history = list_runs

  abbrev pub get_run : String → String → Uuid → Exec S Run
  get_run = store.get_run

  abbrev pub list_events : Uuid → Option String → Exec S (List ChatEvent)
  list_events = store.list_events

  abbrev pub latest_event : Uuid → Exec S (Option ChatEvent)
  latest_event = store.latest_event

  abbrev pub list_questions : String → String → Uuid → Exec S (List QuestionRequest)
  list_questions = store.list_questions

  abbrev pub answer_question :
      String → String → Uuid → String → Answers → String → Exec S QuestionRequest
  answer_question = store.answer_question

  abbrev pub create_questions_for_job : Uuid → List QuestionRequest → Exec S (List QuestionRequest)
  create_questions_for_job = store.create_questions

  abbrev pub questions_for_job : Uuid → Exec S (List QuestionRequest)
  questions_for_job = store.list_questions_for_job

  abbrev pub answer_question_for_job : Uuid → String → Answers → String → Exec S QuestionRequest
  answer_question_for_job = store.answer_question_for_job
