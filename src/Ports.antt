-- ===== src/Ports.antt =====
-- cas_hosting_adapter/protocols.py: the ports that the control plane and the job runner use, as
-- records of operations over the state of what implements them.
pub mod Objects
use claudeagentsdk_cloudrun.Prelude.{ℕ, String, Bool, List, Option}
use claudeagentsdk_cloudrun.Exec.{Exec}
use claudeagentsdk_cloudrun.Models.RunStates.{RunState, ExecutionState}
use claudeagentsdk_cloudrun.Models.Records.{
  Uuid, ChatEvent, Session, SessionPage, Run, RunPage, RunCursor, InitialSessionResult,
  ExecutionReference, ReconciliationLease,
}
use claudeagentsdk_cloudrun.Models.Questions.{QuestionRequest}
use claudeagentsdk_cloudrun.Models.Questions.Answers.{Answers}

pub record ChatStore (S : Type 0) : Type 0 where
  -- the two texts are those of the calls of uuid4
  pub create_session : String → String → String → String → Exec S Session
  pub get_session : String → String → Exec S Session
  pub list_sessions : String → Option String → ℕ → Exec S SessionPage
  pub list_runs : String → String → Option RunCursor → ℕ → Exec S RunPage
  pub reserve_initial_run : Session → Run → ChatEvent → Exec S InitialSessionResult
  pub reserve_run : Run → ChatEvent → Exec S Run
  pub save_execution : Uuid → ExecutionReference → Exec S Run
  pub fail_dispatch : Uuid → String → Exec S Run
  pub claim_run : Uuid → String → Exec S Bool
  pub heartbeat_run : Uuid → String → Exec S Bool
  pub get_run : String → String → Uuid → Exec S Run
  pub get_run_for_job : Uuid → Exec S Run
  pub append_event : ChatEvent → Exec S ChatEvent
  pub list_events : Uuid → Option String → Exec S (List ChatEvent)
  pub latest_event : Uuid → Exec S (Option ChatEvent)
  pub request_cancel : Uuid → Exec S Run
  pub commit_terminal : Run → String → Exec S Run
  pub acquire_reconciliation_lease : Uuid → String → Exec S (Option ReconciliationLease)
  pub reconcile_terminal : Uuid → String → RunState → Option String → Exec S Run
  pub release_reconciliation_lease : Uuid → String → Exec S (Unit {0})
  pub create_questions : Uuid → List QuestionRequest → Exec S (List QuestionRequest)
  pub list_questions_for_job : Uuid → Exec S (List QuestionRequest)
  pub list_questions : String → String → Uuid → Exec S (List QuestionRequest)
  pub answer_question_for_job : Uuid → String → Answers → String → Exec S QuestionRequest
  pub answer_question : String → String → Uuid → String → Answers → String → Exec S QuestionRequest

pub record ExecutionBackend (B : Type 0) : Type 0 where
  -- getattr(backend, "backend_name", "cloud_run")
  pub backend_name : String
  pub start : Uuid → Exec B ExecutionReference
  pub get : ExecutionReference → Exec B ExecutionState
  pub cancel : ExecutionReference → Exec B ExecutionState
