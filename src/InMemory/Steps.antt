-- ===== src/InMemory/Steps.antt =====
-- The store as a state machine: one step is one call of a method that writes, or time going on.
use claudeagentsdk_cloudrun.Prelude.{◌≤◌, String, ◌≡◌, true, List, Option, none, nat_eq, string_eq}
use claudeagentsdk_cloudrun.Dict.{get}
use claudeagentsdk_cloudrun.Models.RunStates.{RunState, active}
use claudeagentsdk_cloudrun.Models.Records.{Uuid, Time, Session, Run, ChatEvent, ExecutionReference}
use claudeagentsdk_cloudrun.Models.Questions.{QuestionRequest}
use claudeagentsdk_cloudrun.Models.Questions.Answers.{Answers}
use claudeagentsdk_cloudrun.InMemory.State.{Store, Callback}
use claudeagentsdk_cloudrun.InMemory.Sessions
use claudeagentsdk_cloudrun.InMemory.Runs
use claudeagentsdk_cloudrun.InMemory.Runs.Reserve
use claudeagentsdk_cloudrun.InMemory.Events
use claudeagentsdk_cloudrun.InMemory.Leases
use claudeagentsdk_cloudrun.InMemory.Questions
use claudeagentsdk_cloudrun.InMemory.Questions.Create
use claudeagentsdk_cloudrun.InMemory.Invariant.Growth.{IsNewRun, IsNewOrRetry, IsKeptFrom}

-- A step has what its caller brings as a condition: create_session a new id; put_session a session
-- that is new and has no run, or keeps its user and its slot (or frees it); a reservation an active
-- run whose id is new or that repeats its request; and reserve_run an event of the run, numbered 0.
pub data Step (s t : Store) : Type 0 where
  create_session :
      (id workspace_id user_id title : String)
      → get s.sessions id ≡ none
      → t ≡ (Sessions.create_session id workspace_id user_id title s).1
      → Step s t
  put_session :
      (x : Session)
      → IsKeptFrom x (get s.sessions x.id)
      → t ≡ (Sessions.put_session x s).1
      → Step s t
  reserve_initial_run :
      (x : Session) (run : Run) (event : ChatEvent)
      → IsNewOrRetry run (get s.runs run.id)
      → active run.state ≡ true
      → t ≡ (Reserve.reserve_initial_run x run event s).1
      → Step s t
  reserve_run :
      (run : Run) (event : ChatEvent)
      → IsNewRun s run event
      → t ≡ (Reserve.reserve_run run event s).1
      → Step s t
  save_execution :
      (r : Uuid) (execution : ExecutionReference)
      → t ≡ (Runs.save_execution r execution s).1
      → Step s t
  fail_dispatch : (r : Uuid) (code : String) → t ≡ (Runs.fail_dispatch r code s).1 → Step s t
  claim_run : (r : Uuid) (identity : String) → t ≡ (Runs.claim_run r identity s).1 → Step s t
  request_cancel : (r : Uuid) → t ≡ (Runs.request_cancel r s).1 → Step s t
  commit_terminal :
      (run : Run) (identity : String) → t ≡ (Runs.commit_terminal run identity s).1 → Step s t
  append_event : (event : ChatEvent) → t ≡ (Events.append_event event s).1 → Step s t
  subscribe :
      (r : Uuid) (cursor : Option String) (c : Callback)
      → t ≡ (Events.subscribe r cursor c s).1
      → Step s t
  unsubscribe : (r : Uuid) (c : Callback) → t ≡ (Events.unsubscribe r c s).1 → Step s t
  acquire_lease :
      (r : Uuid) (holder : String)
      → t ≡ (Leases.acquire_reconciliation_lease r holder s).1
      → Step s t
  reconcile_terminal :
      (r : Uuid) (holder : String) (state : RunState) (code : Option String)
      → t ≡ (Leases.reconcile_terminal r holder state code s).1
      → Step s t
  release_lease :
      (r : Uuid) (holder : String)
      → t ≡ (Leases.release_reconciliation_lease r holder s).1
      → Step s t
  create_questions :
      (r : Uuid) (qs : List QuestionRequest) → t ≡ (Create.create_questions r qs s).1 → Step s t
  answer_question :
      (r : Uuid) (id : String) (answers : Answers) (key : String)
      → t ≡ (Questions.answer_question_for_job r id answers key s).1
      → Step s t
  subscribe_question :
      (r : Uuid) (id : String) (c : Callback)
      → t ≡ (Questions.subscribe_question r id c s).1
      → Step s t
  unsubscribe_question :
      (r : Uuid) (id : String) (c : Callback)
      → t ≡ (Questions.unsubscribe_question r id c s).1
      → Step s t
  time_passes : (now : Time) → s.clock ≤ now → t ≡ record s { clock = now } → Step s t

pub data Reach (s : Store) : Store → Type 0 where
  here : Reach s s
  next : {t u : Store} → Reach s t → Step t u → Reach s u
