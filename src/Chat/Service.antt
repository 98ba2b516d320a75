-- ===== src/Chat/Service.antt =====
-- example/chat/service.py: ChatService over the control plane. A call of uuid4 is an argument, by its
-- text or its number, and `dumps` is json.dumps of a list of texts. `history` is left out.
use Prim.Native.String.{◌++◌ as str_append}
use claudeagentsdk_cloudrun.Prelude.{
  ℕ, String, not, ◌||◌, List, [], ◌∷◌, Option, none, some, any, keep, string_eq, nat_beq, length,
  if◌then◌else◌,
}
use claudeagentsdk_cloudrun.Errors.{error, value_error}
use claudeagentsdk_cloudrun.Exec.{
  Exec, Result, ok, err, pure, lift, guard, require, on_left, ◌>>=◌, ◌>>◌,
}
use claudeagentsdk_cloudrun.Text.{strip, is_blank, is_empty}
use claudeagentsdk_cloudrun.Models.Json.{Json, Fields}
use claudeagentsdk_cloudrun.Models.Records.{Uuid, Time, Run}
use claudeagentsdk_cloudrun.Models.Questions.{QuestionRequest, question_pending}
use claudeagentsdk_cloudrun.Models.Questions.Answers.{Answers}
use claudeagentsdk_cloudrun.Ports.{ChatStore, ExecutionBackend}
use claudeagentsdk_cloudrun.Control.{new_run, start_session, reserve_and_start}
use claudeagentsdk_cloudrun.Control.Calls.{
  get_session, list_questions, answer_question, get_run, list_events,
}
use claudeagentsdk_cloudrun.Chat.Events.{normalize_events}
use claudeagentsdk_cloudrun.Chat.Interactions.{InteractionState, interaction_state}

pub record ChatStartResult : Type 0 where
  pub session_id : String
  pub run_id : Uuid
  pub run : Run

-- __init__, with the identity as a text
unfoldable pub new_service : String → Result String
new_service identity =
    let user_id = strip identity in
    if is_empty user_id then err (error value_error "user_id must not be blank") else ok user_id

-- idempotency_key or str(uuid4())
abbrev key_or : Option String → String → String
key_or none drawn = drawn
key_or (some key) drawn = if is_empty key then drawn else key

abbrev values_of : Answers → List String
values_of (Answers.text s) = s ∷ []
values_of (Answers.texts ss) = ss

module _ {S B : Type 0} (store : ChatStore S) (backend : ExecutionBackend B)
    (user_id : String) where
  abbrev start_new : (String → ℕ) → Time → String → String → Exec (S × B) ChatStartResult
  start_new sha256 now prompt key = do
    result ← start_session store backend sha256 now user_id prompt key
    pure (record { session_id = result.session.id; run_id = result.run.id; run = result.run })

  abbrev start_in : Time → Uuid → String → String → String → Exec (S × B) ChatStartResult
  start_in now run_id prompt key session_id = do
    session ← on_left (get_session store user_id session_id)
    let run = record (new_run run_id session key now) { user_id = user_id }
    started ← reserve_and_start store backend run prompt now
    pure (record { session_id = session.id; run_id = started.id; run = started })

  -- `drawn` is the text of a drawn idempotency key, `run_id` the drawn number of a new run.
  unfoldable pub start :
      (String → ℕ)
      → Time
      → (drawn : String) (run_id : Uuid) (prompt : String) → Option String
      → Option String
      → Exec (S × B) ChatStartResult
  unfolding start_session reserve_and_start
  start sha256 now drawn run_id prompt session_id idempotency_key = do
    guard (not (is_blank prompt)) (error value_error "prompt must not be blank")
    let key = strip (key_or idempotency_key drawn)
    guard (not (is_empty key)) (error value_error "idempotency_key must not be blank")
    elim session_id [
      | none ↦ start_new sha256 now prompt key
      | some id ↦ start_in now run_id prompt key id
    ]

  abbrev continuation : (List String → String) → QuestionRequest → List String → String
  continuation dumps question values = str_append "前回の実行は、利用者への質問待ちのままタイムアウトしました。" (
      str_append "前回の会話コンテキストを引き継ぎ、以下の回答を反映して作業を続行してください。\n\n質問: "
        (str_append question.question (str_append "\n利用者の回答: " (dumps values))))

  unfoldable pub continue_after_question :
      (List String → String)
      → (String → ℕ)
      → Time
      → (drawn : String) (run_id : Uuid) (session_id : String) → QuestionRequest
      → Answers
      → String
      → Exec (S × B) ChatStartResult
  unfolding start
  continue_after_question dumps sha256 now drawn run_id session_id question answers key = do
    let values = values_of answers
    guard (not (nat_beq (length values) 0 || any is_blank values))
        (error value_error "question answers must not be blank")
    start sha256 now drawn run_id (continuation dumps question values) (some session_id) (some key)

module _ {S : Type 0} (store : ChatStore S) (user_id : String) where
  unfoldable pub pending_questions : String → Uuid → Exec S (List QuestionRequest)
  pending_questions session_id run_id = do
    questions ← list_questions store user_id session_id run_id
    pure (keep question_pending questions)

  abbrev pub answer : String → Uuid → String → Answers → String → Exec S QuestionRequest
  answer session_id run_id question_id answers idempotency_key =
      answer_question store user_id session_id run_id question_id answers idempotency_key

  -- interaction_state of a run's events, with the questions of the store
  unfoldable pub interaction_state_for_run :
      (String → Option Json)
      → (Json → String)
      → (Fields → Option QuestionRequest)
      → String
      → Uuid
      → Exec S InteractionState
  unfolding interaction_state normalize_events pending_questions
  interaction_state_for_run loads repr read_question session_id run_id = do
    events ← list_events store run_id none
    state ← lift (interaction_state loads repr (normalize_events read_question events))
    pending ← pending_questions session_id run_id
    pure (record state { pending_questions = pending })

  -- `_run_reference` of a run
  unfoldable pub owned_run : Run → Exec S (Uuid × String)
  owned_run run = do
    guard (string_eq.beq run.user_id user_id) (error value_error "run does not belong to user")
    pure (run.id, run.session_id)

  -- `_run_reference` of an identifier
  unfoldable pub run_reference : Uuid → Option String → Exec S (Uuid × String)
  run_reference run_id session_id = do
    session ← require session_id (error value_error "session_id is required when run is a UUID")
    guard (not (is_blank session)) (error value_error "session_id is required when run is a UUID")
    get_run store user_id session run_id
    pure (run_id, session)
