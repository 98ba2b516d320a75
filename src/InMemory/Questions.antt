-- ===== src/InMemory/Questions.antt =====
-- InMemoryChatStore: the methods on questions.
pub mod Create
pub mod Once
use claudeagentsdk_cloudrun.Prelude.{
  ℕ, String, Bool, true, false, ◌&&◌, ◌||◌, not, List, [], ◌∷◌, ◌++◌, Option, none, some, Eq,
  nat_eq, string_eq, list_eq, option_eq, pair_eq, ltb, keep, if◌then◌else◌,
}
use claudeagentsdk_cloudrun.Prelude.Sorting.{sort}
use claudeagentsdk_cloudrun.Errors.{
  error, value_error, question_not_found, question_ownership, question_conflict, question_closed,
}
use claudeagentsdk_cloudrun.Exec.{
  Exec, Result, ok, err, pure, raise, lift, gets, modify, guard, require, ◌>>=◌, ◌>>◌,
}
use claudeagentsdk_cloudrun.Dict.{Dict, get, put, values}
use claudeagentsdk_cloudrun.Text.{is_blank}
use claudeagentsdk_cloudrun.Models.RunStates.{RunState, terminal}
use claudeagentsdk_cloudrun.Models.Ids.{str}
use claudeagentsdk_cloudrun.Models.Records.{Uuid, Time, Run, ChatEvent}
use claudeagentsdk_cloudrun.Models.Questions.{QuestionRequest, QuestionState, is_pending, dump}
use claudeagentsdk_cloudrun.Models.Questions.Answers.{Answers, validate_answers}
use claudeagentsdk_cloudrun.Models.Questions.Batches.{by_ordinal}
use claudeagentsdk_cloudrun.InMemory.State.{Store, Callback, question_to, or_nil}
use claudeagentsdk_cloudrun.InMemory.Runs.{same_owner}
use claudeagentsdk_cloudrun.InMemory.Events.{append_event, list_remove}

-- question.expires_at is None or question.expires_at > now
abbrev pub visible : Time → QuestionRequest → Bool
visible now q = elim q.expires_at [ none ↦ true | some expires_at ↦ ltb now expires_at ]

-- The states in which a run takes questions and answers.
abbrev pub open_state : RunState → Bool
open_state RunState.requested = true
open_state RunState.dispatching = true
open_state RunState.pending = true
open_state RunState.running = true
open_state _ = false

-- self._questions.get(run_id, {}).get(question_id)
abbrev pub question_in : Store → Uuid → String → Option QuestionRequest
question_in s run_id question_id = get (or_nil (get s.questions run_id)) question_id

abbrev pub visible_only : Time → Option QuestionRequest → Option QuestionRequest
visible_only now none = none
visible_only now (some q) = if visible now q then some q else none

unfoldable pub list_questions_for_job : Uuid → Exec Store (List QuestionRequest)
unfolding sort
list_questions_for_job run_id = do
  found ← gets (λ s. get s.runs run_id)
  require found (error question_not_found (str run_id))
  gets (λ s. keep (visible s.clock) (sort by_ordinal (values (or_nil (get s.questions run_id)))))

unfoldable pub get_question_for_job : Uuid → String → Exec Store QuestionRequest
get_question_for_job run_id question_id = do
  found ← gets (λ s. visible_only s.clock (question_in s run_id question_id))
  require found (error question_not_found question_id)

unfoldable pub list_questions : String → String → Uuid → Exec Store (List QuestionRequest)
unfolding list_questions_for_job
list_questions user_id session_id run_id = do
  found ← gets (λ s. get s.runs run_id)
  run ← require found (error question_not_found (str run_id))
  guard (same_owner run user_id session_id) (error question_ownership (str run_id))
  list_questions_for_job run_id

-- for callback in callbacks: callback(answered)
unfoldable pub notify : List Callback → QuestionRequest → Exec Store (Unit {0})
notify [] question = pure tt
notify (callback ∷ callbacks) question = do
  modify (λ s. record s { delivered = s.delivered ++ question_to callback question ∷ [] })
  notify callbacks question

abbrev pub answered_event : Uuid → String → QuestionRequest → Time → ChatEvent
answered_event run_id question_id answered now = record {
  id = Prim.Native.String.◌++◌ "question_answered:" question_id;
  run_id = run_id;
  sequence = 0;
  type = "question_answered";
  occurred_at = now;
  payload = dump str answered;
}

-- What follows when the question waits, or has been answered already.
unfoldable pub answer_in :
    Uuid
    → String
    → QuestionRequest
    → List String
    → String
    → QuestionState
    → Exec Store QuestionRequest
unfolding notify append_event
answer_in run_id question_id question values key QuestionState.answered =
    if option_eq.beq question.answer_idempotency_key (some key)
      && option_eq.beq question.answers (some values)
    then pure question
    else raise (error question_conflict question_id)
answer_in run_id question_id question values key QuestionState.pending = do
  now ← gets (λ s. s.clock)
  let answered = record question {
    state = QuestionState.answered;
    answers = some values;
    answer_idempotency_key = some key;
    answered_at = some now;
  }
  modify (λ s. record s {
    questions = put s.questions run_id (put (or_nil (get s.questions run_id)) question_id answered);
  })
  callbacks ← gets (λ s. or_nil (get s.question_subscriptions (run_id, question_id)))
  append_event (answered_event run_id question_id answered now)
  notify callbacks answered
  pure answered

-- _answer_question
unfoldable pub answer_question_for_job :
    Uuid → String → Answers → String → Exec Store QuestionRequest
unfolding answer_in
answer_question_for_job run_id question_id answers idempotency_key = do
  guard (not (is_blank idempotency_key)) (error value_error "idempotency_key must not be blank")
  found ← gets (λ s. get s.runs run_id)
  run ← require found (error question_not_found question_id)
  here ← gets (λ s. visible_only s.clock (question_in s run_id question_id))
  question ← require here (error question_not_found question_id)
  guard (open_state run.state) (error question_closed question_id)
  values ← lift (validate_answers question answers)
  answer_in run_id question_id question values idempotency_key question.state

abbrev pub owned_run : String → String → Option Run → Option Run
owned_run user_id session_id none = none
owned_run user_id session_id (some run) =
    if same_owner run user_id session_id then some run else none

unfoldable pub answer_question :
    String → String → Uuid → String → Answers → String → Exec Store QuestionRequest
unfolding answer_question_for_job
answer_question user_id session_id run_id question_id answers idempotency_key = do
  found ← gets (λ s. owned_run user_id session_id (get s.runs run_id))
  require found (error question_ownership question_id)
  answer_question_for_job run_id question_id answers idempotency_key

unfoldable pub get_question : String → String → Uuid → String → Exec Store QuestionRequest
unfolding get_question_for_job
get_question user_id session_id run_id question_id = do
  found ← gets (λ s. owned_run user_id session_id (get s.runs run_id))
  require found (error question_ownership question_id)
  get_question_for_job run_id question_id

unfoldable pub subscribe_question : Uuid → String → Callback → Exec Store (Unit {0})
unfolding get_question_for_job notify
subscribe_question run_id question_id callback = do
  question ← get_question_for_job run_id question_id
  if is_pending question.state then pure tt else notify (callback ∷ []) question
  modify (λ s. record s {
    question_subscriptions =
        put s.question_subscriptions (run_id, question_id)
          (or_nil (get s.question_subscriptions (run_id, question_id)) ++ callback ∷ []);
  })

abbrev pub write_subscribers : Uuid → String → Result (List Callback) → Exec Store (Unit {0})
write_subscribers run_id question_id (err e) = pure tt
write_subscribers run_id question_id (ok rest) = modify (λ s. record s {
  question_subscriptions = put s.question_subscriptions (run_id, question_id) rest;
})

-- The function that `subscribe_question` returns. It does nothing where the callback is absent.
unfoldable pub unsubscribe_question : Uuid → String → Callback → Exec Store (Unit {0})
unfolding list_remove
unsubscribe_question run_id question_id callback = do
  callbacks ← gets (λ s. or_nil (get s.question_subscriptions (run_id, question_id)))
  write_subscribers run_id question_id (list_remove callbacks callback)
