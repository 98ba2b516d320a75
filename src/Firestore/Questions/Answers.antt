-- ===== src/Firestore/Questions/Answers.antt =====
-- FirestoreChatStore: answers to questions, and their delivery to a job that waits.
use claudeagentsdk_cloudrun.Prelude.{
  ℕ, String, ◌&&◌, not, List, Option, none, some, nat_eq, string_eq, list_eq, option_eq,
  if◌then◌else◌,
}
use claudeagentsdk_cloudrun.Errors.{
  error, value_error, question_ownership, question_conflict, question_closed,
}
use claudeagentsdk_cloudrun.Exec.{Exec, pure, lift, guard, attempt, ◌>>=◌, ◌>>◌}
use claudeagentsdk_cloudrun.Codec.{is_expired}
use claudeagentsdk_cloudrun.Text.{is_blank}
use claudeagentsdk_cloudrun.Models.Records.{Uuid, Time}
use claudeagentsdk_cloudrun.Models.Questions.{QuestionRequest, QuestionState}
use claudeagentsdk_cloudrun.Models.Questions.Answers.{Answers, validate_answers}
use claudeagentsdk_cloudrun.InMemory.Runs.{same_owner}
use claudeagentsdk_cloudrun.InMemory.Questions.{open_state}
use claudeagentsdk_cloudrun.Firestore.Documents.{
  RunPath, Database, Cloud, write, now_of, run_snapshot, kept_until,
}
use claudeagentsdk_cloudrun.Firestore.Runs.{get_run}
use claudeagentsdk_cloudrun.Firestore.Events.{append_event}
use claudeagentsdk_cloudrun.InMemory.Questions.{answered_event}
use claudeagentsdk_cloudrun.Firestore.Questions.{
  run_reference, visible_question, get_question_for_job,
}

abbrev if_answered : QuestionRequest → QuestionState → Option QuestionRequest
if_answered question QuestionState.pending = none
if_answered question QuestionState.answered = some question

-- What the callback of subscribe_question is called with for a snapshot of the question.
unfoldable pub on_snapshot : Time → Option QuestionRequest → Option QuestionRequest
unfolding is_expired
on_snapshot now none = none
on_snapshot now (some question) =
    if is_expired question.expires_at now then none else if_answered question question.state

module _ {D : Type 0} (db : Database D) (hex_digest : String → String) (retention_days : ℕ) where
  -- The transaction of answer_question_for_job, from the question that is there.
  unfoldable pub answer_in :
      RunPath
      → String
      → QuestionRequest
      → List String
      → String
      → QuestionState
      → Exec (Cloud D) QuestionRequest
  answer_in path question_id question values idempotency_key QuestionState.answered = do
    guard
        (option_eq.beq question.answer_idempotency_key (some idempotency_key)
          && option_eq.beq question.answers (some values))
        (error question_conflict question_id)
    pure question
  answer_in path question_id question values idempotency_key QuestionState.pending = do
    now ← now_of
    let answered = record question {
      state = QuestionState.answered;
      answers = some values;
      answer_idempotency_key = some idempotency_key;
      answered_at = some now;
    }
    write (
        db.write_question path question_id
          (record answered { expires_at = kept_until retention_days now }))
    pure answered

  -- answered.answered_at or self._now()
  abbrev answered_time : Option Time → Time → Time
  answered_time none now = now
  answered_time (some t) now = t

  -- The event of an answer; an error of it is ignored.
  abbrev announce_answer : Uuid → String → QuestionRequest → Exec (Cloud D) (Unit {0})
  announce_answer run_id question_id answered = do
    now ← now_of
    attempt (
        append_event db retention_days
          (answered_event run_id question_id answered (answered_time answered.answered_at now)))
    pure tt

  unfoldable pub answer_question_for_job :
      Uuid → String → Answers → String → Exec (Cloud D) QuestionRequest
  unfolding run_reference answer_in append_event is_expired
  answer_question_for_job run_id question_id answers idempotency_key = do
    guard (not (is_blank idempotency_key)) (error value_error "idempotency_key must not be blank")
    path ← run_reference db hex_digest retention_days run_id
    doc ← run_snapshot db path
    guard (open_state doc.run.state) (error question_closed question_id)
    question ← visible_question db hex_digest retention_days path question_id
    values ← lift (validate_answers question answers)
    answered ← answer_in path question_id question values idempotency_key question.state
    announce_answer run_id question_id answered
    pure answered

  unfoldable pub answer_question :
      String → String → Uuid → String → Answers → String → Exec (Cloud D) QuestionRequest
  unfolding get_run answer_question_for_job
  answer_question user_id session_id run_id question_id answers idempotency_key = do
    run ← get_run db hex_digest retention_days user_id session_id run_id
    guard (same_owner run user_id session_id) (error question_ownership question_id)
    answer_question_for_job run_id question_id answers idempotency_key

  unfoldable pub get_question : String → String → Uuid → String → Exec (Cloud D) QuestionRequest
  unfolding get_run get_question_for_job
  get_question user_id session_id run_id question_id = do
    run ← get_run db hex_digest retention_days user_id session_id run_id
    guard (same_owner run user_id session_id) (error question_ownership question_id)
    get_question_for_job db hex_digest retention_days run_id question_id

  -- `subscribe_question`, up to the registration of the watch: what the callback is called with at
  -- once, where the question is answered.
  unfoldable pub subscribe_question : Uuid → String → Exec (Cloud D) (Option QuestionRequest)
  unfolding run_reference get_question_for_job
  subscribe_question run_id question_id = do
    run_reference db hex_digest retention_days run_id
    current ← get_question_for_job db hex_digest retention_days run_id question_id
    pure (if_answered current current.state)
