-- ===== src/Firestore/Questions.antt =====
-- FirestoreChatStore: the methods on questions.
pub mod Answers
use Prim.Native.String.{◌++◌ as str_append}
use claudeagentsdk_cloudrun.Prelude.{
  ℕ, ◌+◌, ◌*◌, String, Bool, true, false, ◌&&◌, not, List, [], ◌∷◌, ◌++◌, Option, none, some,
  nat_eq, string_eq, list_eq, option_eq, any, keep, if◌then◌else◌,
}
use claudeagentsdk_cloudrun.Errors.{
  error, value_error, key_error, question_not_found, question_ownership, question_conflict,
  question_closed,
}
use claudeagentsdk_cloudrun.Exec.{
  Exec, Result, ok, err, pure, raise, lift, gets, guard, require, attempt, ◌>>=◌, ◌>>◌,
}
use claudeagentsdk_cloudrun.Codec.{Document, day, encode_question, is_expired}
use claudeagentsdk_cloudrun.Text.{is_blank}
use claudeagentsdk_cloudrun.Models.Ids.{str}
use claudeagentsdk_cloudrun.Models.Records.{Uuid, Time, ChatEvent}
use claudeagentsdk_cloudrun.Models.Questions.{QuestionRequest, all_distinct}
use claudeagentsdk_cloudrun.Models.Questions.Batches.{validate_question_batch}
use claudeagentsdk_cloudrun.InMemory.Runs.{same_owner}
use claudeagentsdk_cloudrun.InMemory.Questions.{open_state}
use claudeagentsdk_cloudrun.InMemory.Questions.Create.{same_question, pending_event}
use claudeagentsdk_cloudrun.Firestore.Documents.{
  RunPath, RunDoc, Database, Cloud, already_exists, look, write, now_of, run_snapshot, kept_until,
}
use claudeagentsdk_cloudrun.Firestore.Runs.{get_run}
use claudeagentsdk_cloudrun.Firestore.Events.{append_event}

-- question.expires_at or now + timedelta(days=self._retention_days)
abbrev pub with_expiry : ℕ → Time → QuestionRequest → QuestionRequest
with_expiry retention_days now q = record q {
  expires_at = elim q.expires_at [ none ↦ some (now + retention_days * day) | some t ↦ some t ];
}

module _ {D : Type 0} (db : Database D) (hex_digest : String → String) (retention_days : ℕ) where
  -- _run_reference
  unfoldable pub run_reference : Uuid → Exec (Cloud D) RunPath
  unfolding is_expired
  run_reference run_id = do
    found ← look (db.find_run (str run_id))
    path ← require found (error question_not_found (str run_id))
    doc ← run_snapshot db path
    now ← now_of
    guard (not (is_expired doc.expires_at now)) (error question_not_found (str run_id))
    pure path

  -- The reads of the transaction of create_questions: what is to be written, and the results; a
  -- question that is there has to be the same.
  unfoldable pub plan_one :
      Option QuestionRequest
      → QuestionRequest
      → Exec (Cloud D) (Option QuestionRequest × QuestionRequest)
  unfolding encode_question
  plan_one (some existing) q = do
    guard (same_question existing q) (error question_conflict q.id)
    pure (none, existing)
  plan_one none q = do
    now ← now_of
    let stored = with_expiry retention_days now q
    document ← lift (encode_question stored retention_days (some now))
    pure (some document.payload, stored)

  unfoldable pub plan_batch :
      RunPath
      → List QuestionRequest
      → Exec (Cloud D) (List (Option QuestionRequest × QuestionRequest))
  unfolding plan_one
  plan_batch path [] = pure []
  plan_batch path (q ∷ qs) = do
    found ← look (db.question path q.id)
    one ← plan_one found q
    rest ← plan_batch path qs
    pure (one ∷ rest)

  abbrev write_new : RunPath → Option QuestionRequest → D → D
  write_new path none d = d
  write_new path (some q) d = db.write_question path q.id q d

  unfoldable pub write_batch : RunPath → List (Option QuestionRequest × QuestionRequest) → D → D
  write_batch path [] d = d
  write_batch path ((new, q) ∷ rest) d = write_batch path rest (write_new path new d)

  -- The identifiers of the questions that are created.
  abbrev new_ids : List (Option QuestionRequest × QuestionRequest) → List String
  new_ids [] = []
  new_ids ((none, q) ∷ rest) = new_ids rest
  new_ids ((some new, q) ∷ rest) = new.id ∷ new_ids rest

  abbrev results : List (Option QuestionRequest × QuestionRequest) → List QuestionRequest
  results [] = []
  results ((new, q) ∷ rest) = q ∷ results rest

  -- The events of the results; an error of one is ignored.
  unfoldable pub announce : Uuid → List QuestionRequest → Exec (Cloud D) (Unit {0})
  unfolding append_event
  announce run_id [] = pure tt
  announce run_id (q ∷ qs) = do
    attempt (append_event db retention_days (pending_event run_id q))
    announce run_id qs

  unfoldable pub create_questions :
      Uuid → List QuestionRequest → Exec (Cloud D) (List QuestionRequest)
  unfolding run_reference plan_batch write_batch announce
  create_questions run_id questions = do
    ordered ← lift (validate_question_batch questions)
    guard (not (any (λ q. not (nat_eq.beq q.run_id run_id)) ordered))
        (error value_error "question run IDs do not match")
    path ← run_reference run_id
    doc ← run_snapshot db path
    guard (open_state doc.run.state) (error question_closed (str run_id))
    plan ← plan_batch path ordered
    guard (all_distinct (new_ids plan)) already_exists
    write (write_batch path plan)
    announce run_id (results plan)
    pure (results plan)

  abbrev first_of_result : List QuestionRequest → Option QuestionRequest
  first_of_result [] = none
  first_of_result (q ∷ qs) = some q

  unfoldable pub create_question : QuestionRequest → Exec (Cloud D) QuestionRequest
  unfolding create_questions
  create_question q = do
    created ← create_questions q.run_id (q ∷ [])
    require (first_of_result created) (error key_error "list index out of range")

  unfoldable pub list_questions_for_job : Uuid → Exec (Cloud D) (List QuestionRequest)
  unfolding run_reference is_expired
  list_questions_for_job run_id = do
    path ← run_reference run_id
    questions ← look (db.questions_in_order path)
    now ← now_of
    pure (keep (λ q. not (is_expired q.expires_at now)) questions)

  -- A stored question that is not expired.
  abbrev pub visible_question : RunPath → String → Exec (Cloud D) QuestionRequest
  visible_question path question_id = do
    found ← look (db.question path question_id)
    question ← require found (error question_not_found question_id)
    now ← now_of
    guard (not (is_expired question.expires_at now)) (error question_not_found question_id)
    pure question

  unfoldable pub get_question_for_job : Uuid → String → Exec (Cloud D) QuestionRequest
  unfolding run_reference is_expired
  get_question_for_job run_id question_id = do
    path ← run_reference run_id
    visible_question path question_id

  unfoldable pub list_questions : String → String → Uuid → Exec (Cloud D) (List QuestionRequest)
  unfolding get_run list_questions_for_job
  list_questions user_id session_id run_id = do
    run ← get_run db hex_digest retention_days user_id session_id run_id
    guard (same_owner run user_id session_id) (error question_ownership (str run_id))
    list_questions_for_job run_id
