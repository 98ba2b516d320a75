-- ===== src/InMemory/Questions/Create.antt =====
-- InMemoryChatStore: create_questions. The dictionary of the run's questions is written in place,
-- so what the loop stored before a conflict stays.
use claudeagentsdk_cloudrun.Prelude.{
  String, Bool, true, ◌&&◌, not, List, [], ◌∷◌, ◌++◌, Option, none, some, nat_eq, string_eq,
  list_eq, any, if◌then◌else◌,
}
use claudeagentsdk_cloudrun.Errors.{
  error, value_error, question_not_found, question_conflict, question_closed, key_error,
}
use claudeagentsdk_cloudrun.Exec.{
  Exec, pure, raise, lift, gets, modify, guard, require, ◌>>=◌, ◌>>◌,
}
use claudeagentsdk_cloudrun.Dict.{Dict, get, put}
use claudeagentsdk_cloudrun.Models.Ids.{str}
use claudeagentsdk_cloudrun.Models.Records.{Uuid, ChatEvent}
use claudeagentsdk_cloudrun.Models.Questions.{QuestionRequest, question_option_eq, dump}
use claudeagentsdk_cloudrun.Models.Questions.Batches.{validate_question_batch}
use claudeagentsdk_cloudrun.InMemory.State.{Store, or_nil}
use claudeagentsdk_cloudrun.InMemory.Events.{append_event}
use claudeagentsdk_cloudrun.InMemory.Questions.{open_state}

-- existing.question == question.question and existing.options == question.options
abbrev pub same_question : QuestionRequest → QuestionRequest → Bool
same_question existing q =
    string_eq.beq existing.question q.question && list_eq.beq existing.options q.options

-- The loop over the ordered batch: the dictionary so far, the results and the new questions. The
-- third part is the id of the question that conflicts, where one does.
pub record Batch : Type 0 where
  pub current : Dict String QuestionRequest
  pub result : List QuestionRequest
  pub new : List QuestionRequest

unfoldable pub store_one : Batch → Option QuestionRequest → QuestionRequest → Batch × Bool
store_one b none q = (
  record { current = put b.current q.id q; result = b.result ++ q ∷ []; new = b.new ++ q ∷ [] },
  true,
)
store_one b (some existing) q =
    (record b { result = b.result ++ existing ∷ [] }, same_question existing q)

unfoldable pub store_batch : Batch → List QuestionRequest → Batch × Option String
unfolding store_one
store_batch b [] = (b, none)
store_batch b (q ∷ qs) =
    let step = store_one b (get b.current q.id) q in
    let rest = store_batch step.0 qs in if step.1 then rest else (b, some q.id)

abbrev pub pending_event : Uuid → QuestionRequest → ChatEvent
pending_event run_id q = record {
  id = Prim.Native.String.◌++◌ "question_pending:" q.id;
  run_id = run_id;
  sequence = 0;
  type = "question_pending";
  occurred_at = q.created_at;
  payload = dump str q;
}

unfoldable pub announce : Uuid → List QuestionRequest → Exec Store (Unit {0})
unfolding append_event
announce run_id [] = pure tt
announce run_id (q ∷ qs) = do append_event (pending_event run_id q); announce run_id qs

abbrev pub conflict_or : Option String → Exec Store (Unit {0})
conflict_or none = pure tt
conflict_or (some question_id) = raise (error question_conflict question_id)

unfoldable pub create_questions : Uuid → List QuestionRequest → Exec Store (List QuestionRequest)
unfolding store_batch announce
create_questions run_id questions = do
  ordered ← lift (validate_question_batch questions)
  guard (not (any (λ q. not (nat_eq.beq q.run_id run_id)) ordered))
      (error value_error "question run IDs do not match")
  found ← gets (λ s. get s.runs run_id)
  run ← require found (error question_not_found (str run_id))
  guard (open_state run.state) (error question_closed (str run_id))
  current ← gets (λ s. or_nil (get s.questions run_id))
  let done = store_batch (record { current = current; result = []; new = [] }) ordered
  modify (λ s. record s { questions = put s.questions run_id done.0.current })
  conflict_or done.1
  announce run_id done.0.new
  pure done.0.result

abbrev first_of_result : List QuestionRequest → Option QuestionRequest
first_of_result [] = none
first_of_result (q ∷ qs) = some q

unfoldable pub create_question : QuestionRequest → Exec Store QuestionRequest
unfolding create_questions
create_question q = do
  created ← create_questions q.run_id (q ∷ [])
  require (first_of_result created) (error key_error "list index out of range")
