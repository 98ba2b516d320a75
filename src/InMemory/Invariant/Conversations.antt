-- ===== src/InMemory/Invariant/Conversations.antt =====
-- The methods on questions keep the invariant: what they append to the run's log is numbered.
use claudeagentsdk_cloudrun.Prelude.{
  String, List, [], ◌∷◌, Option, none, some, nat_eq, string_eq, option_eq,
}
use claudeagentsdk_cloudrun.Exec.{modify}
use claudeagentsdk_cloudrun.Exec.Keeps.{Keeps, Keeps-bind, keeps_rules}
use claudeagentsdk_cloudrun.Dict.{Dict}
use claudeagentsdk_cloudrun.Models.Records.{Uuid, ChatEvent}
use claudeagentsdk_cloudrun.Models.Questions.{QuestionRequest, QuestionState}
use claudeagentsdk_cloudrun.Models.Questions.Answers.{Answers}
use claudeagentsdk_cloudrun.InMemory.State.{Store, Callback}
use claudeagentsdk_cloudrun.InMemory.Events.{append_event}
use claudeagentsdk_cloudrun.InMemory.Questions.{answer_in, answer_question_for_job, notify}
use claudeagentsdk_cloudrun.InMemory.Questions.Create.{
  create_questions, conflict_or, announce, pending_event,
}
use claudeagentsdk_cloudrun.InMemory.Invariant.{IsWf}
use claudeagentsdk_cloudrun.InMemory.Invariant.Growth.{append_event-IsWf}

append-Keeps : (e : ChatEvent) → Keeps IsWf (append_event e)
append-Keeps e = record { at = append_event-IsWf e }

pub notify-Keeps : (cs : List Callback) (q : QuestionRequest) → Keeps IsWf (notify cs q)
unfolding notify
notify-Keeps [] q = record { at = λ s inv. inv }
notify-Keeps (c ∷ cs) q = record { at = λ s inv. (notify-Keeps cs q).at _ inv }

announce-Keeps : (r : Uuid) (qs : List QuestionRequest) → Keeps IsWf (announce r qs)
unfolding announce
announce-Keeps r [] = record { at = λ s inv. inv }
announce-Keeps r (q ∷ qs) =
    Keeps-bind (append_event (pending_event r q)) _ (append-Keeps _) (λ _. announce-Keeps r qs)

conflict-Keeps : (o : Option String) → Keeps IsWf (conflict_or o)
conflict-Keeps none = search keeps_rules
conflict-Keeps (some id) = search keeps_rules

-- A write to the questions alone.
questions-Keeps :
    (f : Store → Dict Uuid (Dict String QuestionRequest))
    → Keeps IsWf (modify (λ s. record s { questions = f s }))
questions-Keeps f = record { at = λ s inv. inv }

pub create_questions-Keeps :
    (r : Uuid) (qs : List QuestionRequest) → Keeps IsWf (create_questions r qs)
unfolding create_questions
create_questions-Keeps r qs =
    search (keeps_rules, announce-Keeps, conflict-Keeps, questions-Keeps) depth 12

answer_in-Keeps :
    (r : Uuid) (id : String) (q : QuestionRequest) (values : List String) (key : String)
    (state : QuestionState)
    → Keeps IsWf (answer_in r id q values key state)
unfolding answer_in
answer_in-Keeps r id q values key QuestionState.answered = search keeps_rules
answer_in-Keeps r id q values key QuestionState.pending =
    search (keeps_rules, append-Keeps, notify-Keeps, questions-Keeps) depth 12

pub answer_question_for_job-Keeps :
    (r : Uuid) (id : String) (answers : Answers) (key : String)
    → Keeps IsWf (answer_question_for_job r id answers key)
unfolding answer_question_for_job
answer_question_for_job-Keeps r id answers key = search (keeps_rules, answer_in-Keeps) depth 12
