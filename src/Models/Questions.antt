-- ===== src/Models/Questions.antt =====
-- models.py: questions, their validators and the checks on answers and batches.
pub mod Answers
pub mod Batches
pub mod Inputs
use claudeagentsdk_cloudrun.Prelude.{
  ℕ, ◌+◌, String, ◌≡◌, refl, ◌↔◌, Bool, true, false, not, ◌&&◌, ◌||◌, List, [], ◌∷◌, Option, none,
  some, arith, map, Eq, nat_eq, string_eq, list_eq, ltb, leb, nat_beq, if◌then◌else◌, length, all,
  any,
}
use claudeagentsdk_cloudrun.Prelude.Sorting.{sort}
use claudeagentsdk_cloudrun.Errors.{Error, error, value_error, validation}
use claudeagentsdk_cloudrun.Exec.{Result, ok, err}
use claudeagentsdk_cloudrun.Text
use claudeagentsdk_cloudrun.Text.{strip, is_blank}
use claudeagentsdk_cloudrun.Models.Records.{Uuid, Time}
use claudeagentsdk_cloudrun.Models.Json
use claudeagentsdk_cloudrun.Models.Json.{Json, Fields, Items}

pub data QuestionState : Type 0 where
  pending answered : QuestionState

pub record QuestionOption : Type 0 where
  pub label : String
  pub description : String

pub record QuestionRequest : Type 0 where
  pub id : String
  pub run_id : Uuid
  pub ordinal : ℕ
  pub question : String
  pub header : String
  pub options : List QuestionOption
  pub multi_select : Bool
  pub state : QuestionState
  pub answers : Option (List String)
  pub answer_idempotency_key : Option String
  pub idempotency_key : String
  pub created_at : Time
  pub answered_at : Option Time
  pub expires_at : Option Time

abbrev pub option_beq : QuestionOption → QuestionOption → Bool
option_beq o p = string_eq.beq o.label p.label && string_eq.beq o.description p.description

pub option_beq_iff : (o p : QuestionOption) → (option_beq o p ≡ true) ↔ (o ≡ p)
option_beq_iff o p = (
  λ h.
      ground
        (arith, string_eq.beq_iff o.label p.label, string_eq.beq_iff o.description p.description),
  λ h.
      ground
        (arith, string_eq.beq_iff o.label p.label, string_eq.beq_iff o.description p.description),
)

instance abbrev pub question_option_eq : Eq QuestionOption
question_option_eq = record { beq = option_beq; beq_iff = option_beq_iff }

-- question.state is QuestionState.PENDING
abbrev pub is_pending : QuestionState → Bool
is_pending pending = true
is_pending answered = false

abbrev pub question_pending : QuestionRequest → Bool
question_pending q = is_pending q.state

module _ {A : Type 0} ⦃e : Eq A⦄ where
  -- x in xs
  abbrev pub contains : List A → A → Bool
  contains [] x = false
  contains (y ∷ ys) x = e.beq y x || contains ys x

  -- len(set(xs)) == len(xs)
  abbrev pub all_distinct : List A → Bool
  all_distinct [] = true
  all_distinct (x ∷ xs) = not (contains xs x) && all_distinct xs

-- QuestionRequest.answer: `none` is Python's None; one text, or the list.
pub data Answer : Type 0 where
  one : String → Answer
  several : List String → Answer

unfoldable pub answer_of : Bool → Option (List String) → Option Answer
answer_of multi none = none
answer_of true (some values) = some (several values)
answer_of false (some []) = some (several [])
answer_of false (some (value ∷ values)) = some (one value)

unfoldable pub answer : QuestionRequest → Option Answer
unfolding answer_of
answer q = answer_of q.multi_select q.answers

abbrev option_json : QuestionOption → Json
option_json o = Json.obj (
    Json.field "label" (Json.str o.label)
      (Json.field "description" (Json.str o.description) Json.end))

abbrev options_json : List QuestionOption → Items
options_json [] = Json.nil
options_json (o ∷ os) = Json.cons (option_json o) (options_json os)

abbrev state_json : QuestionState → Json
state_json pending = Json.str "pending"
state_json answered = Json.str "answered"

-- question.model_dump(mode="json"), the run's UUID by its text.
unfoldable pub dump : (Uuid → String) → QuestionRequest → Fields
dump str_uuid q = Json.field "id" (Json.str q.id) (
    Json.field "run_id" (Json.str (str_uuid q.run_id)) (
      Json.field "ordinal" (Json.num q.ordinal) (
        Json.field "question" (Json.str q.question) (
          Json.field "header" (Json.str q.header) (
            Json.field "options" (Json.arr (options_json q.options)) (
              Json.field "multi_select" (Json.bool q.multi_select) (
                Json.field "state" (state_json q.state) (
                  Json.field "answers" (Json.of_option (λ a. Json.arr (Json.of_texts a)) q.answers)
                    (Json.field "answer_idempotency_key"
                      (Json.of_option Json.str q.answer_idempotency_key)
                      (Json.field "idempotency_key" (Json.str q.idempotency_key) (
                        Json.field "created_at" (Json.time q.created_at) (
                          Json.field "answered_at" (Json.of_option Json.time q.answered_at) (
                            Json.field "expires_at" (Json.of_option Json.time q.expires_at)
                              Json.end)))))))))))))
