-- ===== src/Models/Questions/Batches.antt =====
-- models.py: validate_question_batch and the validators of a new question.
pub mod Order
use claudeagentsdk_cloudrun.Prelude.{
  ℕ, String, ◌≡◌, refl, Bool, true, false, not, ◌&&◌, ◌||◌, List, [], ◌∷◌, Option, arith, map,
  nat_eq, string_eq, ltb, leb, if◌then◌else◌, length, any,
}
use claudeagentsdk_cloudrun.Prelude.Sorting.{sort}
use claudeagentsdk_cloudrun.Errors.{error, value_error}
use claudeagentsdk_cloudrun.Exec.{Result, ok, err}
use claudeagentsdk_cloudrun.Models.Questions.{QuestionRequest, all_distinct}

abbrev pub ordinals : List QuestionRequest → List ℕ
ordinals = map (λ q. q.ordinal)

abbrev pub by_ordinal : QuestionRequest → QuestionRequest → Bool
by_ordinal q r = ltb q.ordinal r.ordinal

unfoldable pub validate_question_batch : List QuestionRequest → Result (List QuestionRequest)
unfolding sort
validate_question_batch questions =
    if not (leb 1 (length questions) && leb (length questions) 4)
    then err (error value_error "one SDK question request must contain between 1 and 4 questions")
    else if not (all_distinct (ordinals questions)) || any (λ n. ltb 4 n) (ordinals questions)
    then err (error value_error "question ordinals must be unique")
    else ok (sort by_ordinal questions)
