-- ===== src/Models/Questions/Answers.antt =====
-- models.py: QuestionRequest.validate_answers, and what an accepted answer looks like.
pub mod Accepted
use claudeagentsdk_cloudrun.Prelude.{
  ℕ, String, ◌≡◌, refl, Bool, true, false, not, ◌&&◌, List, [], ◌∷◌, arith, map, string_eq, nat_beq,
  if◌then◌else◌, length, all, ◌⊎◌, inl, inr, All,
}
use claudeagentsdk_cloudrun.Errors.{error, value_error}
use claudeagentsdk_cloudrun.Exec.{Result, ok, err}
use claudeagentsdk_cloudrun.Text.{strip, is_blank}
use claudeagentsdk_cloudrun.Models.Questions.{
  QuestionOption, QuestionRequest, contains, all_distinct,
}

-- str | list[str]
pub data Answers : Type 0 where
  text : String → Answers
  texts : List String → Answers

abbrev raw : Answers → List String
raw (text s) = s ∷ []
raw (texts ss) = ss

unfoldable pub normalize : List String → List String
normalize [] = []
normalize (s ∷ ss) = let rest = normalize ss in if is_blank s then rest else strip s ∷ rest

abbrev pub labels : List QuestionOption → List String
labels = map (λ o. o.label)

unfoldable pub check_answers : List String → Bool → List String → Result (List String)
check_answers known multi_select [] = err (error value_error "answer must not be blank")
check_answers known multi_select (v ∷ vs) =
    if not (all_distinct (v ∷ vs))
    then err (error value_error "answers must not contain duplicates")
    else if all (contains known) (v ∷ vs)
    then (if not multi_select && not (nat_beq (length (v ∷ vs)) 1)
        then err (error value_error "single-select question accepts exactly one answer")
        else ok (v ∷ vs))
    else if not (nat_beq (length (v ∷ vs)) 1)
    then err (error value_error "free-text answer must contain exactly one value")
    else ok (v ∷ vs)

unfoldable pub validate_answers : QuestionRequest → Answers → Result (List String)
unfolding check_answers normalize
validate_answers q values = check_answers (labels q.options) q.multi_select (normalize (raw values))
