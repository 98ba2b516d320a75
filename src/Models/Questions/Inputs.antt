-- ===== src/Models/Questions/Inputs.antt =====
-- models.py: the validators of a question and its options, derive_question_id and
-- QuestionRequest.from_input. What pydantic checks before a validator is written out; its errors
-- are ValueErrors.
pub mod Offers
use Prim.Native.String.{◌++◌}
use claudeagentsdk_cloudrun.Prelude.{
  ℕ, ◌/◌, ◌^◌, String, Bool, true, false, not, ◌&&◌, List, [], ◌∷◌, Option, none, string_eq, leb,
  ltb, length, if◌then◌else◌,
}
use claudeagentsdk_cloudrun.Errors.{Error, error, value_error}
use claudeagentsdk_cloudrun.Exec.{Result, ok, err}
use claudeagentsdk_cloudrun.Text
use claudeagentsdk_cloudrun.Text.{strip, is_blank, decimal}
use claudeagentsdk_cloudrun.Models.Records.{Uuid, Time}
use claudeagentsdk_cloudrun.Models.Ids.{Namespace, prefix, str, hex}
use claudeagentsdk_cloudrun.Models.Questions.{
  QuestionOption, QuestionRequest, QuestionState, all_distinct,
}
use claudeagentsdk_cloudrun.Models.Questions.Answers.{labels}

abbrev pub invalid : String → Error
invalid message = error value_error message

-- The text that is hashed for a question.
unfoldable pub question_text : Uuid → String → ℕ → String
unfolding prefix str strip decimal
question_text run_id request_key ordinal =
    prefix Namespace.question
    ++ ("\0" ++ (str run_id ++ ("\0" ++ (strip request_key ++ ("\0" ++ decimal ordinal)))))

unfoldable pub derive_question_id : (String → ℕ) → Uuid → String → ℕ → Result String
unfolding question_text hex
derive_question_id sha256 run_id request_key ordinal =
    if is_blank request_key
    then err (invalid "request_key must not be blank")
    else if ltb ordinal 1
    then err (invalid "ordinal must be positive")
    else ok ("question-" ++ hex 32 (sha256 (question_text run_id request_key ordinal) / 2 ^ 128))

-- min_length=1, max_length=n, and the validators of labels and texts: the text without the white
-- space at its ends.
unfoldable pub checked_text : ℕ → String → Result String
unfolding strip
checked_text max_length s =
    if leb 1 (Text.length s) && leb (Text.length s) max_length && not (is_blank s)
    then ok (strip s)
    else err (invalid "text must not be blank")

abbrev pub short : ℕ → String → Bool
short max_length s = leb (Text.length s) max_length

abbrev pub labelled : String → Result String → Result QuestionOption
labelled description (err e) = err e
labelled description (ok label) = ok (record { label = label; description = description })

unfoldable pub new_option : String → String → Result QuestionOption
unfolding checked_text
new_option label description =
    if short 4000 description
    then labelled description (checked_text 1000 label)
    else err (invalid "description is too long")

abbrev pub both :
    Result QuestionOption → Result (List QuestionOption) → Result (List QuestionOption)
both (err e) rest = err e
both (ok o) (err e) = err e
both (ok o) (ok os) = ok (o ∷ os)

-- [QuestionOption.model_validate(option) for option in options], of label and description
unfoldable pub new_options : List (String × String) → Result (List QuestionOption)
unfolding new_option
new_options [] = ok []
new_options ((label, description) ∷ options) =
    both (new_option label description) (new_options options)

abbrev pub can_offer : List QuestionOption → Bool
can_offer options =
    leb 2 (length options) && leb (length options) 4 && all_distinct (labels options)

-- The model's own validation, of texts that were checked.
abbrev pub new_question :
    String
    → Uuid
    → ℕ
    → Result String
    → String
    → List QuestionOption
    → Bool
    → Result String
    → Time
    → Option Time
    → Result QuestionRequest
new_question id run_id ordinal (ok question) header options multi_select (ok key) created_at
      expires_at =
    if leb 1 ordinal && short 200 header && can_offer options
    then ok (record {
      id = id;
      run_id = run_id;
      ordinal = ordinal;
      question = question;
      header = header;
      options = options;
      multi_select = multi_select;
      state = QuestionState.pending;
      answers = none;
      answer_idempotency_key = none;
      idempotency_key = key;
      created_at = created_at;
      answered_at = none;
      expires_at = expires_at;
    })
    else err (invalid "question is not valid")
new_question id run_id ordinal (ok question) header options multi_select (err e) created_at
      expires_at =
    err e
new_question id run_id ordinal (err e) header options multi_select key created_at expires_at = err e

abbrev pub with_options :
    Result String
    → Result (List QuestionOption)
    → (String → List QuestionOption → Result QuestionRequest)
    → Result QuestionRequest
with_options (err e) options f = err e
with_options (ok id) (err e) f = err e
with_options (ok id) (ok options) f = f id options

unfoldable pub from_input :
    (String → ℕ)
    → Uuid
    → String
    → ℕ
    → String
    → String
    → List (String × String)
    → Bool
    → Time
    → Option Time
    → Result QuestionRequest
unfolding derive_question_id new_options checked_text
from_input sha256 run_id request_key ordinal question header options multi_select created_at
      expires_at =
    with_options (derive_question_id sha256 run_id request_key ordinal) (new_options options)
      λ id checked.
        new_question id run_id ordinal (checked_text 10000 question) header checked multi_select
          (checked_text (Text.length request_key) request_key) created_at expires_at
