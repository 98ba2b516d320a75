-- ===== src/Witnesses/Values.antt =====
-- Answers, batches, titles, states and identifiers.
use claudeagentsdk_cloudrun.Prelude.{All, none, ◌≡◌, ◌↔◌, refl, true, false, [], ◌∷◌}
use claudeagentsdk_cloudrun.Prelude.Sorting.{sort, insort}
use claudeagentsdk_cloudrun.Exec.{ok}
use claudeagentsdk_cloudrun.Text.{
  decimal, digits, strip, lstrip, rstrip, is_space, split_lines, lines_from, is_line_break,
}
use claudeagentsdk_cloudrun.Models.RunStates.{RunState, terminal, can_transition}
use claudeagentsdk_cloudrun.Models.RunStates.Table.{Moves, transitions_end}
use claudeagentsdk_cloudrun.Models.Titles.{normalize_session_title}
use claudeagentsdk_cloudrun.Models.Titles.Bounds.{normalize_session_title_lem, IsTitle}
use claudeagentsdk_cloudrun.Models.Ids.{hex, prefix, str}
use claudeagentsdk_cloudrun.Models.Questions.{QuestionRequest}
use claudeagentsdk_cloudrun.Models.Questions.Inputs.{
  can_offer, checked_text, derive_question_id, from_input, new_option, new_options, question_text,
}
use claudeagentsdk_cloudrun.Models.Questions.Inputs.Offers.{offered_accepted}
use claudeagentsdk_cloudrun.Models.Questions.Answers.{
  labels, text, texts, validate_answers, check_answers, normalize,
}
use claudeagentsdk_cloudrun.Models.Questions.Answers.Accepted.{
  validate_answers_stable, IsAccepted, IsClean,
}
use claudeagentsdk_cloudrun.Models.Questions.Batches.{validate_question_batch}
use claudeagentsdk_cloudrun.Models.Questions.Batches.Order.{validate_question_batch_lem, IsBatch}
use claudeagentsdk_cloudrun.InMemory.Runs.Pages.Complete.{run_page_lem, IsContinued}
use claudeagentsdk_cloudrun.Witnesses.Data.{run_7, run_8, question_at, option_named}

validate_answers_stable_example :
    IsAccepted ("red" ∷ "blue" ∷ []) false ("green" ∷ [])
    × (validate_answers (question_at 1) (texts ("green" ∷ [])) ≡ ok ("green" ∷ []))
unfolding validate_answers check_answers normalize strip lstrip rstrip is_space
validate_answers_stable_example =
    validate_answers_stable (question_at 1) (texts ("  green" ∷ " " ∷ [])) ("green" ∷ []) refl

validate_question_batch_lem_example :
    IsBatch (question_at 2 ∷ question_at 1 ∷ []) (question_at 1 ∷ question_at 2 ∷ [])
unfolding validate_question_batch sort insort
validate_question_batch_lem_example =
    validate_question_batch_lem (question_at 2 ∷ question_at 1 ∷ [])
      (question_at 1 ∷ question_at 2 ∷ []) refl

normalize_session_title_lem_example : IsTitle 5 (normalize_session_title " \n  fix   it now" 5)
unfolding split_lines lines_from is_line_break strip lstrip rstrip is_space
normalize_session_title_lem_example = normalize_session_title_lem " \n  fix   it now" 4

transitions_end_example :
    ((terminal RunState.running ≡ true)
      ↔ ((u : RunState) → can_transition RunState.running u ≡ false))
    × ¬ Moves RunState.running RunState.running
transitions_end_example = transitions_end RunState.running

-- A question whose options come with white space.
abbrev asked : QuestionRequest
asked = record (question_at 1) {
  id = "question-00000000000000000000000000000000";
  options = option_named "red" ∷ option_named "blue" ∷ [];
}

asked-made :
    from_input (λ s. 0) 7 "k" 1 "Which?" "" ((" red", "") ∷ ("blue ", "") ∷ []) false 1000 none
    ≡ ok asked
unfolding from_input derive_question_id question_text hex new_options new_option checked_text strip
    lstrip rstrip is_space prefix str decimal digits
asked-made = refl

offered_accepted_example :
    (can_offer asked.options ≡ true)
    × All IsClean (labels asked.options)
    × (validate_answers asked (text "blue") ≡ ok ("blue" ∷ []))
offered_accepted_example =
    offered_accepted (λ s. 0) 7 "k" 1 "Which?" "" ((" red", "") ∷ ("blue ", "") ∷ []) false 1000
      none asked "blue" asked-made refl

-- Two runs of one time, a page of one.
run_page_lem_example : IsContinued 1 (run_7 ∷ run_8 ∷ [])
run_page_lem_example = run_page_lem 0 (run_7 ∷ run_8 ∷ []) ((refl, tt), (tt, tt))
