-- ===== src/Witnesses/Store.antt =====
-- Events, leases and questions.
use claudeagentsdk_cloudrun.Prelude.{
  ◌≡◌, ◌≢◌, refl, none, some, [], ◌∷◌, String, string_eq, list_eq, ◌&&◌,
}
use claudeagentsdk_cloudrun.Errors.{error, session_ownership}
use claudeagentsdk_cloudrun.Exec.{ok, err}
use claudeagentsdk_cloudrun.Dict.{Dict, get, put}
use claudeagentsdk_cloudrun.Text.{strip, lstrip, rstrip, is_space}
use claudeagentsdk_cloudrun.Models.RunStates.{RunState, value}
use claudeagentsdk_cloudrun.Models.Ids.{str}
use claudeagentsdk_cloudrun.Models.Records.{ChatEvent}
use claudeagentsdk_cloudrun.Models.Questions.{QuestionRequest}
use claudeagentsdk_cloudrun.Models.Questions.Answers.{
  text, validate_answers, check_answers, normalize,
}
use claudeagentsdk_cloudrun.InMemory.State.{Store}
use claudeagentsdk_cloudrun.InMemory.Sessions.{create_session, put_session}
use claudeagentsdk_cloudrun.InMemory.Runs.{claim_run}
use claudeagentsdk_cloudrun.InMemory.Runs.Reserve.{reserve_run, reserve_in}
use claudeagentsdk_cloudrun.InMemory.Events.{append_event, append_in, list_events}
use claudeagentsdk_cloudrun.InMemory.Events
use claudeagentsdk_cloudrun.InMemory.Events.Order.{append_event_lem, numbered_at, appended}
use claudeagentsdk_cloudrun.InMemory.Leases.{
  acquire_reconciliation_lease, reconcile_terminal, release_reconciliation_lease,
}
use claudeagentsdk_cloudrun.InMemory.Leases.Exclusion.{lease_exclusive, lease_of, leased}
use claudeagentsdk_cloudrun.InMemory.Questions
use claudeagentsdk_cloudrun.InMemory.Questions.{answer_question_for_job, answer_in}
use claudeagentsdk_cloudrun.InMemory.Questions.Once.{
  answer_once, answered_with, again_result, IsShown,
}
use claudeagentsdk_cloudrun.Witnesses.Data.{
  apart, event_named, question_at, running_7, with_owner, with_lease, with_owner-IsWf,
}

abbrev log_7 : Dict String ChatEvent
log_7 = ("e", event_named "e") ∷ []

append_event_lem_example :
    let second = numbered_at 1 (event_named "f") in
    (list_events 7 none with_owner ≡ (ok (event_named "e" ∷ []), with_owner))
    × ((append_event (event_named "f") with_owner ≡ (ok second, appended second log_7 with_owner))
        × (list_events 7 none (appended second log_7 with_owner)
            ≡ (ok (event_named "e" ∷ second ∷ []), appended second log_7 with_owner)))
unfolding claim_run reserve_run reserve_in create_session put_session get put value
append_event_lem_example = append_event_lem (event_named "f") log_7 with_owner with_owner-IsWf refl

-- Half a minute later.
abbrev later : Store
later = record with_lease { clock = 30_001_000 }

given : (acquire_reconciliation_lease 7 "h" with_owner).0 ≢ ok none
unfolding acquire_reconciliation_lease claim_run reserve_run reserve_in create_session put_session
    get put value
given e = cc

lease_exclusive_example :
    let after = leased 7 "i" later in
    (acquire_reconciliation_lease 7 "i" later ≡ (ok (some (lease_of 7 "i" 30_001_000)), after))
    × (reconcile_terminal 7 "h" RunState.failed none after
        ≡ (err (error session_ownership (str 7)), after))
    × (release_reconciliation_lease 7 "h" after ≡ (ok tt, after))
unfolding claim_run get reserve_run create_session put
lease_exclusive_example =
    lease_exclusive 7 "h" "i" RunState.failed none with_owner later (apart "h" "i" refl) refl given
      refl

-- Run 7 asks its question.
abbrev asked : Store
asked = record with_owner { questions = (7, ("q", question_at 1) ∷ []) ∷ [] }

asked-IsShown : IsShown 7 "q" (question_at 1) asked
unfolding claim_run reserve_run reserve_in create_session put_session get put value
asked-IsShown = record { run = running_7; found = refl; going = refl; shown = refl }

red_accepted : validate_answers (question_at 1) (text "red") ≡ ok ("red" ∷ [])
unfolding validate_answers check_answers normalize strip lstrip rstrip is_space
red_accepted = refl

blue_accepted : validate_answers (question_at 1) (text " blue ") ≡ ok ("blue" ∷ [])
unfolding validate_answers check_answers normalize strip lstrip rstrip is_space
blue_accepted = refl

abbrev red : QuestionRequest
red = answered_with (question_at 1) ("red" ∷ []) "a" 1000

answered_red : (answer_question_for_job 7 "q" (text "red") "a" asked).0 ≡ ok red
unfolding answer_question_for_job answer_in append_event append_in Questions.notify Events.notify
    validate_answers check_answers normalize strip lstrip rstrip is_space claim_run reserve_run
    reserve_in create_session put_session get put value
answered_red = refl

answer_once_example :
    let t = (answer_question_for_job 7 "q" (text "red") "a" asked).1 in
    (red ≡ answered_with (question_at 1) ("red" ∷ []) "a" 1000)
    × (answer_question_for_job 7 "q" (text " blue ") "b" t ≡ (
      again_result red "q"
          (string_eq.beq "a" "b" && (list_eq {A = String}).beq ("red" ∷ []) ("blue" ∷ [])),
      t,
    ))
unfolding strip lstrip rstrip is_space claim_run get reserve_run create_session put
answer_once_example =
    answer_once 7 "q" "a" "b" (text "red") (text " blue ") ("red" ∷ []) ("blue" ∷ [])
      (question_at 1) red asked asked-IsShown refl refl refl red_accepted blue_accepted answered_red
