-- ===== src/Witnesses/Data.antt =====
-- A session, a run and its first event, and the stores they pass through.
use claudeagentsdk_cloudrun.Prelude.{
  ℕ, ◌≡◌, ◌≢◌, refl, [], none, ◌∷◌, String, false, arith, string_eq,
}
use claudeagentsdk_cloudrun.Dict.{get, put}
use claudeagentsdk_cloudrun.Models.RunStates.{RunState, value}
use claudeagentsdk_cloudrun.Models.Json
use claudeagentsdk_cloudrun.Models.Records.{Uuid, ChatEvent, Run}
use claudeagentsdk_cloudrun.Models.Questions.{QuestionOption, QuestionRequest, QuestionState}
use claudeagentsdk_cloudrun.InMemory.State.{Store, empty}
use claudeagentsdk_cloudrun.InMemory.Sessions.{create_session, put_session}
use claudeagentsdk_cloudrun.InMemory.Runs.{claim_run, commit_terminal}
use claudeagentsdk_cloudrun.InMemory.Runs.Reserve.{reserve_run, reserve_in}
use claudeagentsdk_cloudrun.InMemory.Leases.{acquire_reconciliation_lease}
use claudeagentsdk_cloudrun.InMemory.Invariant.{IsWf}
use claudeagentsdk_cloudrun.InMemory.Invariant.Growth.{IsNewRun}
use claudeagentsdk_cloudrun.InMemory.Invariant.Reachable.{Reach-IsWf}
use claudeagentsdk_cloudrun.InMemory.Steps.{Step, Reach, here, next}

abbrev pub event_named : String → ChatEvent
event_named id = record {
  id = id;
  run_id = 7;
  sequence = 0;
  type = "user";
  occurred_at = 1000;
  payload = Json.end;
}

abbrev pub run_of : Uuid → String → RunState → Run
run_of id key state = record {
  id = id;
  user_id = "u";
  session_id = "s";
  workspace_id = "w";
  idempotency_key = key;
  state = state;
  execution = none;
  claude_session_id = none;
  snapshot = none;
  event_cursor = none;
  created_at = 1000;
  started_at = none;
  finished_at = none;
  result = none;
  error_code = none;
}

abbrev pub run_7 : Run
run_7 = run_of 7 "k" RunState.requested

abbrev pub nothing : Store
nothing = empty 1000

abbrev pub with_session : Store
with_session = (create_session "s" "w" "u" "hello" nothing).1

abbrev pub with_run : Store
with_run = (reserve_run run_7 (event_named "e") with_session).1

abbrev pub with_owner : Store
with_owner = (claim_run 7 "job-1" with_run).1

pub session_reached : Reach nothing with_session
unfolding create_session put_session get
session_reached = next here (Step.create_session "s" "w" "u" "hello" refl refl)

pub run_7-IsNewRun : IsNewRun with_session run_7 (event_named "e")
unfolding create_session put_session get
run_7-IsNewRun = record { fresh = tt; going = refl; own_event = refl; numbered = refl }

pub run_reached : Reach nothing with_run
run_reached = next session_reached (Step.reserve_run run_7 (event_named "e") run_7-IsNewRun refl)

pub owner_reached : Reach nothing with_owner
owner_reached = next run_reached (Step.claim_run 7 "job-1" refl)

pub with_session-IsWf : IsWf with_session
with_session-IsWf = Reach-IsWf session_reached

pub with_run-IsWf : IsWf with_run
with_run-IsWf = Reach-IsWf run_reached

pub with_owner-IsWf : IsWf with_owner
with_owner-IsWf = Reach-IsWf owner_reached

-- Two texts that compare as different.
pub apart : (a b : String) → string_eq.beq a b ≡ false → a ≢ b
apart a b h e = ground (arith, string_eq.beq_iff a b)

-- Run 7 as its job commits it, and run 8 of a later request.
abbrev pub done_7 : Run
done_7 = run_of 7 "k" RunState.completed

abbrev pub running_7 : Run
running_7 = run_of 7 "k" RunState.running

abbrev pub run_8 : Run
run_8 = run_of 8 "k2" RunState.requested

abbrev pub event_8 : ChatEvent
event_8 = record (event_named "e8") { run_id = 8 }

abbrev pub with_lease : Store
with_lease = (acquire_reconciliation_lease 7 "h" with_owner).1

abbrev pub committed_once : Store
committed_once = (commit_terminal done_7 "job-1" with_owner).1

abbrev pub with_next_run : Store
with_next_run = (reserve_run run_8 event_8 committed_once).1

pub with_lease-IsWf : IsWf with_lease
with_lease-IsWf = Reach-IsWf (next owner_reached (Step.acquire_lease 7 "h" refl))

pub committed_reached : Reach nothing committed_once
committed_reached = next owner_reached (Step.commit_terminal done_7 "job-1" refl)

pub run_8-IsNewRun : IsNewRun committed_once run_8 event_8
unfolding commit_terminal claim_run reserve_run reserve_in create_session put_session get put value
run_8-IsNewRun = record { fresh = tt; going = refl; own_event = refl; numbered = refl }

pub with_next_run-IsWf : IsWf with_next_run
with_next_run-IsWf =
    Reach-IsWf (next committed_reached (Step.reserve_run run_8 event_8 run_8-IsNewRun refl))

-- A question with two options, of run 7.
abbrev pub option_named : String → QuestionOption
option_named label = record { label = label; description = "" }

abbrev pub question_at : ℕ → QuestionRequest
question_at ordinal = record {
  id = "q";
  run_id = 7;
  ordinal = ordinal;
  question = "Which?";
  header = "";
  options = option_named "red" ∷ option_named "blue" ∷ [];
  multi_select = false;
  state = QuestionState.pending;
  answers = none;
  answer_idempotency_key = none;
  idempotency_key = "k";
  created_at = 1000;
  answered_at = none;
  expires_at = none;
}
