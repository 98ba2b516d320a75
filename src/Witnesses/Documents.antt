-- ===== src/Witnesses/Documents.antt =====
-- The Firestore store, over a database that holds one run.
use claudeagentsdk_cloudrun.Prelude.{
  ◌≡◌, refl, String, true, false, [], none, some, string_eq, if◌then◌else◌,
}
use claudeagentsdk_cloudrun.Errors.{error, session_ownership}
use claudeagentsdk_cloudrun.Exec.{ok, err}
use claudeagentsdk_cloudrun.Models.Ids.{str}
use claudeagentsdk_cloudrun.Firestore.Documents.{RunPath, RunDoc, Database, Cloud}
use claudeagentsdk_cloudrun.Firestore.Runs.{claim_run, heartbeat_run, commit_terminal}
use claudeagentsdk_cloudrun.Firestore.Runs.Claims.{KeepsRuns, claim_exclusive}
use claudeagentsdk_cloudrun.Witnesses.Data.{run_7, done_7}

abbrev path_7 : RunPath
path_7 = record { parent = record { user = "u"; session = "s" }; run = "7" }

-- The state is the run's document; nothing else is stored.
abbrev one_run : Database RunDoc
one_run = record {
  session = λ path d. none;
  run = λ path d. some d;
  event = λ path id d. none;
  question = λ path id d. none;
  lease = λ path d. none;
  write_session = λ path doc d. d;
  write_run = λ path doc d. doc;
  write_event = λ path id doc d. d;
  write_question = λ path id q d. d;
  write_lease = λ path doc d. d;
  delete_lease = λ path d. d;
  find_run = λ id d. if string_eq.beq (str d.run.id) id then some path_7 else none;
  find_request = λ path key d. none;
  newest_sessions = λ user after d. [];
  oldest_runs = λ path after d. [];
  events_in_order = λ path d. [];
  newest_event = λ path d. none;
  questions_in_order = λ path d. [];
}

one_run-found :
    (id : String) (path : RunPath) (old doc d : RunDoc)
    → one_run.run path d ≡ some old
    → old.run.id ≡ doc.run.id
    → one_run.find_run id (one_run.write_run path doc d) ≡ one_run.find_run id d
one_run-found id path old doc d there same = let own : d ≡ old = cc in rw own (rw same refl)

one_run-KeepsRuns : KeepsRuns one_run
one_run-KeepsRuns = record { read_written = λ path doc d. refl; found_again = one_run-found }

abbrev unclaimed : Cloud RunDoc
unclaimed = record {
  documents = record {
    run = run_7;
    expires_at = none;
    next_sequence = some 1;
    execution_owner = none;
    heartbeat_at = none;
    cancel_requested_at = none;
  };
  clock = 1000;
}

abbrev hex_digest : String → String
hex_digest user_id = user_id

claim_exclusive_example :
    let after = (claim_run one_run hex_digest 30 7 "job-1" unclaimed).1 in
    (claim_run one_run hex_digest 30 7 "job-2" after ≡ (ok false, after))
    × (heartbeat_run one_run hex_digest 30 7 "job-2" after ≡ (ok false, after))
    × (commit_terminal one_run hex_digest 30 done_7 "job-2" after
        ≡ (err (error session_ownership "run belongs to another execution"), after))
    × ((claim_run one_run hex_digest 30 7 "job-1" after).0 ≡ ok true)
    × ((heartbeat_run one_run hex_digest 30 7 "job-1" after).0 ≡ ok true)
unfolding claim_run str
claim_exclusive_example =
    claim_exclusive one_run hex_digest 30 one_run-KeepsRuns 7 "job-1" "job-2" done_7 unclaimed refl
      refl refl refl
