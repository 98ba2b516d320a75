-- ===== src/Witnesses/Ending.antt =====
-- Cancel requests, commits and reconciliation.
use claudeagentsdk_cloudrun.Prelude.{
  String, ◌≡◌, ◌≢◌, refl, true, none, some, arith, nat_eq, string_eq, if◌then◌else◌,
}
use claudeagentsdk_cloudrun.Exec.{ok}
use claudeagentsdk_cloudrun.Dict.{get, put}
use claudeagentsdk_cloudrun.Models.RunStates.{RunState, active, value}
use claudeagentsdk_cloudrun.Models.Records.{Uuid, Session, Run}
use claudeagentsdk_cloudrun.InMemory.Sessions.{create_session, put_session}
use claudeagentsdk_cloudrun.InMemory.Runs.{claim_run, request_cancel, commit_terminal}
use claudeagentsdk_cloudrun.InMemory.Runs.Reserve.{reserve_run, reserve_in}
use claudeagentsdk_cloudrun.InMemory.Runs.Ends.{
  request_cancel_lem, ended_stays, reconcile_terminal_lem,
}
use claudeagentsdk_cloudrun.InMemory.Runs.Ends.Commits.{
  commit_terminal-refused, commit_terminal_lem, late_commit_frees_slot, committed, commit_target,
}
use claudeagentsdk_cloudrun.InMemory.Runs.Ends.Written.{written, state_in, slot_in}
use claudeagentsdk_cloudrun.InMemory.Leases.{acquire_reconciliation_lease, reconcile_terminal}
use claudeagentsdk_cloudrun.Witnesses.Data.{
  done_7, running_7, run_8, with_owner, with_lease, with_next_run, with_owner-IsWf, with_lease-IsWf,
  with_next_run-IsWf,
}

request_cancel_lem_example :
    ((request_cancel 7 with_owner).0 ≡ ok (record running_7 { state = RunState.cancel_requested }))
    × ((q : Uuid)
        → state_in (request_cancel 7 with_owner).1 q
          ≡ (if nat_eq.beq 7 q then some RunState.cancel_requested else state_in with_owner q))
    × ((k : String) → slot_in (request_cancel 7 with_owner).1 k ≡ slot_in with_owner k)
unfolding claim_run reserve_run reserve_in create_session put_session get put value
request_cancel_lem_example = request_cancel_lem 7 running_7 with_owner with_owner-IsWf refl

ended_stays_example :
    (state_in (request_cancel 8 with_next_run).1 7 ≡ some RunState.completed)
    × (state_in (reconcile_terminal 8 "h" RunState.failed none with_next_run).1 7
        ≡ some RunState.completed)
unfolding commit_terminal claim_run reserve_run reserve_in create_session put_session get put value
ended_stays_example =
    ended_stays 7 8 "h" RunState.failed RunState.completed none with_next_run refl refl

reconcile_terminal_lem_example :
    let (result, t) = reconcile_terminal 7 "h" RunState.failed (some "lost") with_lease in
    (result
      ≡ ok (record running_7 {
        state = RunState.failed;
        error_code = some "lost";
        finished_at = some 1000;
      }))
    × ((q : Uuid)
        → state_in t q ≡ (if nat_eq.beq 7 q then some RunState.failed else state_in with_lease q))
    × ((k : String)
        → slot_in t k ≡ (if string_eq.beq "s" k then some none else slot_in with_lease k))
unfolding acquire_reconciliation_lease claim_run reserve_run reserve_in create_session put_session
    get put value
reconcile_terminal_lem_example =
    reconcile_terminal_lem 7 running_7 "h" RunState.failed (some "lost") with_lease with_lease-IsWf
      refl refl refl refl

-- Another execution's commit.
commit_terminal-refused_example :
    ((commit_terminal done_7 "job-2" with_owner).1 ≡ with_owner)
    × ((a : Run) → (commit_terminal done_7 "job-2" with_owner).0 ≢ ok a)
unfolding claim_run reserve_run reserve_in create_session put_session get put value
commit_terminal-refused_example = commit_terminal-refused done_7 "job-2" with_owner refl

own_commit : commit_target done_7 "job-1" with_owner ≡ some running_7
unfolding claim_run reserve_run reserve_in create_session put_session get put value
own_commit = refl

commit_terminal_lem_example :
    (x : Session) × (get with_owner.sessions "s" ≡ some x)
    × (commit_terminal done_7 "job-1" with_owner
        ≡ (ok done_7, written with_owner 7 done_7 "s" (committed x done_7 with_owner.clock)))
commit_terminal_lem_example =
    commit_terminal_lem done_7 running_7 "job-1" with_owner with_owner-IsWf own_commit

second_commit : commit_target done_7 "job-1" with_next_run ≡ some done_7
unfolding commit_terminal claim_run reserve_run reserve_in create_session put_session get put value
second_commit = refl

-- Run 7 is committed twice, and between the two run 8 takes the slot.
late_commit_frees_slot_example :
    (slot_in (commit_terminal done_7 "job-1" with_next_run).1 "s" ≡ some none)
    × (get (commit_terminal done_7 "job-1" with_next_run).1.runs 8 ≡ some run_8)
    × (active run_8.state ≡ true)
unfolding commit_terminal claim_run reserve_run reserve_in create_session put_session get put value
late_commit_frees_slot_example =
    late_commit_frees_slot done_7 done_7 run_8 8 "job-1" with_next_run with_next_run-IsWf
      second_commit refl (omega arith) refl
