-- ===== src/JobRunner/Claims.antt =====
-- JobRunner.claim over the in-memory store.
use claudeagentsdk_cloudrun.Prelude.{
  String, ◌≡◌, refl, Bool, true, false, ◌||◌, Option, none, some, nat_eq, string_eq, if◌then◌else◌,
  Bool-cases, inl, inr,
}
use claudeagentsdk_cloudrun.Exec.{ok}
use claudeagentsdk_cloudrun.Dict.{get, put, get-put_self}
use claudeagentsdk_cloudrun.Models.RunStates.{RunState, terminal, state_eq}
use claudeagentsdk_cloudrun.Models.Records.{Uuid, Run}
use claudeagentsdk_cloudrun.InMemory.State.{Store}
use claudeagentsdk_cloudrun.InMemory.Port.{in_memory}
use claudeagentsdk_cloudrun.InMemory.Runs.{claim_run, get_run_for_job, other_owner}
use claudeagentsdk_cloudrun.JobRunner.{JobInvocation, claim}

-- A run whose cancel was asked for, which has ended, or which another execution owns.
abbrev pub is_refused : Run → Option String → String → Bool
is_refused run owner identity =
    state_eq.beq run.state RunState.cancel_requested
    || terminal run.state
    || other_owner owner identity

module _ (r : Uuid) (identity : String) (run : Run) (s : Store)
    (found : get s.runs r ≡ some run) where
  claim_run-other :
      other_owner (get s.owners r) identity ≡ true → claim_run r identity s ≡ (ok false, s)
  unfolding claim_run
  claim_run-other other = rw (found, other)

  claim_run-free :
      other_owner (get s.owners r) identity ≡ false
      → claim_run r identity s ≡ (
        ok true,
        record s {
          owners = put s.owners r identity;
          runs = put s.runs r (record run { state = RunState.running });
        },
      )
  unfolding claim_run
  claim_run-free free = rw (found, free)

-- Over the in-memory store a job starts nothing and writes nothing for a stored run that waits
-- for its cancel, has ended or has another owner. For any other stored run the job becomes the
-- owner, and the run that it is given is the stored one, now running; no other run, no other
-- owner and no session is written.
pub claim_lem :
    (invocation : JobInvocation) (run : Run) (s : Store)
    → get s.runs invocation.run_id ≡ some run
    → if is_refused run (get s.owners invocation.run_id) invocation.execution_identity
      then claim in_memory invocation s ≡ (ok none, s)
      else (let run' = record run { state = RunState.running } in
          claim in_memory invocation s ≡ (
            ok (some run'),
            record s {
              owners = put s.owners invocation.run_id invocation.execution_identity;
              runs = put s.runs invocation.run_id run';
            },
          ))
unfolding claim get_run_for_job
claim_lem invocation run s found =
    elim (Bool-cases (state_eq.beq run.state RunState.cancel_requested || terminal run.state)) [
      | inl over ↦ rw (found, over) refl
      | inr going ↦
          elim (Bool-cases
            (other_owner (get s.owners invocation.run_id) invocation.execution_identity)) [
              | inl other ↦ rw (found, going, other, claim_run-other _ _ run s found other) refl
              | inr free ↦
                  rw (found, going, free, claim_run-free _ _ run s found free, get-put_self) refl
            ]
    ]
