-- ===== src/InMemory/Leases.antt =====
-- InMemoryChatStore: the reconciliation lease and reconcile_terminal.
pub mod Exclusion
use claudeagentsdk_cloudrun.Prelude.{
  ℕ, ◌+◌, ◌*◌, String, Bool, true, false, ◌&&◌, not, Option, none, some, Eq, nat_eq, string_eq, ltb,
  if◌then◌else◌,
}
use claudeagentsdk_cloudrun.Errors.{error, value_error, session_ownership}
use claudeagentsdk_cloudrun.Exec.{
  Exec, Result, ok, err, pure, raise, gets, modify, guard, require, ◌>>=◌, ◌>>◌,
}
use claudeagentsdk_cloudrun.Dict.{get, put, remove}
use claudeagentsdk_cloudrun.Models.RunStates.{RunState, terminal}
use claudeagentsdk_cloudrun.Models.Ids.{str}
use claudeagentsdk_cloudrun.Models.Records.{Uuid, Time, Run, ReconciliationLease}
use claudeagentsdk_cloudrun.InMemory.State.{Store}
use claudeagentsdk_cloudrun.InMemory.Runs.{run_at, write_run, close_session}

-- timedelta(seconds=30), in microseconds
abbrev pub lease_time : Time
lease_time = 30 * 1_000_000

-- Another holder's lease that has not run out.
abbrev pub blocks : Option ReconciliationLease → String → Time → Bool
blocks none holder now = false
blocks (some current) holder now =
    not (string_eq.beq current.holder holder) && ltb now current.expires_at

unfoldable pub acquire_reconciliation_lease :
    Uuid → String → Exec Store (Option ReconciliationLease)
acquire_reconciliation_lease run_id holder = do
  now ← gets (λ s. s.clock)
  current ← gets (λ s. get s.leases run_id)
  let lease : ReconciliationLease = record {
    run_id = run_id;
    holder = holder;
    expires_at = now + lease_time;
  }
  if blocks current holder now
      then pure none
      else do modify (λ s. record s { leases = put s.leases run_id lease }); pure (some lease)

-- lease is not None and lease.holder == holder
abbrev pub held_by : Option ReconciliationLease → String → Bool
held_by none holder = false
held_by (some lease) holder = string_eq.beq lease.holder holder

unfoldable pub reconcile_terminal : Uuid → String → RunState → Option String → Exec Store Run
reconcile_terminal run_id holder state error_code = do
  guard (terminal state) (error value_error "terminal state is required")
  lease ← gets (λ s. get s.leases run_id)
  guard (held_by lease holder) (error session_ownership (str run_id))
  current ← run_at run_id
  now ← gets (λ s. s.clock)
  let run = record current { state = state; error_code = error_code; finished_at = some now }
  if terminal current.state
      then pure current
      else do write_run run_id run; close_session run.session_id state; pure run

unfoldable pub release_reconciliation_lease : Uuid → String → Exec Store (Unit {0})
release_reconciliation_lease run_id holder = do
  lease ← gets (λ s. get s.leases run_id)
  if held_by lease holder
      then modify (λ s. record s { leases = remove s.leases run_id })
      else pure tt
