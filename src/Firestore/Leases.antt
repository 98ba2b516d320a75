-- ===== src/Firestore/Leases.antt =====
-- FirestoreChatStore: the reconciliation lease and reconcile_terminal.
use claudeagentsdk_cloudrun.Prelude.{
  ℕ, ◌+◌, String, Bool, false, ◌&&◌, not, Option, none, some, string_eq, ltb, if◌then◌else◌,
}
use claudeagentsdk_cloudrun.Errors.{error, value_error, session_ownership}
use claudeagentsdk_cloudrun.Exec.{Exec, pure, raise, guard, ◌>>=◌, ◌>>◌}
use claudeagentsdk_cloudrun.Models.RunStates.{RunState, terminal}
use claudeagentsdk_cloudrun.Models.Records.{Uuid, Time, Run, ReconciliationLease}
use claudeagentsdk_cloudrun.InMemory.Leases.{lease_time}
use claudeagentsdk_cloudrun.Firestore.Documents.{
  LeaseDoc, Database, Cloud, look, write, now_of, run_reference, run_snapshot, session_snapshot,
  kept_until,
}
use claudeagentsdk_cloudrun.Firestore.Runs.{closed}

-- Another holder's lease that has not run out.
abbrev pub blocks : Option LeaseDoc → String → Time → Bool
blocks none holder now = false
blocks (some current) holder now =
    not (string_eq.beq current.holder holder) && ltb now current.expires_at

abbrev pub held_by : Option LeaseDoc → String → Bool
held_by none holder = false
held_by (some lease) holder = string_eq.beq lease.holder holder

module _ {D : Type 0} (db : Database D) (retention_days : ℕ) where
  unfoldable pub acquire_reconciliation_lease :
      Uuid → String → Exec (Cloud D) (Option ReconciliationLease)
  acquire_reconciliation_lease run_id holder = do
    path ← run_reference db run_id
    current ← look (db.lease path)
    now ← now_of
    let expires_at = now + lease_time
    if blocks current holder now then pure none else do
      write (db.write_lease path (record { holder = holder; expires_at = expires_at }))
      pure (some (record { run_id = run_id; holder = holder; expires_at = expires_at }))

  abbrev require_lease : Uuid → Option ReconciliationLease → Exec (Cloud D) (Unit {0})
  require_lease run_id none = raise (error session_ownership "reconciliation lease is not held")
  require_lease run_id (some lease) = pure tt

  unfoldable pub reconcile_terminal : Uuid → String → RunState → Option String → Exec (Cloud D) Run
  unfolding acquire_reconciliation_lease
  reconcile_terminal run_id holder state error_code = do
    guard (terminal state) (error value_error "terminal state is required")
    lease ← acquire_reconciliation_lease run_id holder
    require_lease run_id lease
    path ← run_reference db run_id
    doc ← run_snapshot db path
    now ← now_of
    let run = record doc.run { state = state; error_code = error_code; finished_at = some now }
    if terminal doc.run.state then pure doc.run else do
      session ← session_snapshot db path.parent
      write
          (db.write_run path (record doc { run = run; expires_at = kept_until retention_days now }))
      write (db.write_session path.parent (closed retention_days now state session))
      pure run

  unfoldable pub release_reconciliation_lease : Uuid → String → Exec (Cloud D) (Unit {0})
  release_reconciliation_lease run_id holder = do
    path ← run_reference db run_id
    lease ← look (db.lease path)
    if held_by lease holder then write (db.delete_lease path) else pure tt
