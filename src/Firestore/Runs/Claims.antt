-- ===== src/Firestore/Runs/Claims.antt =====
-- The execution that claimed a run, against every other one.
use claudeagentsdk_cloudrun.Prelude.{
  ℕ, String, true, false, ◌≡◌, ◌∙◌, refl, some, string_eq, beq_refl, inl, inr, Bool-cases,
  Option-cases,
}
use claudeagentsdk_cloudrun.Errors.{error, session_ownership}
use claudeagentsdk_cloudrun.Exec.{ok, err}
use claudeagentsdk_cloudrun.Models.RunStates.{RunState, terminal}
use claudeagentsdk_cloudrun.Models.Ids.{str}
use claudeagentsdk_cloudrun.Models.Records.{Uuid, Run}
use claudeagentsdk_cloudrun.InMemory.Runs.{other_owner}
use claudeagentsdk_cloudrun.Firestore.Documents.{RunPath, RunDoc, Database, Cloud, kept_until}
use claudeagentsdk_cloudrun.Firestore.Runs.{claim_run, heartbeat_run, commit_terminal}

-- What Firestore documents of runs: a document is read as it was last written, and a write that
-- leaves a document's `id` as it is does not change what a query by `id` finds.
pub record KeepsRuns {D : Type 0} (db : Database D) : Type 0 where
  pub read_written :
      (path : RunPath) (doc : RunDoc) (d : D) → db.run path (db.write_run path doc d) ≡ some doc
  pub found_again :
      (id : String) (path : RunPath) (old doc : RunDoc) (d : D)
      → db.run path d ≡ some old
      → old.run.id ≡ doc.run.id
      → db.find_run id (db.write_run path doc d) ≡ db.find_run id d

module _ {D : Type 0} (db : Database D) (hex_digest : String → String) (retention_days : ℕ) where
  -- The run has an owner, in the document that a query by its id finds.
  pub record IsOwned (run_id : Uuid) (owner : String) (c : Cloud D) : Type 0 where
    pub path : RunPath
    pub doc : RunDoc
    pub found : db.find_run (str run_id) c.documents ≡ some path
    pub here : db.run path c.documents ≡ some doc
    pub owned : doc.execution_owner ≡ some owner

  claim-IsOwned :
      KeepsRuns db
      → (run_id : Uuid) (owner : String) (c : Cloud D)
      → (claim_run db hex_digest retention_days run_id owner c).0 ≡ ok true
      → IsOwned run_id owner (claim_run db hex_digest retention_days run_id owner c).1
  unfolding claim_run
  claim-IsOwned laws run_id owner c claimed =
      elim (Option-cases (db.find_run (str run_id) c.documents)) [
        | inl nowhere ↦ cc (rw nowhere at claimed)
        | inr (path, found) ↦ elim (Option-cases (db.run path c.documents)) [
          | inl gone ↦ cc (rw (found, gone) at claimed)
          | inr (doc, here) ↦ elim (Bool-cases (other_owner doc.execution_owner owner)) [
            | inl other ↦ cc (rw (found, here, other) at claimed)
            | inr free ↦
                let new : RunDoc = record doc {
                  run = record doc.run { state = RunState.running };
                  execution_owner = some owner;
                  heartbeat_at = some c.clock;
                  expires_at = kept_until retention_days c.clock;
                } in
                rw (found, here, free)
                  (record {
                    path = path;
                    doc = new;
                    found =
                        laws.found_again (str run_id) path doc new c.documents here refl ∙ found;
                    here = laws.read_written path new c.documents;
                    owned = refl;
                  })
          ]
        ]
      ]

  -- What the owner of a run can do, and nobody else.
  owned-exclusive :
      (run_id : Uuid) (owner other : String) (run : Run) (c : Cloud D)
      → IsOwned run_id owner c
      → string_eq.beq owner other ≡ false
      → run.id ≡ run_id
      → terminal run.state ≡ true
      → (claim_run db hex_digest retention_days run_id other c ≡ (ok false, c))
        × (heartbeat_run db hex_digest retention_days run_id other c ≡ (ok false, c))
        × (commit_terminal db hex_digest retention_days run other c
            ≡ (err (error session_ownership "run belongs to another execution"), c))
        × ((claim_run db hex_digest retention_days run_id owner c).0 ≡ ok true)
        × ((heartbeat_run db hex_digest retention_days run_id owner c).0 ≡ ok true)
  unfolding claim_run heartbeat_run commit_terminal
  owned-exclusive run_id owner other run c o differ same ended =
      let found : db.find_run (str run.id) c.documents ≡ some o.path = rw same o.found in
      (
        rw (o.found, o.here, o.owned, differ) refl,
        rw (o.found, o.here, o.owned, differ) refl,
        rw (ended, found, o.here, o.owned, differ) refl,
        rw (o.found, o.here, o.owned, beq_refl owner) refl,
        rw (o.found, o.here, o.owned, beq_refl owner) refl,
      )

  -- Where Firestore keeps runs as it documents: after an execution has claimed a run, another one that
  -- claims it or sends its heartbeat gets False, and one that commits how the run ended is refused;
  -- none of them changes anything. The execution itself can claim the run again and send its
  -- heartbeat.
  pub claim_exclusive :
      KeepsRuns db
      → (run_id : Uuid) (owner other : String) (run : Run) (c : Cloud D)
      → (claim_run db hex_digest retention_days run_id owner c).0 ≡ ok true
      → string_eq.beq owner other ≡ false
      → run.id ≡ run_id
      → terminal run.state ≡ true
      → let after = (claim_run db hex_digest retention_days run_id owner c).1 in
        (claim_run db hex_digest retention_days run_id other after ≡ (ok false, after))
        × (heartbeat_run db hex_digest retention_days run_id other after ≡ (ok false, after))
        × (commit_terminal db hex_digest retention_days run other after
            ≡ (err (error session_ownership "run belongs to another execution"), after))
        × ((claim_run db hex_digest retention_days run_id owner after).0 ≡ ok true)
        × ((heartbeat_run db hex_digest retention_days run_id owner after).0 ≡ ok true)
  claim_exclusive laws run_id owner other run c claimed differ same ended =
      let after = (claim_run db hex_digest retention_days run_id owner c).1 in
      owned-exclusive run_id owner other run after (claim-IsOwned laws run_id owner c claimed)
        differ same ended
