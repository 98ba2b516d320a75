-- ===== src/Backends/Batch/Restarts.antt =====
-- Starts of one run by processes that know nothing of each other.
use Prim.Native.String.{◌++◌}
use claudeagentsdk_cloudrun.Prelude.{
  String, Bool, true, ◌≡◌, refl, none, some, nat_eq, inl, inr, Bool-cases,
}
use claudeagentsdk_cloudrun.Exec.{ok}
use claudeagentsdk_cloudrun.Dict.{get, put, get-put_self}
use claudeagentsdk_cloudrun.Models.Records.{Uuid, ExecutionReference}
use claudeagentsdk_cloudrun.Backends.Provider.{Fault, returned, failed, Memory, Answer-cases}
use claudeagentsdk_cloudrun.Backends.Batch.{
  parent, job_id_for_run, job_name_for_run, spec_for_run, reference_for_run, looked_up, created,
  use_or_create, start,
}
use claudeagentsdk_cloudrun.Backends.Batch.Jobs.{
  BatchJobSpec, BatchClient, Settings, is_already_exists,
}

-- What Cloud Batch documents of job names: a name is that of one job at most, a request to create
-- a job under a name that is taken is answered with ALREADY_EXISTS and changes nothing, and a job
-- that exists can be read.
pub record Registers {C : Type 0} (client : BatchClient C) : Type 0 where
  pub has_job : C → String → Bool
  pub create_new :
      (parent job_id : String) (spec : BatchJobSpec) (c : C)
      → (client.create_job parent job_id spec c).0 ≡ returned tt
      → has_job (client.create_job parent job_id spec c).1 (parent ++ ("/jobs/" ++ job_id)) ≡ true
  pub create_conflict :
      (parent job_id : String) (spec : BatchJobSpec) (c : C) (fault : Fault)
      → (client.create_job parent job_id spec c).0 ≡ failed fault
      → is_already_exists fault ≡ true
      → has_job (client.create_job parent job_id spec c).1 (parent ++ ("/jobs/" ++ job_id)) ≡ true
  pub create_taken :
      (parent job_id : String) (spec : BatchJobSpec) (c : C)
      → has_job c (parent ++ ("/jobs/" ++ job_id)) ≡ true
      → (fault : Fault) × (client.create_job parent job_id spec c ≡ (failed fault, c))
        × (is_already_exists fault ≡ true)
  pub get_found :
      (name : String) (c : C)
      → has_job c name ≡ true
      → (state : String) × (client.get_job name c ≡ (returned state, c))

module _ {C : Type 0} (client : BatchClient C) (self : Settings) (laws : Registers client) where
  abbrev has_job_of : C → Uuid → Bool
  has_job_of c run_id = laws.has_job c (job_name_for_run client self run_id)

  abbrev pub remembered : Uuid → Memory → Memory
  remembered run_id m = record m {
    references_by_run = put m.references_by_run run_id (reference_for_run client self run_id);
  }

  started_again :
      (m : Memory) (c : C) (run_id : Uuid) (reference : ExecutionReference)
      → get m.references_by_run run_id ≡ some reference
      → start client self run_id (m, c) ≡ (ok reference, (m, c))
  unfolding start use_or_create
  started_again m c run_id reference there = rw there refl

  -- A job that is there already is taken for this run's.
  start-existing :
      (run_id : Uuid) (m : Memory) (c : C)
      → get m.references_by_run run_id ≡ none
      → has_job_of c run_id ≡ true
      → start client self run_id (m, c)
        ≡ (ok (reference_for_run client self run_id), (remembered run_id m, c))
  unfolding start use_or_create created looked_up job_name_for_run
  start-existing run_id m c new there =
      let (fault, refused, taken) =
        laws.create_taken (parent client self) (job_id_for_run client self run_id)
          (spec_for_run client self run_id) c there in
      let (state, read) = laws.get_found (job_name_for_run client self run_id) c there in
      rw (new, refused, taken, read) refl

  -- A start that gives a reference leaves a job behind, made or found.
  start-leaves :
      (run_id : Uuid) (m : Memory) (c : C) (reference : ExecutionReference)
      → get m.references_by_run run_id ≡ none
      → (start client self run_id (m, c)).0 ≡ ok reference
      → let after = (start client self run_id (m, c)).1 in
        (reference ≡ reference_for_run client self run_id)
        × (has_job_of after.1 run_id ≡ true)
        × (after.0 ≡ remembered run_id m)
  unfolding start use_or_create created looked_up job_name_for_run
  start-leaves run_id m c reference new started =
      let p = parent client self in
      let id = job_id_for_run client self run_id in
      let spec = spec_for_run client self run_id in
      let answer = client.create_job p id spec c in
      elim (Answer-cases answer.0) [
        | inl (_, made) ↦
            rw (new, made) (cc (rw (new, made) at started), laws.create_new p id spec c made, refl)
        | inr (fault, refused) ↦ elim (Bool-cases (is_already_exists fault)) [
          | inr elsewise ↦ cc (rw (new, refused, elsewise) at started)
          | inl taken ↦
              let there = laws.create_conflict p id spec c fault refused taken in
              let (state, read) =
                laws.get_found (job_name_for_run client self run_id) answer.1 there in
              rw (new, refused, taken, read)
                (cc (rw (new, refused, taken, read) at started), there, refl)
        ]
      ]

  -- Where Cloud Batch keeps job names as it documents, let a process that does not remember the run
  -- start it and get an execution. Then the execution is the run's, by its name and identity. The
  -- process gets it again for every later start of the run, with no call; and so does any other
  -- process that does not remember the run, which finds the job, makes none and leaves the jobs as
  -- they are.
  pub start_converges :
      (run_id : Uuid) (m n : Memory) (c : C) (reference : ExecutionReference)
      → get m.references_by_run run_id ≡ none
      → get n.references_by_run run_id ≡ none
      → (start client self run_id (m, c)).0 ≡ ok reference
      → let after = (start client self run_id (m, c)).1 in
        (reference ≡ reference_for_run client self run_id)
        × (start client self run_id after ≡ (ok reference, after))
        × (start client self run_id (n, after.1) ≡ (ok reference, (remembered run_id n, after.1)))
  start_converges run_id m n c reference new other started =
      let (same, there, kept) = start-leaves run_id m c reference new started in
      let after = (start client self run_id (m, c)).1 in
      (
        same,
        started_again after.0 after.1 run_id reference
            (rw kept (rw same (get-put_self m.references_by_run run_id _))),
        rw same (start-existing run_id n after.1 other there),
      )
