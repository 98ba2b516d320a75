-- ===== src/Witnesses/Jobs.antt =====
-- The execution backends, over small clients.
use Prim.Native.String.{◌++◌}
use claudeagentsdk_cloudrun.Prelude.{
  ℕ, zero, suc, ◌≤◌, ◌≡◌, ◌↔◌, ◌⊎◌, refl, arith, true, false, String, List, [], ◌∷◌, none, some,
  nat_eq, string_eq, inl, inr, Bool-cases, beq_refl, if◌then◌else◌,
}
use claudeagentsdk_cloudrun.Exec.{ok}
use claudeagentsdk_cloudrun.Dict.{get}
use claudeagentsdk_cloudrun.Text.{length}
use claudeagentsdk_cloudrun.Text.Search.{is_in}
use claudeagentsdk_cloudrun.Models.RunStates.{ExecutionState}
use claudeagentsdk_cloudrun.Models.Ids.{hex}
use claudeagentsdk_cloudrun.Models.Records.{Uuid, ExecutionReference}
use claudeagentsdk_cloudrun.Fakes.Executions.{has_ended}
use claudeagentsdk_cloudrun.Backends.Provider.{Fault, Answer, returned, failed, Memory}
use claudeagentsdk_cloudrun.Backends.Batch.{
  reference_for_run, start, use_or_create, created, job_id_for_run,
}
use claudeagentsdk_cloudrun.Backends.Batch.Jobs.{
  BatchJobSpec, BatchClient, Settings, new_backend, rstrip_dashes, is_already_exists,
}
use claudeagentsdk_cloudrun.Backends.Batch.Restarts.{Registers, start_converges, remembered}
use claudeagentsdk_cloudrun.Backends.Batch.Names.{job_ids_differ}
use claudeagentsdk_cloudrun.Backends.Gke
use claudeagentsdk_cloudrun.Backends.Gke.{KubernetesBatchClient}
use claudeagentsdk_cloudrun.Backends.Gke.Manifests as Manifests
use claudeagentsdk_cloudrun.Backends.Gke.States as States
use claudeagentsdk_cloudrun.Backends.Gke.Cancels.{cancel_lem}
use claudeagentsdk_cloudrun.Backends.Gke.Cancels.Polling.{marked, SaidGone}

abbrev fault_named : String → Fault
fault_named code = record {
  code = code;
  status = none;
  reason = "";
  text = "";
  is_key_error = false;
  temporary = none;
}

-- The names of the jobs that exist.
abbrev registry : BatchClient (List String)
registry = record {
  create_job = λ parent job_id spec c.
      let name = parent ++ ("/jobs/" ++ job_id) in
      if is_in c name then (failed (fault_named "ALREADY_EXISTS"), c) else (returned tt, name ∷ c);
  get_job =
      λ name c. (if is_in c name then returned "RUNNING" else failed (fault_named "NOT_FOUND"), c);
  delete_job = λ name c. (returned tt, c);
}

taken : is_already_exists (fault_named "ALREADY_EXISTS") ≡ true
unfolding is_already_exists
taken = refl

is_in-cons : (name : String) (c : List String) → is_in (name ∷ c) name ≡ true
is_in-cons name c = rw (beq_refl name) refl

registry-new :
    (parent job_id : String) (spec : BatchJobSpec) (c : List String)
    → (registry.create_job parent job_id spec c).0 ≡ returned tt
    → is_in (registry.create_job parent job_id spec c).1 (parent ++ ("/jobs/" ++ job_id)) ≡ true
registry-new parent job_id spec c made =
    elim (Bool-cases (is_in c (parent ++ ("/jobs/" ++ job_id)))) [
      | inl there ↦ cc (rw there at made)
      | inr new ↦ rw new (is_in-cons (parent ++ ("/jobs/" ++ job_id)) c)
    ]

registry-conflict :
    (parent job_id : String) (spec : BatchJobSpec) (c : List String) (fault : Fault)
    → (registry.create_job parent job_id spec c).0 ≡ failed fault
    → is_already_exists fault ≡ true
    → is_in (registry.create_job parent job_id spec c).1 (parent ++ ("/jobs/" ++ job_id)) ≡ true
registry-conflict parent job_id spec c fault refused _ =
    elim (Bool-cases (is_in c (parent ++ ("/jobs/" ++ job_id)))) [
      | inl there ↦ rw there there
      | inr new ↦ cc (rw new at refused)
    ]

abbrev registry-Registers : Registers registry
registry-Registers = record {
  has_job = is_in;
  create_new = registry-new;
  create_conflict = registry-conflict;
  create_taken = λ parent job_id spec c there. (fault_named "ALREADY_EXISTS", rw there refl, taken);
  get_found = λ name c there. ("RUNNING", rw there refl);
}

abbrev batch_spec : BatchJobSpec
batch_spec = record {
  image = "i";
  machine_type = "e2";
  cpu_milli = 1;
  memory_mib = 1;
  timeout_seconds = 1;
  environment = [];
  service_account = none;
  task_count = 1;
  parallelism = 1;
  max_retry_count = 0;
}

abbrev batch_settings : Settings
batch_settings = record { project = "p"; region = "r"; job_id_prefix = "agent"; spec = batch_spec }

abbrev no_memory : Memory
no_memory = record { references_by_run = []; cancelled = [] }

abbrev batch_7 : ExecutionReference
batch_7 = reference_for_run registry batch_settings 7

started_7 : (start registry batch_settings 7 (no_memory, [])).0 ≡ ok batch_7
unfolding start use_or_create created get
started_7 = refl

start_converges_example :
    let after = (start registry batch_settings 7 (no_memory, [])).1 in
    (batch_7 ≡ reference_for_run registry batch_settings 7)
    × (start registry batch_settings 7 after ≡ (ok batch_7, after))
    × (start registry batch_settings 7 (no_memory, after.1) ≡ (
      ok batch_7,
      (remembered registry batch_settings registry-Registers 7 no_memory, after.1),
    ))
unfolding get
start_converges_example =
    start_converges registry batch_settings registry-Registers 7 no_memory no_memory [] batch_7 refl
      refl started_7

accepted : new_backend "p" "r" "agent--" "i" "e2" 1 1 1 none [] ≡ ok batch_settings
unfolding new_backend rstrip_dashes
accepted = refl

job_ids_differ_example :
    (job_id_for_run registry batch_settings 7 ≡ "agent" ++ ("-" ++ hex 32 7))
    × (length (job_id_for_run registry batch_settings 7) ≤ 58)
    × ((job_id_for_run registry batch_settings 7 ≡ job_id_for_run registry batch_settings 8)
        ↔ ◌≡◌ {A = Uuid} 7 8)
job_ids_differ_example =
    job_ids_differ "p" "r" "agent--" "i" "e2" 1 1 1 none [] batch_settings accepted registry 7 8
      (omega arith) (omega arith)

-- A Job that runs for a number of looks and then is gone.
abbrev running_job : States.Job
running_job = record {
  status_deleted = false;
  metadata_deleted = false;
  conditions = [];
  failed = 0;
  succeeded = 0;
  active = 1;
  labels = [];
}

look_at : ℕ → Answer States.Job × ℕ
look_at zero = (failed (record (fault_named "") { status = some 404 }), zero)
look_at (suc n) = (returned running_job, n)

abbrev vanishing : KubernetesBatchClient ℕ
vanishing = record {
  create_job = λ namespace body n. (returned tt, n);
  get_job = λ namespace name n. look_at n;
  delete_job = λ namespace name n. (returned tt, n);
}

abbrev gke_settings : Manifests.Settings
gke_settings = record {
  namespace = "ns";
  spec = record {
    image = "i";
    namespace = "ns";
    service_account = "a";
    cpu = "1";
    memory = "1";
    timeout_seconds = 1;
    ttl_seconds_after_finished = 1;
    environment = [];
    tolerations = [];
    backoff_limit = 0;
    parallelism = 1;
    completions = 1;
  };
  cancel_poll_attempts = 3;
}

abbrev gke_7 : ExecutionReference
gke_7 = record { backend = "gke"; name = "ns/job"; identity = some "7" }

cancel_lem_example :
    let after = Gke.cancel vanishing gke_settings gke_7 (no_memory, 2) in
    ((state : ExecutionState) → after.0 ≡ ok state → has_ended state ≡ true)
    × ((after.1.0 ≡ no_memory)
        ⊎ ((after.1.0 ≡ marked "ns/job" no_memory)
            × (after.0 ≡ ok ExecutionState.cancelled)
            × SaidGone vanishing gke_7
            × (Gke.state_of vanishing gke_settings gke_7 after.1
                ≡ (ok ExecutionState.cancelled, after.1))
            × (Gke.cancel vanishing gke_settings gke_7 after.1
                ≡ (ok ExecutionState.cancelled, after.1))))
cancel_lem_example = cancel_lem vanishing gke_settings gke_7 no_memory 2

-- Two looks see it run, the third that it is gone.
cancelled_at_last :
    (Gke.cancel vanishing gke_settings gke_7 (no_memory, 2)).0 ≡ ok ExecutionState.cancelled
unfolding Gke.cancel Gke.state_of Gke.deleted Gke.polled Gke.poll Gke.confirm Gke.validate_reference
    look_at
cancelled_at_last = refl
