-- ===== src/Backends/Gke/Manifests.antt =====
-- gke_backend.py: GKEToleration, the settings that GKEJobsBackend checks, and build_job_manifest.
use Prim.Native.String.{◌++◌ as str_append}
use claudeagentsdk_cloudrun.Prelude.{
  ℕ, String, Bool, not, ◌&&◌, ◌||◌, List, [], ◌∷◌, Option, none, some, string_eq, any, leb, ltb,
  if◌then◌else◌,
}
use claudeagentsdk_cloudrun.Errors.{error, configuration}
use claudeagentsdk_cloudrun.Exec.{Result, ok, err}
use claudeagentsdk_cloudrun.Dict.{Dict, put}
use claudeagentsdk_cloudrun.Text.{is_blank, is_empty}
use claudeagentsdk_cloudrun.Text.Search.{is_in, has, lower}
use claudeagentsdk_cloudrun.Models.Ids.{str, hex}
use claudeagentsdk_cloudrun.Models.Json.{Json, Items, Fields, num, arr, obj, nil, cons, end, field}
use claudeagentsdk_cloudrun.Models.Records.{Uuid, ExecutionReference}

abbrev text : String → Json
text s = Json.str s

pub record GkeToleration : Type 0 where
  pub key : String
  pub operator : String
  pub value : String
  pub effect : String

-- __post_init__
unfoldable pub new_toleration : (key operator value effect : String) → Result GkeToleration
new_toleration key operator value effect =
    if not (is_in ("Equal" ∷ "Exists" ∷ []) operator)
    then err (error configuration "GKE toleration operator must be Equal or Exists")
    else if not (is_in ("NoSchedule" ∷ "PreferNoSchedule" ∷ "NoExecute" ∷ []) effect)
    then err (
        error configuration
          "GKE toleration effect must be NoSchedule, PreferNoSchedule, or NoExecute")
    else if string_eq.beq operator "Exists" && not (is_empty value)
    then err (error configuration "GKE toleration value must be empty when operator is Exists")
    else ok (record { key = key; operator = operator; value = value; effect = effect })

unfoldable pub as_manifest : GkeToleration → Json
as_manifest t = obj (
    field "key" (text t.key) (
      field "operator" (text t.operator)
        (field "value" (text t.value) (field "effect" (text t.effect) end))))

pub record GkeJobSpec : Type 0 where
  pub image : String
  pub namespace : String
  pub service_account : String
  pub cpu : String
  pub memory : String
  pub timeout_seconds : ℕ
  pub ttl_seconds_after_finished : ℕ
  pub environment : Dict String String
  pub tolerations : List GkeToleration
  pub backoff_limit : ℕ
  pub parallelism : ℕ
  pub completions : ℕ

-- The fields that __init__ sets and no method changes; the polling interval only sleeps.
pub record Settings : Type 0 where
  pub namespace : String
  pub spec : GkeJobSpec
  pub cancel_poll_attempts : ℕ

-- __init__. The interval is a `float`, of which the code asks whether it is negative.
unfoldable pub new_backend :
    (image namespace service_account cpu memory : String)
    → (task_timeout_seconds job_ttl_seconds : ℕ) → Dict String String
    → List GkeToleration
    → ℕ
    → Bool
    → Result Settings
new_backend image namespace account cpu memory timeout ttl env tolerations attempts negative =
    if is_blank image || is_blank namespace || is_blank account
    then err (error configuration "image, namespace, and service_account are required for GKE")
    else if is_blank cpu || is_blank memory
    then err (error configuration "GKE CPU and memory must not be blank")
    else if not (leb 1 timeout && leb timeout 86400)
    then err (error configuration "task_timeout_seconds must be between 1 and 86400")
    else if ltb ttl 1
    then err (error configuration "job_ttl_seconds must be positive")
    else if ltb attempts 1 || negative
    then err (error configuration "invalid GKE cancellation polling settings")
    else ok (record {
      namespace = namespace;
      cancel_poll_attempts = attempts;
      spec = record {
        image = image;
        namespace = namespace;
        service_account = account;
        cpu = cpu;
        memory = memory;
        timeout_seconds = timeout;
        ttl_seconds_after_finished = ttl;
        environment = env;
        tolerations = tolerations;
        backoff_limit = 0;
        parallelism = 1;
        completions = 1;
      };
    })

unfoldable pub job_name_for_run : Uuid → String
unfolding hex
job_name_for_run run_id = str_append "claude-agent-" (hex 32 run_id)

abbrev pub qualified_name : Settings → Uuid → String
qualified_name self run_id = str_append self.namespace (str_append "/" (job_name_for_run run_id))

unfoldable pub job_reference_for_run : Settings → Uuid → ExecutionReference
unfolding job_name_for_run
job_reference_for_run self run_id = record {
  backend = "gke";
  name = qualified_name self run_id;
  identity = some (str run_id);
}

-- _FORBIDDEN_ENVIRONMENT_TOKENS
abbrev pub forbidden_tokens : List String
forbidden_tokens =
    "prompt" ∷ "message" ∷ "token" ∷ "password" ∷ "secret" ∷ "credential" ∷ "api_key" ∷ []

-- any(token in name.lower() for token in _FORBIDDEN_ENVIRONMENT_TOKENS)
unfoldable pub is_forbidden : String → Bool
unfolding has lower
is_forbidden name = any (has (lower name)) forbidden_tokens

-- The first name of the environment that is forbidden.
unfoldable pub first_forbidden : Dict String String → Option String
unfolding is_forbidden
first_forbidden [] = none
first_forbidden ((name, value) ∷ rest) =
    if is_forbidden name then some name else first_forbidden rest

env_items : Dict String String → Items
env_items [] = nil
env_items ((name, value) ∷ rest) =
    cons (obj (field "name" (text name) (field "value" (text value) end))) (env_items rest)

toleration_items : List GkeToleration → Items
unfolding as_manifest
toleration_items [] = nil
toleration_items (t ∷ ts) = cons (as_manifest t) (toleration_items ts)

-- if self._spec.tolerations: pod_spec["tolerations"] = …
abbrev toleration_fields : List GkeToleration → Fields
toleration_fields [] = end
toleration_fields (t ∷ ts) = field "tolerations" (arr (toleration_items (t ∷ ts))) end

abbrev quantities : GkeJobSpec → Json
quantities spec = obj (field "cpu" (text spec.cpu) (field "memory" (text spec.memory) end))

abbrev container : GkeJobSpec → Dict String String → Json
container spec environment = obj (
    field "name" (text "agent") (
      field "image" (text spec.image) (
        field "env" (arr (env_items environment)) (
          field "resources"
            (obj (field "requests" (quantities spec) (field "limits" (quantities spec) end)))
            end))))

abbrev pod_spec : GkeJobSpec → Dict String String → Json
pod_spec spec environment = obj (
    field "serviceAccountName" (text spec.service_account) (
      field "restartPolicy" (text "Never") (
        field "containers" (arr (cons (container spec environment) nil))
          (toleration_fields spec.tolerations))))

abbrev pub labels_of : Uuid → Json
labels_of run_id =
    obj (field "run-id" (text (str run_id)) (field "cas.dev/execution" (text "claude-agent") end))

abbrev template : GkeJobSpec → Uuid → Dict String String → Json
template spec run_id environment = obj (
    field "metadata" (obj (field "labels" (labels_of run_id) end))
      (field "spec" (pod_spec spec environment) end))

abbrev job_spec : GkeJobSpec → Uuid → Dict String String → Json
job_spec spec run_id environment = obj (
    field "parallelism" (num spec.parallelism) (
      field "completions" (num spec.completions) (
        field "backoffLimit" (num spec.backoff_limit) (
          field "activeDeadlineSeconds" (num spec.timeout_seconds) (
            field "ttlSecondsAfterFinished" (num spec.ttl_seconds_after_finished)
              (field "template" (template spec run_id environment) end))))))

abbrev job_manifest : GkeJobSpec → Uuid → Dict String String → Json
job_manifest spec run_id environment = obj (
    field "apiVersion" (text "batch/v1") (
      field "kind" (text "Job") (
        field "metadata"
          (obj
            (field "name" (text (job_name_for_run run_id)) (field "labels" (labels_of run_id) end)))
          (field "spec" (job_spec spec run_id environment) end))))

abbrev pub environment_for_run : Settings → Uuid → Dict String String
environment_for_run self run_id =
    put (put self.spec.environment "RUN_ID" (str run_id)) "CLOUD_RUN_EXECUTION"
      (qualified_name self run_id)

unfoldable pub build_job_manifest : Settings → Uuid → Result Json
unfolding job_name_for_run first_forbidden env_items toleration_items
build_job_manifest self run_id =
    let environment = environment_for_run self run_id in
    elim (first_forbidden environment) [
      | some name ↦
          err (
            error configuration
              (str_append "forbidden secret or input environment variable: " name))
      | none ↦ ok (job_manifest self.spec run_id environment)
    ]
