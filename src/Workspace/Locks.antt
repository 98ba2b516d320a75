-- ===== src/Workspace/Locks.antt =====
-- workspace_store.py: ActiveRunLock and RunLockStore over any SnapshotStore. `dumps` stands for
-- json.dumps and the encoding of its text; `now` is datetime.now(UTC).
pub mod Continuity
use claudeagentsdk_cloudrun.Prelude.{ℕ, ◌+◌, String, Option, none, some}
use claudeagentsdk_cloudrun.Exec.{Exec, pure, ◌>>=◌}
use claudeagentsdk_cloudrun.Models.Ids.{str}
use claudeagentsdk_cloudrun.Models.Json.{Json, field, end, of_option}
use claudeagentsdk_cloudrun.Models.Records.{Uuid, Time}
use claudeagentsdk_cloudrun.Fakes.Objects.{Bytes}
use claudeagentsdk_cloudrun.Ports.Objects.{SnapshotStore}

pub record ActiveRunLock : Type 0 where
  pub run_id : Uuid
  pub state : String
  pub created_at : Time
  pub expires_at : Time
  pub execution_name : Option String

-- The keys in order, as sort_keys writes them.
unfoldable pub to_json : ActiveRunLock → Json
to_json lock = Json.obj (
    field "created_at" (Json.time lock.created_at) (
      field "execution_name" (of_option Json.str lock.execution_name) (
        field "expires_at" (Json.time lock.expires_at)
          (field "run_id" (Json.str (str lock.run_id)) (field "state" (Json.str lock.state) end)))))

module _ {S : Type 0} (dumps : Json → Bytes) (store : SnapshotStore S) where
  unfoldable pub to_bytes : ActiveRunLock → Bytes
  unfolding to_json
  to_bytes lock = dumps (to_json lock)

  unfoldable pub acquire : String → Uuid → (pending_ttl now : ℕ) → Exec S (ActiveRunLock × ℕ)
  unfolding to_bytes
  acquire object_path run_id pending_ttl now = do
    let lock : ActiveRunLock = record {
      run_id = run_id;
      state = "pending";
      created_at = now;
      expires_at = now + pending_ttl;
      execution_name = none;
    }
    generation ← store.upload object_path (to_bytes lock) 0
    pure (lock, generation)

  unfoldable pub bind_execution :
      String → ℕ → ActiveRunLock → String → (running_ttl now : ℕ) → Exec S (ActiveRunLock × ℕ)
  unfolding to_bytes
  bind_execution object_path generation lock execution_name running_ttl now = do
    let bound : ActiveRunLock = record {
      run_id = lock.run_id;
      state = "running";
      created_at = lock.created_at;
      expires_at = now + running_ttl;
      execution_name = some execution_name;
    }
    new_generation ← store.upload object_path (to_bytes bound) generation
    pure (bound, new_generation)

  unfoldable pub release : String → ℕ → Exec S (Unit {0})
  release object_path generation = store.delete object_path generation
