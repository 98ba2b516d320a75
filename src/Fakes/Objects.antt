-- ===== src/Fakes/Objects.antt =====
-- InMemorySnapshotStore, InMemoryWorkspaceStore and InMemoryActiveRunLocks. An object's bytes are
-- a list of numbers; `sha256` stands for the digest of the bytes, a function of the language's library.
use claudeagentsdk_cloudrun.Prelude.{
  ℕ, ◌+◌, String, Bool, true, false, not, ◌&&◌, List, Option, none, some, nat_eq, string_eq, length,
  nat_beq, if◌then◌else◌,
}
use claudeagentsdk_cloudrun.Errors.{Error, error, file_exists, file_not_found, key_error}
use claudeagentsdk_cloudrun.Exec.{Exec, pure, gets, modify, guard, require, ◌>>=◌, ◌>>◌}
use claudeagentsdk_cloudrun.Dict.{Dict, get, put, remove}
use claudeagentsdk_cloudrun.Text.{decimal}
use claudeagentsdk_cloudrun.Models.Records.{Uuid, WorkspaceReference}

abbrev pub Bytes : Type 0
Bytes = List ℕ

pub record Snapshots : Type 0 where
  pub objects : Dict String (ℕ × Bytes)
  pub next_generation : ℕ

-- if_generation_match, by the generation that is there: 0 asks for none.
unfoldable pub matches : Option (ℕ × Bytes) → ℕ → Bool
matches none wanted = nat_beq wanted 0
matches (some (generation, bytes)) wanted = not (nat_beq wanted 0) && nat_beq generation wanted

abbrev pub mismatch : ℕ → String → Error
mismatch wanted path =
    if nat_beq wanted 0 then error file_exists path else error file_not_found path

unfoldable pub upload : String → Bytes → ℕ → Exec Snapshots ℕ
unfolding matches
upload object_path bytes if_generation_match = do
  current ← gets (λ s. get s.objects object_path)
  guard (matches current if_generation_match) (mismatch if_generation_match object_path)
  generation ← gets (λ s. s.next_generation)
  modify (λ s. record s {
    next_generation = s.next_generation + 1;
    objects = put s.objects object_path (generation, bytes);
  })
  pure generation

unfoldable pub download : String → ℕ → Exec Snapshots Bytes
download object_path generation = do
  found ← gets (λ s. get s.objects object_path)
  object ← require found (error key_error object_path)
  guard (nat_beq object.0 generation) (error file_not_found object_path)
  pure object.1

unfoldable pub delete : String → ℕ → Exec Snapshots (Unit {0})
unfolding download
delete object_path generation = do
  download object_path generation
  modify (λ s. record s { objects = remove s.objects object_path })

pub record Workspaces : Type 0 where
  pub objects : Dict String (String × Bytes)
  pub next_version : ℕ

abbrev pub absent {ℓ} : {A : Type ℓ} → Option A → Bool
absent none = true
absent (some a) = false

unfoldable pub create_workspace :
    (Bytes → String) → String → Bytes → Exec Workspaces WorkspaceReference
unfolding decimal
create_workspace sha256 object_key bytes = do
  current ← gets (λ s. get s.objects object_key)
  guard (absent current) (error file_exists object_key)
  version ← gets (λ s. decimal s.next_version)
  modify (λ s. record s {
    next_version = s.next_version + 1;
    objects = put s.objects object_key (version, bytes);
  })
  pure (record {
    object_key = object_key;
    version = version;
    sha256 = sha256 bytes;
    size = length bytes;
  })

unfoldable pub get_workspace : WorkspaceReference → Exec Workspaces Bytes
get_workspace reference = do
  found ← gets (λ s. get s.objects reference.object_key)
  object ← require found (error key_error reference.object_key)
  guard (string_eq.beq object.0 reference.version) (error file_not_found reference.object_key)
  pure object.1

unfoldable pub delete_workspace : WorkspaceReference → Exec Workspaces (Unit {0})
unfolding get_workspace
delete_workspace reference = do
  get_workspace reference
  modify (λ s. record s { objects = remove s.objects reference.object_key })

pub record RunLocks : Type 0 where
  pub locks : Dict String (ℕ × Uuid)
  pub next_generation : ℕ

unfoldable pub acquire : String → Uuid → Exec RunLocks ℕ
acquire session_id run_id = do
  current ← gets (λ s. get s.locks session_id)
  guard (absent current) (error file_exists session_id)
  generation ← gets (λ s. s.next_generation)
  modify (λ s. record s {
    next_generation = s.next_generation + 1;
    locks = put s.locks session_id (generation, run_id);
  })
  pure generation

unfoldable pub release : String → ℕ → Exec RunLocks (Unit {0})
release session_id generation = do
  found ← gets (λ s. get s.locks session_id)
  lock ← require found (error key_error session_id)
  guard (nat_beq lock.0 generation) (error file_not_found session_id)
  modify (λ s. record s { locks = remove s.locks session_id })
