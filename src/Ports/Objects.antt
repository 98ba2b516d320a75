-- ===== src/Ports/Objects.antt =====
-- protocols.py: the ports of the object stores, with the fakes as their implementations.
use claudeagentsdk_cloudrun.Prelude.{ℕ, String}
use claudeagentsdk_cloudrun.Exec.{Exec}
use claudeagentsdk_cloudrun.Models.Records.{WorkspaceReference}
use claudeagentsdk_cloudrun.Fakes.Objects.{
  Bytes, Snapshots, upload, download, delete, Workspaces, create_workspace, get_workspace,
  delete_workspace,
}

pub record SnapshotStore (S : Type 0) : Type 0 where
  -- the last argument is if_generation_match
  pub upload : String → Bytes → ℕ → Exec S ℕ
  pub download : String → ℕ → Exec S Bytes
  pub delete : String → ℕ → Exec S (Unit {0})

pub record WorkspaceStore (S : Type 0) : Type 0 where
  pub create : String → Bytes → Exec S WorkspaceReference
  pub get : WorkspaceReference → Exec S Bytes
  pub delete : WorkspaceReference → Exec S (Unit {0})

abbrev pub in_memory_snapshots : SnapshotStore Snapshots
in_memory_snapshots = record { upload = upload; download = download; delete = delete }

abbrev pub in_memory_workspaces : (Bytes → String) → WorkspaceStore Workspaces
in_memory_workspaces sha256 = record {
  create = create_workspace sha256;
  get = get_workspace;
  delete = delete_workspace;
}
