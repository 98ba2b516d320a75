-- ===== src/Workspace/Snapshots.antt =====
-- workspace_store.py: snapshots written, and restored only as they were committed. `sha256` stands
-- for the hexadecimal digest of bytes, a function of the language's library.
pub mod Verified
pub mod RoundTrip
use claudeagentsdk_cloudrun.Prelude.{
  ℕ, String, Bool, true, false, not, Option, none, some, string_eq, length, if◌then◌else◌,
}
use claudeagentsdk_cloudrun.Errors.{error, workspace_corrupted, session_incompatible}
use claudeagentsdk_cloudrun.Exec.{
  Exec, Result, ok, err, pure, raise, lift, gets, modify, guard, attempt, on_left, on_right, ◌>>=◌,
  ◌>>◌,
}
use claudeagentsdk_cloudrun.Models.Records.{Uuid, Time, WorkspaceReference, SnapshotManifest}
use claudeagentsdk_cloudrun.Lifecycle.{SnapshotReference}
use claudeagentsdk_cloudrun.Fakes.Objects.{Bytes}
use claudeagentsdk_cloudrun.Ports.Objects.{SnapshotStore, WorkspaceStore}
use claudeagentsdk_cloudrun.Workspace.Archives.{
  FileSystem, Directories, Written, complete, failed, archive_snapshot, extract_snapshot,
}

-- archive.write_bytes(data), before the try
abbrev write_download : {W : Type 0} → Bytes → Written → Exec (Directories W) (Unit {0})
write_download bytes complete d = (ok tt, record d { download_file = some bytes })
write_download bytes (failed e left) d = (err e, record d { download_file = left })

module _ (sha256 : Bytes → String) where
  unfoldable pub snapshot_manifest : Uuid → String → Bytes → ℕ → Time → SnapshotManifest
  snapshot_manifest run_id sdk_version bytes uncompressed_bytes now = record {
    schema_version = "1";
    claude_sdk_version = sdk_version;
    run_id = run_id;
    created_at = now;
    uncompressed_bytes = uncompressed_bytes;
    compressed_bytes = length bytes;
    sha256 = sha256 bytes;
  }

  unfoldable pub save_immutable_snapshot :
      {S : Type 0} → SnapshotStore S → String → SnapshotManifest → Bytes → Exec S SnapshotReference
  save_immutable_snapshot store object_path manifest bytes = do
    generation ← store.upload object_path bytes 0
    pure (record { object_path = object_path; generation = generation; sha256 = manifest.sha256 })

  module _ {S W : Type 0} (files : FileSystem W) where
    -- The archive is written; extract_snapshot; and the removal of the file however that ends. The
    -- removal itself does not fail.
    unfoldable pub unpack : Bytes → ℕ → Exec (S × Directories W) (Unit {0})
    unpack bytes max_bytes = do
      content ← gets (λ p. p.1.content)
      on_right (write_download bytes (files.write bytes content))
      outcome ← attempt (on_right (extract_snapshot files bytes max_bytes))
      on_right (modify (λ d. record d { download_file = none }))
      lift outcome

    unfoldable pub restore_verified_snapshot :
        SnapshotStore S → SnapshotReference → ℕ → Exec (S × Directories W) (Unit {0})
    unfolding unpack
    restore_verified_snapshot store reference max_bytes = do
      bytes ← on_left (store.download reference.object_path reference.generation)
      guard (string_eq.beq (sha256 bytes) reference.sha256)
          (error workspace_corrupted "snapshot SHA-256 does not match committed reference")
      unpack bytes max_bytes

    -- The initializer of an application works on the workspace.
    abbrev initialize : Option (Exec W (Unit {0})) → Exec (S × Directories W) (Unit {0})
    initialize none (s, d) = (ok tt, (s, d))
    initialize (some initializer) (s, d) =
        let (r, w) = initializer d.content in (r, (s, record d { content = w }))

    unfoldable pub prepare_workspace :
        SnapshotStore S
        → Option SnapshotReference
        → Option (Exec W (Unit {0}))
        → ℕ
        → Exec (S × Directories W) (Unit {0})
    unfolding restore_verified_snapshot
    prepare_workspace store (some committed) initializer max_bytes =
        restore_verified_snapshot store committed max_bytes
    prepare_workspace store none initializer max_bytes = initialize initializer

    unfoldable pub create_workspace_snapshot :
        WorkspaceStore S
        → String
        → Uuid
        → String
        → ℕ
        → Time
        → Exec (S × Directories W) (WorkspaceReference × SnapshotManifest)
    unfolding archive_snapshot snapshot_manifest
    create_workspace_snapshot store object_key run_id sdk_version max_bytes now = do
      sizes ← on_right (archive_snapshot files max_bytes)
      bytes ← gets (λ p. files.pack p.1.content)
      let manifest = snapshot_manifest run_id sdk_version bytes sizes.0 now
      created ← attempt (on_left (store.create object_key bytes))
      on_right (modify (λ d. record d { snapshot_file = none }))
      reference ← lift created
      guard (string_eq.beq reference.sha256 manifest.sha256)
          (error workspace_corrupted "WorkspaceStore returned a mismatched snapshot hash")
      pure (reference, manifest)

    -- The checks and the restoring, of a committed snapshot.
    unfoldable pub restore_committed :
        WorkspaceStore S
        → WorkspaceReference
        → SnapshotManifest
        → ℕ
        → (expected_schema_version expected_sdk_version : String)
        → Exec (S × Directories W) (Unit {0})
    restore_committed store reference manifest max_bytes schema_version sdk_version = do
      guard (string_eq.beq manifest.schema_version schema_version)
          (error session_incompatible "snapshot schema version is incompatible")
      guard (string_eq.beq manifest.claude_sdk_version sdk_version)
          (error session_incompatible "snapshot SDK version is incompatible")
      guard (string_eq.beq manifest.sha256 reference.sha256)
          (error workspace_corrupted "snapshot manifest and reference hash differ")
      bytes ← on_left (store.get reference)
      guard (string_eq.beq (sha256 bytes) reference.sha256)
          (error workspace_corrupted "WorkspaceStore returned a corrupted snapshot")
      unpack bytes max_bytes

    unfoldable pub restore_workspace_snapshot :
        WorkspaceStore S
        → Option WorkspaceReference
        → Option SnapshotManifest
        → ℕ
        → (expected_schema_version expected_sdk_version : String)
        → Exec (S × Directories W) (Unit {0})
    restore_workspace_snapshot store (some reference) (some manifest) max_bytes schema sdk =
        restore_committed store reference manifest max_bytes schema sdk
    restore_workspace_snapshot store reference manifest max_bytes schema sdk =
        raise (error workspace_corrupted "a committed workspace snapshot is required")

    unfoldable pub prepare_workspace_from_reference :
        WorkspaceStore S
        → Option WorkspaceReference
        → Option SnapshotManifest
        → Option (Exec W (Unit {0}))
        → ℕ
        → (expected_schema_version expected_sdk_version : String)
        → Exec (S × Directories W) (Unit {0})
    prepare_workspace_from_reference store none none initializer max_bytes schema sdk =
        initialize initializer
    prepare_workspace_from_reference store reference manifest initializer max_bytes schema sdk =
        restore_workspace_snapshot store reference manifest max_bytes schema sdk
