-- ===== src/Workspace/Snapshots/Verified.antt =====
-- A workspace is restored only from what was committed and verified.
use claudeagentsdk_cloudrun.Prelude.{
  ℕ, String, ◌≡◌, ◌⊎◌, refl, inl, inr, Option, none, some, string_eq, Bool-cases,
}
use claudeagentsdk_cloudrun.Errors.{Error}
use claudeagentsdk_cloudrun.Exec.{Exec, Result, ok, err, Result-cases}
use claudeagentsdk_cloudrun.Models.Records.{WorkspaceReference, SnapshotManifest}
use claudeagentsdk_cloudrun.Fakes.Objects.{Bytes}
use claudeagentsdk_cloudrun.Ports.Objects.{WorkspaceStore}
use claudeagentsdk_cloudrun.Workspace.Archives.{FileSystem, Directories, Written, complete, failed}
use claudeagentsdk_cloudrun.Workspace.Snapshots.{
  unpack, restore_committed, restore_workspace_snapshot,
}
use claudeagentsdk_cloudrun.Workspace.Archives.Checks.{IsExtracted, extract_snapshot-IsExtracted}

Written-cases :
    (x : Written) → (x ≡ complete) ⊎ ((e : Error) × (left : Option Bytes) × (x ≡ failed e left))
Written-cases complete = inl refl
Written-cases (failed e left) = inr (e, left, refl)

module _ {S W : Type 0} (sha256 : Bytes → String) (files : FileSystem W) (store : WorkspaceStore S)
    (max_bytes : ℕ) (schema_version sdk_version : String) where
  -- What is known of a workspace that was restored, by the state of the store before.
  pub record IsVerified (reference : Option WorkspaceReference) (manifest : Option SnapshotManifest)
      (s : S) (before after : W) : Type 0 where
    pub committed : WorkspaceReference
    pub described : SnapshotManifest
    pub bytes : Bytes
    pub has_reference : reference ≡ some committed
    pub has_manifest : manifest ≡ some described
    pub same_schema : described.schema_version ≡ schema_version
    pub same_sdk : described.claude_sdk_version ≡ sdk_version
    pub same_hash : described.sha256 ≡ committed.sha256
    pub stored : (store.get committed s).0 ≡ ok bytes
    pub hashed : sha256 bytes ≡ committed.sha256
    pub extracted : IsExtracted files bytes max_bytes before after

  -- The archive could not be written: the error of the write comes out, and what the write left of
  -- the archive stays.
  pub record IsCutShort {A : Type 0} (d : Directories W) (result : Result A) (after : Directories W)
      : Type 0 where
    pub bytes : Bytes
    pub e : Error
    pub left : Option Bytes
    pub cut : files.write bytes d.content ≡ failed e left
    pub raised : result ≡ err e
    pub same : after ≡ record d { download_file = left }

  abbrev restore :
      Option WorkspaceReference → Option SnapshotManifest → Exec (S × Directories W) (Unit {0})
  restore reference manifest =
      restore_workspace_snapshot sha256 files store reference manifest max_bytes schema_version
        sdk_version

  -- Where no downloaded archive was left before, none is left after, whether the snapshot is restored
  -- or an error is raised, unless the write of the archive itself failed: then the write's error comes
  -- out, the roots are as they were, and what the write left of the archive stays. A snapshot is
  -- restored only if there are a committed reference and a manifest, of the expected versions and with
  -- one hash, which is the hash of the bytes that the store gives for the reference. Those bytes are an
  -- archive of at most `max_bytes` bytes of files; none of its members leaves the two roots, is a
  -- device or a pipe, or is a link out of them. The roots then hold what the extraction of these
  -- members made, with no link and no pipe among it. The removal of the archive is taken not to fail.
  pub restore_lem :
      (reference : Option WorkspaceReference) (manifest : Option SnapshotManifest) (s : S)
      (d : Directories W)
      → d.download_file ≡ none
      → let after = restore reference manifest (s, d) in
        ((after.1.1.download_file ≡ none) ⊎ IsCutShort d after.0 after.1.1)
        × (after.0 ≡ ok tt → IsVerified reference manifest s d.content after.1.1.content)
  unfolding restore_workspace_snapshot restore_committed unpack
  restore_lem none manifest s d clean = (inl clean, λ done. cc)
  restore_lem (some r) none s d clean = (inl clean, λ done. cc)
  restore_lem (some r) (some m) s d clean =
      elim (Bool-cases (string_eq.beq m.schema_version schema_version)) [
        | inr old ↦ rw old (inl clean, λ done. cc)
        | inl schema ↦ elim (Bool-cases (string_eq.beq m.claude_sdk_version sdk_version)) [
          | inr other ↦ rw (schema, other) (inl clean, λ done. cc)
          | inl sdk ↦ elim (Bool-cases (string_eq.beq m.sha256 r.sha256)) [
            | inr differ ↦ rw (schema, sdk, differ) (inl clean, λ done. cc)
            | inl same ↦ elim (Result-cases (store.get r s).0) [
              | inr (e, lost) ↦ rw (schema, sdk, same, lost) (inl clean, λ done. cc)
              | inl (bytes, got) ↦ elim (Bool-cases (string_eq.beq (sha256 bytes) r.sha256)) [
                | inr corrupt ↦ rw (schema, sdk, same, got, corrupt) (inl clean, λ done. cc)
                | inl hashed ↦ elim (Written-cases (files.write bytes d.content)) [
                  | inr (e, left, cut) ↦
                      rw (schema, sdk, same, got, hashed, cut)
                        (
                          inr (record {
                            bytes = bytes;
                            e = e;
                            left = left;
                            cut = cut;
                            raised = refl;
                            same = refl;
                          }),
                          λ done. cc,
                        )
                  | inl whole ↦
                      rw (schema, sdk, same, got, hashed, whole)
                        (
                          inl refl,
                          λ done. record {
                            committed = r;
                            described = m;
                            bytes = bytes;
                            has_reference = refl;
                            has_manifest = refl;
                            same_schema =
                                (string_eq.beq_iff m.schema_version schema_version).0 schema;
                            same_sdk = (string_eq.beq_iff m.claude_sdk_version sdk_version).0 sdk;
                            same_hash = (string_eq.beq_iff m.sha256 r.sha256).0 same;
                            stored = got;
                            hashed = (string_eq.beq_iff (sha256 bytes) r.sha256).0 hashed;
                            extracted = extract_snapshot-IsExtracted files bytes max_bytes _ done;
                          },
                        )
                ]
              ]
            ]
          ]
        ]
      ]
