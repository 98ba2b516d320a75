-- ===== src/Workspace/Snapshots/RoundTrip.antt =====
-- A snapshot that was written is restored as it was.
use claudeagentsdk_cloudrun.Prelude.{
  ℕ, String, true, false, ◌≡◌, refl, sym, ap, ◌∙◌, inl, inr, List, none, some, string_eq, ltb,
  beq_refl, length, All, Bool-cases,
}
use claudeagentsdk_cloudrun.Exec.{ok, Result-cases}
use claudeagentsdk_cloudrun.Models.Records.{Uuid, Time, WorkspaceReference, SnapshotManifest}
use claudeagentsdk_cloudrun.Fakes.Objects.{Bytes}
use claudeagentsdk_cloudrun.Ports.Objects.{WorkspaceStore}
use claudeagentsdk_cloudrun.Workspace.Archives.{
  Member, FileSystem, Directories, complete, total, file_bytes, archive_snapshot, extract_snapshot,
}
use claudeagentsdk_cloudrun.Workspace.Archives.Checks.{
  IsSafe, IsInside, validate_members-of_safe, check_found-of_inside,
}
use claudeagentsdk_cloudrun.Workspace.Snapshots.{
  unpack, snapshot_manifest, create_workspace_snapshot, restore_committed,
  restore_workspace_snapshot,
}

-- The contract of WorkspaceStore.create: what was created can be read under the reference, which
-- has the hash of the bytes.
pub record KeepsObjects {S : Type 0} (sha256 : Bytes → String) (store : WorkspaceStore S)
    : Type 0 where
  pub reads :
      (key : String) (bytes : Bytes) (s : S) (r : WorkspaceReference)
      → (store.create key bytes s).0 ≡ ok r
      → store.get r (store.create key bytes s).1 ≡ (ok bytes, (store.create key bytes s).1)
  pub hashes :
      (key : String) (bytes : Bytes) (s : S) (r : WorkspaceReference)
      → (store.create key bytes s).0 ≡ ok r
      → r.sha256 ≡ sha256 bytes

-- What a workspace holds can be packed without loss and is safe: tarfile lists the members with the
-- sizes of the files, and their extraction to the fresh roots gives the workspace again; the members
-- stay below the roots and are no devices or pipes; and no path of the workspace is a link or a pipe,
-- or stands outside. The downloaded archive can be written.
pub record IsPortable {W : Type 0} (files : FileSystem W) (w fresh : W) : Type 0 where
  pub members : List Member
  pub listed : files.members (files.pack w) ≡ ok members
  pub sized : file_bytes members ≡ total (files.sizes w)
  pub safe : All IsSafe members
  pub extracts : files.extract members (files.pack w) fresh ≡ (ok tt, w)
  pub inside : All IsInside (files.found w)
  pub writable : files.write (files.pack w) fresh ≡ complete

module _ {S W : Type 0} (sha256 : Bytes → String) (files : FileSystem W) (store : WorkspaceStore S)
    (max_bytes : ℕ) where
  -- What a snapshot that was created says.
  pub record IsCreated (key : String) (run_id : Uuid) (sdk_version : String) (now : Time) (s : S)
      (w : W) (r : WorkspaceReference) (m : SnapshotManifest) : Type 0 where
    pub small : ltb max_bytes (total (files.sizes w)) ≡ false
    pub made : (store.create key (files.pack w) s).0 ≡ ok r
    pub hash : string_eq.beq r.sha256 (sha256 (files.pack w)) ≡ true
    pub manifest :
        m ≡ snapshot_manifest sha256 run_id sdk_version (files.pack w) (total (files.sizes w)) now

  create-IsCreated :
      (key : String) (run_id : Uuid) (sdk_version : String) (now : Time) (s : S) (d : Directories W)
      (r : WorkspaceReference) (m : SnapshotManifest)
      → (create_workspace_snapshot sha256 files store key run_id sdk_version max_bytes now (s, d)).0
        ≡ ok (r, m)
      → IsCreated key run_id sdk_version now s d.content r m
        × ((create_workspace_snapshot sha256 files store key run_id sdk_version max_bytes now
              (s, d)).1
            ≡ ((store.create key (files.pack d.content) s).1, record d { snapshot_file = none }))
  unfolding create_workspace_snapshot archive_snapshot
  create-IsCreated key run_id sdk now s d r m done =
      elim (Bool-cases (ltb max_bytes (total (files.sizes d.content)))) [
        | inl large ↦ cc (rw large at done)
        | inr small ↦ elim (Bool-cases (ltb max_bytes (length (files.pack d.content)))) [
          | inl large ↦ cc (rw (small, large) at done)
          | inr fits ↦ elim (Result-cases (store.create key (files.pack d.content) s).0) [
            | inr (e, failed) ↦ cc (rw (small, fits, failed) at done)
            | inl (r', made) ↦
                elim (Bool-cases (string_eq.beq r'.sha256 (sha256 (files.pack d.content)))) [
                  | inr differ ↦ cc (rw (small, fits, made, differ) at done)
                  | inl same ↦
                      let result = rw (small, fits, made, same) at done in
                      let own : r' ≡ r = cc in
                      (
                        record {
                          small = small;
                          made = made ∙ ap ok own;
                          hash = rw (← own) same;
                          manifest = cc;
                        },
                        rw (small, fits, made, same) refl,
                      )
                ]
          ]
        ]
      ]

  extract-portable :
      (w : W) (d : Directories W)
      → IsPortable files w d.content
      → ltb max_bytes (total (files.sizes w)) ≡ false
      → extract_snapshot files (files.pack w) max_bytes d ≡ (ok tt, record d { content = w })
  unfolding extract_snapshot
  extract-portable w d portable small =
      rw
        (
          portable.listed,
          portable.sized,
          small,
          validate_members-of_safe portable.members portable.safe,
          portable.extracts,
          check_found-of_inside (files.found w) portable.inside,
        )
        refl

  restore-portable :
      (w : W) (d : Directories W) (t : S) (r : WorkspaceReference) (m : SnapshotManifest)
      → IsPortable files w d.content
      → ltb max_bytes (total (files.sizes w)) ≡ false
      → store.get r t ≡ (ok (files.pack w), t)
      → m.sha256 ≡ sha256 (files.pack w)
      → r.sha256 ≡ sha256 (files.pack w)
      → restore_committed sha256 files store r m max_bytes m.schema_version m.claude_sdk_version
          (t, d)
        ≡ (ok tt, (t, record d { content = w; download_file = none }))
  unfolding restore_committed unpack
  restore-portable w d t r m portable small got described hash =
      let fresh = record d { download_file = some (files.pack w) } in
      rw
        (
          beq_refl m.schema_version,
          beq_refl m.claude_sdk_version,
          (string_eq.beq_iff m.sha256 r.sha256).1 (described ∙ sym hash),
          got,
          (string_eq.beq_iff (sha256 (files.pack w)) r.sha256).1 (sym hash),
          portable.writable,
          extract-portable w fresh portable small,
        )
        refl

  -- Let the store keep what is created in it, and let a snapshot of a workspace be created. Where
  -- tarfile packs this workspace without loss, its members stay below the two roots and are no devices
  -- or pipes, no path in it is a link (not even one that stays inside) or a pipe, and the downloaded
  -- archive can be written, the snapshot can be restored into fresh directories, by its reference and
  -- manifest, with the same limit and for the same versions: they then hold the workspace, and no
  -- downloaded archive is left. The source keeps its workspace and loses the archive.
  pub snapshot_round_trip :
      KeepsObjects sha256 store
      → (key : String) (run_id : Uuid) (sdk_version : String) (now : Time) (s : S)
        (source target : Directories W) (r : WorkspaceReference) (m : SnapshotManifest)
      → IsPortable files source.content target.content
      → (create_workspace_snapshot sha256 files store key run_id sdk_version max_bytes now
          (s, source)).0
        ≡ ok (r, m)
      → let (t, left) =
          (create_workspace_snapshot sha256 files store key run_id sdk_version max_bytes now
            (s, source)).1 in
        (left ≡ record source { snapshot_file = none })
        × (restore_workspace_snapshot sha256 files store
              (some r)
              (some m)
              max_bytes
              "1"
              sdk_version
              (t, target)
            ≡ (ok tt, (t, record target { content = source.content; download_file = none })))
  unfolding restore_workspace_snapshot snapshot_manifest
  snapshot_round_trip keeps key run_id sdk now s source target r m portable done =
      let (created, after) = create-IsCreated key run_id sdk now s source r m done in
      let bytes = files.pack source.content in
      let t = (store.create key bytes s).1 in
      let written =
        snapshot_manifest sha256 run_id sdk bytes (total (files.sizes source.content)) now in
      rw (after, created.manifest)
        (
          refl,
          restore-portable source.content target t r written portable created.small
              (keeps.reads key bytes s r created.made) refl
              (keeps.hashes key bytes s r created.made),
        )
