-- ===== src/Witnesses/Files.antt =====
-- Workspaces and locks, over small file systems and the fakes.
use claudeagentsdk_cloudrun.Prelude.{
  ◌≡◌, ◌⊎◌, refl, arith, true, false, String, [], ◌∷◌, none, some, nat_eq, string_eq, beq_refl,
  length, inl, inr, Bool-cases,
}
use claudeagentsdk_cloudrun.Errors.{error, file_exists, file_not_found}
use claudeagentsdk_cloudrun.Exec.{ok, err}
use claudeagentsdk_cloudrun.Dict.{get, put, remove, get-put_self}
use claudeagentsdk_cloudrun.Text.{decimal, digits}
use claudeagentsdk_cloudrun.Models.Json.{Json}
use claudeagentsdk_cloudrun.Models.Records.{WorkspaceReference, SnapshotManifest}
use claudeagentsdk_cloudrun.Fakes.Objects.{
  Bytes, Snapshots, Workspaces, absent, create_workspace, get_workspace,
}
use claudeagentsdk_cloudrun.Ports.Objects.{in_memory_snapshots, in_memory_workspaces}
use claudeagentsdk_cloudrun.Workspace.Archives.{
  MemberKind, FileSystem, Directories, complete, parts, leaves, is_absolute, stays,
}
use claudeagentsdk_cloudrun.Workspace.Snapshots.{
  snapshot_manifest, create_workspace_snapshot, restore_workspace_snapshot,
}
use claudeagentsdk_cloudrun.Workspace.Snapshots.Verified.{IsVerified, IsCutShort, restore_lem}
use claudeagentsdk_cloudrun.Workspace.Snapshots.RoundTrip.{
  KeepsObjects, IsPortable, snapshot_round_trip,
}
use claudeagentsdk_cloudrun.Workspace.Locks.{acquire, bind_execution, release}
use claudeagentsdk_cloudrun.Workspace.Locks.Continuity.{lock_continuous, pending, bound, stored}

-- A workspace of one file, which holds the bytes.
abbrev one_file : FileSystem Bytes
one_file = record {
  sizes = λ w. length w ∷ [];
  pack = λ w. w;
  members = λ bytes. ok (
      record {
        name = "workspace/a.txt";
        kind = MemberKind.regular;
        linkname = "";
        size = length bytes;
      }
      ∷ []);
  extract = λ members bytes w. (ok tt, bytes);
  write = λ bytes w. complete;
  found = λ w.
      record {
        root = "/tmp/x/workspace";
        is_symlink = false;
        real_path = "/tmp/x/workspace/a.txt";
        exists = true;
        is_fifo = false;
      }
      ∷ [];
}

abbrev digest : Bytes → String
digest bytes = "h"

in_memory-reads :
    (key : String) (bytes : Bytes) (s : Workspaces) (r : WorkspaceReference)
    → (create_workspace digest key bytes s).0 ≡ ok r
    → get_workspace r (create_workspace digest key bytes s).1
      ≡ (ok bytes, (create_workspace digest key bytes s).1)
unfolding create_workspace get_workspace
in_memory-reads key bytes s r made = elim (Bool-cases (absent (get s.objects key))) [
  | inr there ↦ cc (rw there at made)
  | inl new ↦
      let own : record {
        object_key = key;
        version = decimal s.next_version;
        sha256 = "h";
        size = length bytes;
      }
          ≡ r =
        cc (rw new at made) in
      rw (← own) (
        rw (new, get-put_self s.objects key (decimal s.next_version, bytes))
          (rw (beq_refl (decimal s.next_version)) refl))
]

in_memory-hashes :
    (key : String) (bytes : Bytes) (s : Workspaces) (r : WorkspaceReference)
    → (create_workspace digest key bytes s).0 ≡ ok r
    → r.sha256 ≡ digest bytes
unfolding create_workspace
in_memory-hashes key bytes s r made = elim (Bool-cases (absent (get s.objects key))) [
  | inr there ↦ cc (rw there at made)
  | inl new ↦ cc (rw new at made)
]

in_memory-KeepsObjects : KeepsObjects digest (in_memory_workspaces digest)
in_memory-KeepsObjects = record { reads = in_memory-reads; hashes = in_memory-hashes }

abbrev no_workspaces : Workspaces
no_workspaces = record { objects = []; next_version = 1 }

abbrev holding : Bytes → Directories Bytes
holding bytes = record { content = bytes; snapshot_file = none; download_file = none }

abbrev reference : WorkspaceReference
reference = record { object_key = "k"; version = "1"; sha256 = "h"; size = 2 }

abbrev manifest : SnapshotManifest
manifest = snapshot_manifest digest 7 "0.2" (5 ∷ 6 ∷ []) 2 1000

made :
    (create_workspace_snapshot digest one_file
      (in_memory_workspaces digest)
      "k"
      7
      "0.2"
      10
      1000
      (no_workspaces, holding (5 ∷ 6 ∷ []))).0
    ≡ ok (reference, manifest)
unfolding create_workspace_snapshot create_workspace decimal digits get put
made = refl

one_file-IsPortable : IsPortable one_file (5 ∷ 6 ∷ []) []
unfolding leaves parts is_absolute stays
one_file-IsPortable = record {
  members =
      record { name = "workspace/a.txt"; kind = MemberKind.regular; linkname = ""; size = 2 } ∷ [];
  listed = refl;
  sized = refl;
  safe = (
    record { name_stays = refl; no_device = refl; link_stays = λ link. cc; known_root = refl },
    tt,
  );
  extracts = refl;
  inside = (record { no_link = refl; below = refl; no_pipe = refl }, tt);
  writable = refl;
}

snapshot_round_trip_example :
    let (t, left) =
      (create_workspace_snapshot digest one_file
        (in_memory_workspaces digest)
        "k"
        7
        "0.2"
        10
        1000
        (no_workspaces, holding (5 ∷ 6 ∷ []))).1 in
    (left ≡ holding (5 ∷ 6 ∷ []))
    × (restore_workspace_snapshot digest one_file
          (in_memory_workspaces digest)
          (some reference)
          (some manifest)
          10
          "1"
          "0.2"
          (t, holding [])
        ≡ (ok tt, (t, holding (5 ∷ 6 ∷ []))))
snapshot_round_trip_example =
    snapshot_round_trip digest one_file (in_memory_workspaces digest) 10 in_memory-KeepsObjects "k"
      7 "0.2" 1000 no_workspaces (holding (5 ∷ 6 ∷ [])) (holding []) reference manifest
      one_file-IsPortable made

abbrev kept : Workspaces
kept = record { objects = ("k", ("1", 5 ∷ 6 ∷ [])) ∷ []; next_version = 2 }

restore_lem_example :
    let after =
      restore_workspace_snapshot digest one_file
        (in_memory_workspaces digest)
        (some reference)
        (some manifest)
        10
        "1"
        "0.2"
        (kept, holding []) in
    ((after.1.1.download_file ≡ none)
      ⊎ IsCutShort digest one_file
          (in_memory_workspaces digest)
          10
          "1"
          "0.2"
          (holding [])
          after.0
          after.1.1)
    × (after.0 ≡ ok tt
        → IsVerified digest one_file
            (in_memory_workspaces digest)
            10
            "1"
            "0.2"
            (some reference)
            (some manifest)
            kept
            []
            after.1.1.content)
restore_lem_example =
    restore_lem digest one_file (in_memory_workspaces digest) 10 "1" "0.2" (some reference)
      (some manifest) kept (holding []) refl

abbrev no_bytes : Json → Bytes
no_bytes json = []

abbrev no_objects : Snapshots
no_objects = record { objects = []; next_generation = 1 }

lock_continuous_example :
    let lock = pending no_bytes "l" 7 60 1000 in
    let running = bound no_bytes "l" lock "job" 90 1010 in
    let locked = stored no_bytes "l" no_objects lock in
    let started = stored no_bytes "l" locked running in
    (acquire no_bytes in_memory_snapshots "l" 7 60 1000 no_objects ≡ (ok (lock, 1), locked))
    × (acquire no_bytes in_memory_snapshots "l" 8 60 1010 locked
        ≡ (err (error file_exists "l"), locked))
    × (bind_execution no_bytes in_memory_snapshots "l" 1 lock "job" 90 1010 locked
        ≡ (ok (running, 2), started))
    × (acquire no_bytes in_memory_snapshots "l" 8 60 1010 started
        ≡ (err (error file_exists "l"), started))
    × (release no_bytes in_memory_snapshots "l" 1 started
        ≡ (err (error file_not_found "l"), started))
    × (release no_bytes in_memory_snapshots "l" 2 started
        ≡ (ok tt, record started { objects = remove started.objects "l" }))
    × (get (remove started.objects "l") "l" ≡ none)
unfolding get
lock_continuous_example =
    lock_continuous no_bytes "l" 7 8 "job" 60 90 1000 1010 no_objects refl (omega arith)
