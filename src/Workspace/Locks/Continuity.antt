-- ===== src/Workspace/Locks/Continuity.antt =====
-- The lock of a session over the fake snapshot store, from its acquisition to its release.
use claudeagentsdk_cloudrun.Prelude.{
  ℕ, ◌+◌, ◌≤◌, String, ◌≡◌, refl, true, false, none, some, arith, nat_eq, string_eq, nat_beq,
  beq_refl,
}
use claudeagentsdk_cloudrun.Errors.{error, file_exists, file_not_found}
use claudeagentsdk_cloudrun.Exec.{ok, err}
use claudeagentsdk_cloudrun.Dict.{get, put, remove, get-put_self, get-remove}
use claudeagentsdk_cloudrun.Models.Json.{Json}
use claudeagentsdk_cloudrun.Models.Records.{Uuid}
use claudeagentsdk_cloudrun.Fakes.Objects.{Bytes, Snapshots, upload, download, delete, matches}
use claudeagentsdk_cloudrun.Ports.Objects.{in_memory_snapshots}
use claudeagentsdk_cloudrun.Workspace.Locks.{
  ActiveRunLock, to_bytes, acquire, bind_execution, release,
}

module _ (dumps : Json → Bytes) (path : String) where
  abbrev pub pending : Uuid → (ttl now : ℕ) → ActiveRunLock
  pending run_id ttl now = record {
    run_id = run_id;
    state = "pending";
    created_at = now;
    expires_at = now + ttl;
    execution_name = none;
  }

  abbrev pub bound : ActiveRunLock → String → (ttl now : ℕ) → ActiveRunLock
  bound lock name ttl now = record lock {
    state = "running";
    expires_at = now + ttl;
    execution_name = some name;
  }

  -- The store after a write of the lock, under the next generation.
  abbrev pub stored : Snapshots → ActiveRunLock → Snapshots
  stored t lock = record t {
    next_generation = t.next_generation + 1;
    objects = put t.objects path (t.next_generation, to_bytes dumps in_memory_snapshots lock);
  }

  held :
      (generation : ℕ) (bytes : Bytes) (other : Uuid) (ttl now : ℕ) (t : Snapshots)
      → get t.objects path ≡ some (generation, bytes)
      → acquire dumps in_memory_snapshots path other ttl now t ≡ (err (error file_exists path), t)
  unfolding acquire upload matches
  held generation bytes other ttl now t there = rw there refl

  acquire-free :
      (run_id : Uuid) (ttl now : ℕ) (t : Snapshots)
      → get t.objects path ≡ none
      → acquire dumps in_memory_snapshots path run_id ttl now t
        ≡ (ok (pending run_id ttl now, t.next_generation), stored t (pending run_id ttl now))
  unfolding acquire upload matches
  acquire-free run_id ttl now t free = rw free refl

  matches_own :
      (generation : ℕ) (bytes : Bytes)
      → 1 ≤ generation
      → matches (some (generation, bytes)) generation ≡ true
  unfolding matches
  matches_own generation bytes positive = ground arith

  bind-held :
      (generation : ℕ) (bytes : Bytes) (lock : ActiveRunLock) (name : String) (ttl now : ℕ)
      (t : Snapshots)
      → get t.objects path ≡ some (generation, bytes)
      → 1 ≤ generation
      → bind_execution dumps in_memory_snapshots path generation lock name ttl now t
        ≡ (ok (bound lock name ttl now, t.next_generation), stored t (bound lock name ttl now))
  unfolding bind_execution upload
  bind-held generation bytes lock name ttl now t there positive =
      rw (there, matches_own generation bytes positive) refl

  release-stale :
      (old generation : ℕ) (bytes : Bytes) (t : Snapshots)
      → get t.objects path ≡ some (generation, bytes)
      → nat_beq generation old ≡ false
      → release dumps in_memory_snapshots path old t ≡ (err (error file_not_found path), t)
  unfolding release delete download
  release-stale old generation bytes t there stale = rw (there, stale) refl

  release-held :
      (generation : ℕ) (bytes : Bytes) (t : Snapshots)
      → get t.objects path ≡ some (generation, bytes)
      → release dumps in_memory_snapshots path generation t
        ≡ (ok tt, record t { objects = remove t.objects path })
  unfolding release delete download
  release-held generation bytes t there =
      rw (there, (nat_eq.beq_iff generation generation).1 refl) refl

  removed : (t : Snapshots) → get (remove t.objects path) path ≡ none
  removed t = rw (get-remove t.objects path path) (rw (beq_refl path) refl)

  -- Over the fake snapshot store, whose next generation is at least 1, let no lock of a session be
  -- there. Then a run acquires it; from then
  -- on, and also after the lock was bound to the run's execution, another run is refused and changes
  -- nothing. Binding it gives a new generation: a release under the old one is refused, and a release
  -- under the new one removes the lock.
  pub lock_continuous :
      (run_id other : Uuid) (name : String) (pending_ttl running_ttl now later : ℕ) (s : Snapshots)
      → get s.objects path ≡ none
      → 1 ≤ s.next_generation
      → let lock = pending run_id pending_ttl now in
        let running = bound lock name running_ttl later in
        let locked = stored s lock in
        let started = stored locked running in
        (acquire dumps in_memory_snapshots path run_id pending_ttl now s
          ≡ (ok (lock, s.next_generation), locked))
        × (acquire dumps in_memory_snapshots path other pending_ttl later locked
            ≡ (err (error file_exists path), locked))
        × (bind_execution dumps in_memory_snapshots path s.next_generation lock name running_ttl
              later locked
            ≡ (ok (running, s.next_generation + 1), started))
        × (acquire dumps in_memory_snapshots path other pending_ttl later started
            ≡ (err (error file_exists path), started))
        × (release dumps in_memory_snapshots path s.next_generation started
            ≡ (err (error file_not_found path), started))
        × (release dumps in_memory_snapshots path (s.next_generation + 1) started
            ≡ (ok tt, record started { objects = remove started.objects path }))
        × (get (remove started.objects path) path ≡ none)
  lock_continuous run_id other name pending_ttl running_ttl now later s free positive =
      let locked = stored s (pending run_id pending_ttl now) in
      let running = bound (pending run_id pending_ttl now) name running_ttl later in
      let there = get-put_self s.objects path _ in
      let still = get-put_self locked.objects path _ in
      (
        acquire-free run_id pending_ttl now s free,
        held s.next_generation _ other pending_ttl later locked there,
        bind-held s.next_generation _ _ name running_ttl later locked there positive,
        held (s.next_generation + 1) _ other pending_ttl later (stored locked running) still,
        release-stale s.next_generation (s.next_generation + 1) _ (stored locked running) still
            (ground arith),
        release-held (s.next_generation + 1) _ (stored locked running) still,
        removed (stored locked running),
      )
